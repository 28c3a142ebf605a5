-- ===== src/Cache/Repository.antt =====
-- src/arvel/cache/__init__.py: `CacheRepository` over its client. Each method takes the repository's
-- state and returns it; a cache event is what `_dispatch_cache_event` is handed (what the listeners
-- do is not modelled).
pub mod Reads
pub mod Remember
mod Tests
use mathlib.Core.List.{foldl}
use arvel.Common.{
  String, Bool, true, false, not, Option, none, some, List, [], ◌∷◌, ◌++◌, if◌then◌else◌, is_some,
  map,
}
use arvel.Common.Int.{ℤ, pos, ◌-ℤ◌, leb_ℤ}
use arvel.Cache.Value.{Value, none_, int, text, tuple, nil, cons, wrap, unwrap, is_there}
use arvel.Cache.Client.{Client}

pub data Event : Type 0 where
  cache_hit : String → Value → Event
  cache_missed : String → Event
  key_written : String → Value → Option ℤ → Event
  key_forgotten : String → Event

-- `ttl is not None and ttl <= 0`
abbrev pub is_past : Option ℤ → Bool
is_past none = false
is_past (some t) = leb_ℤ t (pos 0)

module _ (c : Client) where
  -- The background tasks are the keys under revalidation, each with its `stale`.
  pub record Repo : Type 0 where
    pub store : c.State
    pub events : List Event
    pub tasks : List (String × ℤ)

  abbrev pub Action : Type 0 → Type 0
  Action A = Repo → A × Repo

  -- a callback, which may use the cache; `none` where it raises
  abbrev pub Callback : Type 0
  Callback = Action (Option Value)

  abbrev pub write : Repo → c.State → Event → Repo
  write r s e = record r { store = s; events = r.events ++ e ∷ [] }

  abbrev pub note : Repo → Event → Repo
  note r e = record r { events = r.events ++ e ∷ [] }

  unfoldable pub get : String → Value → Action Value
  unfolding unwrap
  get key default r =
      let raw = c.get key r.store in
      if is_there raw
      then (unwrap raw, note r (cache_hit key (unwrap raw)))
      else (default, note r (cache_missed key))

  unfoldable pub put : String → Value → Option ℤ → Action Bool
  unfolding wrap
  put key value ttl r =
      if is_past ttl
      then (false, write r (c.delete key r.store) (key_forgotten key))
      else (true, write r (c.set key (wrap value) ttl r.store) (key_written key value ttl))

  unfoldable pub has : String → Action Bool
  has key r = (c.exists key r.store, r)

  unfoldable pub forget : String → Action Bool
  forget key r = (true, write r (c.delete key r.store) (key_forgotten key))

  unfoldable pub flush : Action Bool
  flush r = (true, record r { store = c.clear r.store })

  unfoldable pub add : String → Value → Option ℤ → Action Bool
  unfolding wrap
  add key value ttl r =
      let (stored, s) = c.set_new key (wrap value) ttl r.store in
      if is_past ttl then (false, r) else (
        stored,
        if stored then write r s (key_written key value ttl) else record r { store = s },
      )

  unfoldable pub pull : String → Value → Action Value
  unfolding unwrap
  pull key default r =
      let raw = c.get key r.store in
      if is_there raw
      then (
        unwrap raw,
        note (write r (c.delete key r.store) (cache_hit key (unwrap raw))) (key_forgotten key),
      )
      else (default, note r (cache_missed key))

  unfoldable pub forever : String → Value → Action Bool
  unfolding put
  forever key value = put key value none

  unfoldable pub expire : String → ℤ → Action Bool
  expire key ttl r = (true, record r { store = c.expire key ttl r.store })

  unfoldable pub touch : String → ℤ → Action Bool
  unfolding expire
  touch = expire

  unfoldable pub increment_with_ttl : String → ℤ → Option ℤ → Action ℤ
  increment_with_ttl key amount ttl r =
      let (n, s) = c.incr key amount ttl r.store in (n, record r { store = s })

  unfoldable pub increment : String → ℤ → Action ℤ
  unfolding increment_with_ttl
  increment key by = increment_with_ttl key by none

  unfoldable pub decrement : String → ℤ → Action ℤ
  unfolding increment_with_ttl
  decrement key by = increment_with_ttl key (pos 0 -ℤ by) none

  -- `remember` after the miss: what the callback returns is stored, an exception passes through
  unfoldable pub remember_computed : String → Option ℤ → Option Value × Repo → Option Value × Repo
  unfolding wrap
  remember_computed key ttl (none, r) = (none, r)
  remember_computed key ttl (some v, r) =
      (some v, write r (c.set key (wrap v) ttl r.store) (key_written key v ttl))

  unfoldable pub remember : String → Option ℤ → Callback → Action (Option Value)
  unfolding unwrap remember_computed
  remember key ttl callback r =
      let raw = c.get key r.store in
      if is_there raw
      then (some (unwrap raw), note r (cache_hit key (unwrap raw)))
      else remember_computed key ttl (callback (note r (cache_missed key)))

  unfoldable pub remember_forever : String → Callback → Action (Option Value)
  unfolding remember
  remember_forever key = remember key none

  unfoldable pub one_of_many : c.State → Value → String → String × Value
  unfolding unwrap
  one_of_many s default key =
      let raw = c.get key s in (key, if is_there raw then unwrap raw else default)

  -- `many`: one value for each key, with no event
  unfoldable pub many : List String → Value → Action (List (String × Value))
  unfolding one_of_many
  many keys default r = (map (one_of_many r.store default) keys, r)

  abbrev pub delete_entry : c.State → String × Value → c.State
  delete_entry s (key, _) = c.delete key s

  abbrev pub set_entry : Option ℤ → c.State → String × Value → c.State
  set_entry ttl s (key, v) = c.set key (wrap v) ttl s

  unfoldable pub put_many : List (String × Value) → Option ℤ → Action Bool
  unfolding wrap
  put_many mapping ttl r =
      if is_past ttl
      then (false, record r { store = foldl delete_entry r.store mapping })
      else (true, record r { store = foldl (set_entry ttl) r.store mapping })

  -- `cached` after the miss
  unfoldable pub cached_computed : String → Option ℤ → Option Value × Repo → Option Value × Repo
  unfolding put
  cached_computed key ttl (none, r) = (none, r)
  cached_computed key ttl (some v, r) = (some v, (put key v ttl r).1)

  -- `cached`, at the key that it has built; the default that tells a miss is no value at all
  unfoldable pub cached : String → Option ℤ → Callback → Action (Option Value)
  unfolding unwrap cached_computed
  cached key ttl fn r =
      let raw = c.get key r.store in
      if is_there raw
      then (some (unwrap raw), note r (cache_hit key (unwrap raw)))
      else cached_computed key ttl (fn (note r (cache_missed key)))
