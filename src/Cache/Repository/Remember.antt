-- ===== src/Cache/Repository/Remember.antt =====
-- src/arvel/cache/__init__.py: `remember` and `cached`.
use arvel.Common.{
  ℕ, String, ◌≡◌, refl, Bool, true, false, Option, none, some, if◌then◌else◌, str_eq, arith, eq_iff,
  Bool-cases, inl, inr,
}
use arvel.Common.Int.{ℤ}
use arvel.Cache.Value.{Value, wrap, is_there}
use arvel.Cache.Client.{Client, value_of}
use arvel.Cache.Repository.{
  Repo, Callback, remember, remember_computed, cached, cached_computed, is_past, note, cache_hit,
  cache_missed,
}
use arvel.Cache.Repository.Reads.{shown, shown-put, elapse}

module _ (c : Client) where
  -- the callback's run after a miss
  abbrev pub missed : Repo c → String → Callback c → Option Value × Repo c
  missed r key callback = callback (note c r (cache_missed key))

  -- What a call returned and left behind, against what the callback did: the same result, and a
  -- value that was returned is what the key shows from then on, if it is to be kept at all.
  abbrev pub Computed : String → Bool → Option Value × Repo c → Option Value × Repo c → Type 0
  Computed key lost (none, r) (o, r') = (o ≡ none) × (r' ≡ r)
  Computed key lost (some v, r) (o, r') =
      (o ≡ some v)
      × ((j : String)
          → shown c r' j ≡ (if str_eq key j then (if lost then none else some v) else shown c r j))

  -- The key showed a value, which is the result, and only the event is new; or it showed none, and
  -- the callback has run once.
  abbrev pub Served :
      Option Value → String → Bool → Callback c → Repo c → Option Value × Repo c → Type 0
  Served (some v) key lost callback r (o, r') = (o ≡ some v) × (r' ≡ note c r (cache_hit key v))
  Served none key lost callback r (o, r') = Computed key lost (missed r key callback) (o, r')

  shown-set :
      (key j : String) (v : Value) (ttl : Option ℤ) (r : Repo c)
      → shown c (remember_computed c key ttl (some v, r)).1 j
        ≡ (if str_eq key j then some v else shown c r j)
  unfolding remember_computed shown
  shown-set key j v ttl r = ground (arith, c.look-set key j (wrap v) ttl r.store, eq_iff key j)

  remember_computed-Computed :
      (key : String) (ttl : Option ℤ) (done : Option Value × Repo c)
      → Computed key false done (remember_computed c key ttl done)
  unfolding remember_computed
  remember_computed-Computed key ttl (none, r) = (refl, refl)
  remember_computed-Computed key ttl (some v, r) = (refl, λ j. shown-set key j v ttl r)

  cached_computed-Computed :
      (key : String) (ttl : Option ℤ) (done : Option Value × Repo c)
      → Computed key (is_past ttl) done (cached_computed c key ttl done)
  unfolding cached_computed
  cached_computed-Computed key ttl (none, r) = (refl, refl)
  cached_computed-Computed key ttl (some v, r) = (refl, λ j. shown-put c key j v ttl r)

  -- `remember` on a key that shows a value, `None` included, returns it, changes no entry and does
  -- not run the callback. On any other key it runs the callback once: an exception passes through
  -- with nothing stored, and a value is returned and is what the key then shows.
  pub remember_lem :
      (key : String) (ttl : Option ℤ) (callback : Callback c) (r : Repo c)
      → Served (shown c r key) key false callback r (remember c key ttl callback r)
  unfolding remember shown
  remember_lem key ttl callback r =
      rw (c.get_lem key r.store) (elim (Bool-cases (is_there (value_of (c.look key r.store)))) [
        | inl hit ↦ rw hit (refl, refl)
        | inr miss ↦ rw miss (remember_computed-Computed key ttl (missed r key callback))
      ])

  -- `cached` likewise, except that with a lifetime that is not positive the key shows nothing after.
  pub cached_lem :
      (key : String) (ttl : Option ℤ) (callback : Callback c) (r : Repo c)
      → Served (shown c r key) key (is_past ttl) callback r (cached c key ttl callback r)
  unfolding cached shown
  cached_lem key ttl callback r =
      rw (c.get_lem key r.store) (elim (Bool-cases (is_there (value_of (c.look key r.store)))) [
        | inl hit ↦ rw hit (refl, refl)
        | inr miss ↦ rw miss (cached_computed-Computed key ttl (missed r key callback))
      ])

  remember_miss :
      (key : String) (ttl : Option ℤ) (callback : Callback c) (r : Repo c)
      → shown c r key ≡ none
      → remember c key ttl callback r ≡ remember_computed c key ttl (missed r key callback)
  unfolding remember shown
  remember_miss key ttl callback r free = ground (arith, c.get_lem key r.store)

  past_set_stays :
      (key : String) (ttl : Option ℤ) (v : Value) (n : ℕ) (done : Option Value × Repo c)
      → is_past ttl ≡ true
      → done.0 ≡ some v
      → shown c (elapse c n (remember_computed c key ttl done).1) key ≡ some v
  unfolding remember_computed shown
  past_set_stays key ttl v n (none, r) past e = cc
  past_set_stays key none v n (some w, r) past e = cc
  past_set_stays key (some t) v n (some w, r) past e = ground (
    arith,
    c.look-elapse n key (c.set key (wrap w) (some t) r.store),
    c.look-set key key (wrap w) (some t) r.store,
    eq_iff key key,
  )

  -- Where `put` would store nothing, since the lifetime is not positive, `remember` of a missing key
  -- stores what the callback returns for ever.
  pub remember_past_stays :
      (key : String) (ttl : Option ℤ) (callback : Callback c) (v : Value) (n : ℕ) (r : Repo c)
      → is_past ttl ≡ true
      → shown c r key ≡ none
      → (missed r key callback).0 ≡ some v
      → shown c (elapse c n (remember c key ttl callback r).1) key ≡ some v
  remember_past_stays key ttl callback v n r past free computed =
      rw (remember_miss key ttl callback r free)
        (past_set_stays key ttl v n (missed r key callback) past computed)
