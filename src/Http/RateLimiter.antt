-- ===== src/Http/RateLimiter.antt =====
-- src/arvel/http/rate_limiter.py: limits, and the counting verbs over the cache.
pub mod Counter
pub mod Window
mod Tests
use arvel.Common.{ℕ, String, Bool, true, false, not, Option, none, some, if◌then◌else◌, ◌==◌}
use arvel.Common.Int.{ℤ, pos, ◌-ℤ◌, leb_ℤ, ltb_ℤ, int_eq}
use arvel.Common.Assoc.{Dict, lookup, insert}
use arvel.Cache.Value.{Value, none_, flag, int}
use arvel.Cache.Client.{Client}
use arvel.Cache.Repository.{Repo, Action, get, forget, increment, increment_with_ttl, expire}

pub data Period : Type 0 where
  second minute hour day : Period

-- `_SECONDS`
unfoldable pub seconds : Period → ℕ
seconds second = 1
seconds minute = 60
seconds hour = 3600
seconds day = 86400

-- `Callback` is the type of the 429 builders.
pub record Limit (Builder : Type 0) : Type 0 where
  pub max_attempts : ℤ
  pub decay_seconds : ℤ
  pub key : Option String
  pub response_callback : Option Builder

module _ {Builder : Type 0} where
  unfoldable pub limit : ℤ → ℤ → Limit Builder
  limit max_attempts decay_seconds = record {
    max_attempts = max_attempts;
    decay_seconds = decay_seconds;
    key = none;
    response_callback = none;
  }

  unfoldable pub per_second : ℤ → Limit Builder
  unfolding limit seconds
  per_second n = limit n (pos (seconds second))

  unfoldable pub per_minute : ℤ → Limit Builder
  unfolding limit seconds
  per_minute n = limit n (pos (seconds minute))

  unfoldable pub per_hour : ℤ → Limit Builder
  unfolding limit seconds
  per_hour n = limit n (pos (seconds hour))

  unfoldable pub per_day : ℤ → Limit Builder
  unfolding limit seconds
  per_day n = limit n (pos (seconds day))

  unfoldable pub by : String → Limit Builder → Limit Builder
  by key l = record l { key = some key }

  unfoldable pub response : Builder → Limit Builder → Limit Builder
  response callback l = record l { response_callback = some callback }

-- the registry of `RateLimiter`: `for_` and `limiter`
module _ {Resolver : Type 0} where
  unfoldable pub for_ : String → Resolver → Dict Resolver → Dict Resolver
  for_ name resolver limiters = insert name resolver limiters

  unfoldable pub limiter : String → Dict Resolver → Option Resolver
  limiter name limiters = lookup name limiters

-- `int(value)` on the values that a counter's key can hold; elsewhere it raises, or reads a text
abbrev pub int_of : Value → Option ℤ
int_of (int n) = some n
int_of (flag true) = some (pos 1)
int_of (flag false) = some (pos 0)
int_of _ = none

abbrev pub or_zero : Option ℤ → ℤ
or_zero none = pos 0
or_zero (some n) = n

module _ (c : Client) where
  -- `none` where the key holds what `int` refuses
  unfoldable pub attempts : String → Action c (Option ℤ)
  unfolding get
  attempts key r = let (v, r') = get c key (int (pos 0)) r in (int_of v, r')

  unfoldable pub hit : String → ℤ → Action c ℤ
  unfolding increment expire
  hit key decay_seconds r =
      let (count, r') = increment c key (pos 1) r in
      (count, if int_eq count (pos 1) then (expire c key decay_seconds r').1 else r')

  unfoldable pub hit_with_ttl : String → ℤ → Action c ℤ
  unfolding increment_with_ttl forget
  hit_with_ttl key decay_seconds r =
      let (count, r') = increment_with_ttl c key (pos 1) (some decay_seconds) r in
      (count, if leb_ℤ decay_seconds (pos 0) then (forget c key r').1 else r')

  unfoldable pub too_many_attempts : String → ℤ → Action c (Option Bool)
  unfolding attempts
  too_many_attempts key max_attempts r =
      let (n, r') = attempts key r in
      (elim n [ none ↦ none | some k ↦ some (leb_ℤ max_attempts k) ], r')

  -- what `attempt` makes of the callback's result: `None` counts as success
  abbrev pub success : Value → Value
  success none_ = flag true
  success v = v

  -- the cache, and whatever else a callback or a job has an effect on
  pub record Site (W : Type 0) : Type 0 where
    pub cache : Repo c
    pub rest : W

  module _ {W : Type 0} where
    unfoldable pub attempt_ran : String → ℤ → Option Value × Site W → Option Value × Site W
    attempt_ran key decay_seconds (none, s) = (none, s)
    attempt_ran key decay_seconds (some v, s) =
        (some (success v), record s { cache = (hit key decay_seconds s.cache).1 })

    -- `attempt`; `none` where `int` or the callback raises
    unfoldable pub attempt :
        String → ℤ → (Site W → Option Value × Site W) → ℤ → Site W → Option Value × Site W
    unfolding attempt_ran
    attempt key max_attempts callback decay_seconds s =
        let (over, r) = too_many_attempts key max_attempts s.cache in
        let s' = record s { cache = r } in
        elim over [
          | none ↦ (none, s')
          | some true ↦ (some (flag false), s')
          | some false ↦ attempt_ran key decay_seconds (callback s')
        ]

  -- `max(a, 0)`
  abbrev pub at_least_zero : ℤ → ℤ
  at_least_zero a = if ltb_ℤ a (pos 0) then pos 0 else a

  unfoldable pub remaining : String → ℤ → Action c (Option ℤ)
  unfolding attempts
  remaining key max_attempts r =
      let (n, r') = attempts key r in
      (elim n [ none ↦ none | some k ↦ some (at_least_zero (max_attempts -ℤ k)) ], r')

  unfoldable pub available_in : String → Action c ℤ
  available_in key r = (at_least_zero (c.get_expire key r.store), r)

  unfoldable pub clear : String → Action c Bool
  unfolding forget
  clear key = forget c key
