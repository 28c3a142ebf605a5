-- ===== src/Auth/Throttle.antt =====
-- src/arvel/auth/throttle.py: `LoginRateLimiter`, over the cache repository. Each cache call is told whether it
-- is up: one that is down raises before it has done anything. `strip().casefold()`, which needs the
-- tables of Unicode, is an argument; the settings are read from the configuration already.
pub mod Lockout
pub mod Collide
mod Tests
use Prim.Native.String.{◌++◌ as ◌+++◌}
use arvel.Common.{String, Bool, true, false, not, ◌&&◌, Option, none, some, if◌then◌else◌}
use arvel.Common.Int.{ℤ, pos, ◌+ℤ◌, ◌-ℤ◌, leb_ℤ, ltb_ℤ, int_eq}
use arvel.Cache.Value.{Value, none_, flag, int, text}
use arvel.Cache.Client.{Client}
use arvel.Cache.Repository.{Repo, Action, get, put, forget, increment, expire}

pub record LoginRateLimiter : Type 0 where
  pub max_attempts : ℤ
  pub decay_seconds : ℤ
  pub prefix : String
  pub fail_open : Bool

-- which of the three calls of `record_failure` are up
pub record Up : Type 0 where
  pub increments : Bool
  pub expires : Bool
  pub puts : Bool

-- `int(value or 0)`; `none` where `int` raises, on what no counter holds
unfoldable pub int_or_zero : Value → Option ℤ
int_or_zero none_ = some (pos 0)
int_or_zero (flag b) = some (if b then pos 1 else pos 0)
int_or_zero (int n) = some n
int_or_zero _ = none

-- `max(0, int(until) - now) if until else 0`
unfoldable pub seconds_until : ℤ → Value → Option ℤ
unfolding int_or_zero
seconds_until now until = elim (int_or_zero until) [
  | none ↦ none
  | some t ↦
      some
        (if int_eq t (pos 0) then pos 0 else if ltb_ℤ (t -ℤ now) (pos 0) then pos 0 else t -ℤ now)
]

module _ (c : Client) (norm : String → String) where
  unfoldable pub key_of : LoginRateLimiter → String → String
  key_of l identifier = l.prefix +++ ":" +++ norm identifier

  unfoldable pub until_key : LoginRateLimiter → String → String
  until_key l identifier = l.prefix +++ ":" +++ norm identifier +++ ":until"

  unfoldable pub too_many_attempts : LoginRateLimiter → Bool → String → Action c (Option Bool)
  unfolding get int_or_zero
  too_many_attempts l up identifier r =
      let (hits, r') = get c (key_of l identifier) (int (pos 0)) r in
      if up
      then (elim (int_or_zero hits) [ none ↦ none | some n ↦ some (leb_ℤ l.max_attempts n) ], r')
      else (some (not l.fail_open), r)

  -- the count, and whether the lockout is logged
  unfoldable pub record_failure : LoginRateLimiter → Up → ℤ → String → Action c (ℤ × Bool)
  unfolding increment expire put
  record_failure l up now identifier r =
      let (count, r1) = increment c (key_of l identifier) (pos 1) r in
      let r2 = (expire c (key_of l identifier) l.decay_seconds r1).1 in
      let r3 =
        (put c (until_key l identifier) (int (now +ℤ l.decay_seconds)) (some l.decay_seconds)
          r2).1 in
      if not up.increments
      then ((pos 0, false), r)
      else if not up.expires
      then ((pos 0, false), r1)
      else if not up.puts
      then ((pos 0, false), r2)
      else ((count, int_eq count l.max_attempts), r3)

  -- whether the two calls are up; an error of the first one skips the second
  unfoldable pub clear : LoginRateLimiter → Bool → Bool → String → Repo c → Repo c
  unfolding forget
  clear l up up' identifier r =
      let r' = (forget c (key_of l identifier) r).1 in
      if not up then r else if up' then (forget c (until_key l identifier) r').1 else r'

  unfoldable pub available_in : LoginRateLimiter → Bool → ℤ → String → Action c (Option ℤ)
  unfolding get seconds_until
  available_in l up now identifier r =
      let (until, r') = get c (until_key l identifier) none_ r in
      if up then (seconds_until now until, r') else (some (pos 0), r)
