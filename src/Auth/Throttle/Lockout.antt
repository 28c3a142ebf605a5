-- ===== src/Auth/Throttle/Lockout.antt =====
-- src/arvel/auth/throttle.py: when an identifier is locked out, and for how long.
use Prim.Native.String.{◌++◌ as ◌+++◌, [] as empty}
use arvel.Common.{ℕ, zero, suc, ◌+◌, ◌-◌, ◌<◌, String, ◌≡◌, true, Option, none, some, List, [], ◌∷◌}
use arvel.Common.Int.{pos}
use arvel.Cache.Value.{int, wrap}
use arvel.Cache.Client.{Client, Entry}
use arvel.Cache.Repository.{Repo}
use arvel.Cache.Repository.Reads.{elapse}
use arvel.Http.RateLimiter.Counter.{counter}
use arvel.Auth.Throttle.{LoginRateLimiter, Up, key_of, until_key, record_failure}

-- a login fails, or time passes
pub data Move : Type 0 where
  fails : Move
  waits : ℕ → Move

abbrev pub all_up : Up
all_up = record { increments = true; expires = true; puts = true }

-- what stands at the second key, `left` seconds before the lockout ends at that time
abbrev pub until_entry : ℕ → ℕ → ℕ → Option Entry
until_entry zero left now = none
until_entry (suc n) left now =
    some (record { value = wrap (int (pos (now + left))); ttl = some (pos left) })

module _ (c : Client) (norm : String → String) (max_attempts decay : ℕ)
    (prefix identifier : String) where
  abbrev pub limiter : LoginRateLimiter
  limiter = record {
    max_attempts = pos max_attempts;
    decay_seconds = pos decay;
    prefix = prefix;
    fail_open = true;
  }

  abbrev pub counted : String
  counted = key_of c norm limiter identifier

  abbrev pub until : String
  until = until_key c norm limiter identifier

  -- `n` failures, the last of them `decay - left` seconds ago
  pub record Counts (n left now : ℕ) (r : Repo c) : Type 0 where
    pub at_count : c.look counted r.store ≡ counter n left
    pub at_until : c.look until r.store ≡ until_entry n left now

  -- the logins and the clock
  unfoldable pub run : List Move → ℕ → Repo c → ℕ × Repo c
  run [] now r = (now, r)
  run (fails ∷ ms) now r =
      run ms now (record_failure c norm limiter all_up (pos now) identifier r).1
  run (waits m ∷ ms) now r = run ms (now + m) (elapse c m r)

  -- the failures are less than `decay` seconds apart
  abbrev pub Near : ℕ → List Move → Type 0
  Near left [] = Unit
  Near left (fails ∷ ms) = Near decay ms
  Near left (waits m ∷ ms) = (m < left) × Near (left - m) ms

  -- the failures, after `n` earlier ones
  abbrev pub failures : ℕ → List Move → ℕ
  failures n [] = n
  failures n (fails ∷ ms) = failures (suc n) ms
  failures n (waits m ∷ ms) = failures n ms

  -- the seconds that are left of the time after the last failure
  abbrev pub left_after : ℕ → List Move → ℕ
  left_after left [] = left
  left_after left (fails ∷ ms) = left_after decay ms
  left_after left (waits m ∷ ms) = left_after (left - m) ms
