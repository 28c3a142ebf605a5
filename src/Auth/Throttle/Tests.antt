-- ===== src/Auth/Throttle/Tests.antt =====
-- src/arvel/auth/throttle.py over the dictionary client; an identifier stands for itself.
use arvel.Common.{String, ◌≡◌, refl, true, false, some, List, [], ◌∷◌}
use arvel.Common.Int.{pos, ◌+ℤ◌}
use arvel.Cache.Client.Memory.{memory, blank}
use arvel.Cache.Repository.{Repo}
use arvel.Auth.Throttle.{
  LoginRateLimiter, too_many_attempts, record_failure, clear, key_of, until_key,
}
use arvel.Auth.Throttle.Lockout.{Move, fails, waits, run, limiter, all_up}
use arvel.Auth.Throttle.Collide.{until_locks_out}

abbrev fresh : Repo memory
fresh = record { store = blank; events = []; tasks = [] }

abbrev as_is : String → String
as_is s = s

abbrev ada : LoginRateLimiter
ada = limiter memory as_is 2 900 "login" "ada@x"

-- two failures, five minutes apart, and a minute after them
abbrev logins : List Move
logins = fails ∷ waits 300 ∷ fails ∷ waits 60 ∷ []

until_locks_out_example :
    (too_many_attempts memory as_is ada true "ada@x:until"
      (record_failure memory as_is ada all_up (pos 1000) "ada@x" fresh).1).0
    ≡ some true
unfolding ◌+ℤ◌
until_locks_out_example =
    until_locks_out memory as_is ada "ada@x" "ada@x:until" (pos 1000) fresh refl refl refl

cleared :
    let r = (run memory as_is 2 900 "login" "ada@x" logins 1000 fresh).1 in
    (too_many_attempts memory as_is ada true "ada@x" (clear memory as_is ada true true "ada@x" r)).0
    ≡ some false
unfolding too_many_attempts clear until_key key_of
cleared = refl
