-- ===== src/Http/RateLimiter/Tests.antt =====
-- The rate limiter over the dictionary client.
use arvel.Common.{ℕ, ◌≡◌, refl, some, [], ◌∷◌, List, arith, String}
use arvel.Common.Int.{pos, ◌+ℤ◌}
use arvel.Common.Assoc.{lookup, insert}
use arvel.Cache.Value.{int, none_}
use arvel.Cache.Client.Memory.{memory, blank}
use arvel.Cache.Repository.{Repo}
use arvel.Http.RateLimiter.{per_minute, by, limiter, for_, hit, available_in}
use arvel.Http.RateLimiter.Window.{
  Move, tries, waits, run, unlogged, attempts_once, attempts_in_window,
}

abbrev fresh : Repo memory
fresh = record { store = blank; events = []; tasks = [] }

abbrev moves : List Move
moves = tries none_ ∷ waits 20 ∷ tries (int (pos 4)) ∷ tries none_ ∷ waits 30 ∷ tries none_ ∷ []

attempts_in_window_example :
    (run memory (attempts_once memory "login:ada" 3 60) moves (unlogged memory fresh)).rest
    ≡ none_ ∷ int (pos 4) ∷ none_ ∷ []
attempts_in_window_example =
    attempts_in_window memory "login:ada" 3 60 moves fresh (omega arith) refl

armed : (available_in memory "k" (hit memory "k" (pos 60) fresh).1).0 ≡ pos 60
unfolding available_in hit ◌+ℤ◌
armed = refl

limits : (by "user:1" (per_minute {Builder = String} (pos 5))).decay_seconds ≡ pos 60
unfolding by per_minute
limits = refl

registry : limiter {Resolver = ℕ} "api" (for_ "api" 7 []) ≡ some 7
unfolding limiter for_ lookup insert
registry = refl
