-- ===== src/Queue/Middleware/Tests.antt =====
-- src/arvel/queue/middleware.py over a concrete lock table and the dictionary client.
use arvel.Common.{String, ◌≡◌, refl, true, false, none, some, List, [], ◌∷◌, arith, if◌then◌else◌}
use arvel.Common.Int.{ℤ, pos, ◌+ℤ◌}
use arvel.Common.Assoc.{lookup, insert, erase}
use arvel.Cache.Value.{Value, none_, flag, int, text, tuple}
use arvel.Cache.Client.Memory.{memory, blank}
use arvel.Cache.Repository.{Repo}
use arvel.Cache.Locks.{LockStore, try_acquire, release, force_release}
use arvel.Cache.Locks.Spec.{entry, holder, owned_by}
use arvel.Cache.Locks.Exclusion.{Call, acquires, releases, run}
use arvel.Http.RateLimiter.Window.{Move, tries, waits}
use arvel.Queue.Middleware.{
  Outcome, returned, failed, released, stopped, WithoutOverlapping, overlap_name,
  without_overlapping, Unique, unique_name, take_unique, give_unique,
}
use arvel.Queue.Middleware.Overlap.{asked, without_overlapping_lem, no_overlap}
use arvel.Http.RateLimiter.Window.{run as run_moves, unlogged}
use arvel.Queue.Middleware.Race.{at_once, at_once_lem}
use arvel.Queue.Middleware.Window.{limited_once, throttled_once, jobs_in_window}

abbrev import : WithoutOverlapping
import = record { key = "import"; expire = pos 60; release_after = pos 5 }

abbrev idle : LockStore
idle = ("mail", entry "w2" none) ∷ []

-- the job raises
abbrev raising : LockStore → Outcome × LockStore
raising locks = (failed "OSError", locks)

import_name : overlap_name import ≡ "job_overlap:import"
unfolding overlap_name
import_name = refl

without_overlapping_lem_example :
    let (got, locks') = asked import (pos 0) "w1" idle in
    let (outcome, locks'') = without_overlapping import (pos 0) (pos 9) "w1" raising idle in
    (outcome ≡ (if got then (raising locks').0 else released (pos 5)))
    × (locks'' ≡ (
        if got then (release (pos 9) (overlap_name import) "w1" (raising locks').1).1 else locks'))
    × ((if got then owned_by (holder (pos 9) locks'' (overlap_name import)) "w1" else false)
        ≡ false)
without_overlapping_lem_example = without_overlapping_lem import (pos 0) "w1" idle (pos 9) raising

abbrev meanwhile : List (ℤ × Call)
meanwhile = (pos 1, acquires "job_overlap:import" "w3" none) ∷ (pos 2, releases "mail" "w2") ∷ []

no_overlap_example :
    let locks' = (run (overlap_name import) meanwhile (asked import (pos 0) "w1" idle).1).1 in
    without_overlapping import (pos 3) (pos 4) "w2" raising locks'
    ≡ (released (pos 5), (try_acquire (pos 3) (overlap_name import) "w2" (some (pos 60)) locks').1)
unfolding overlap_name try_acquire lookup ◌+ℤ◌
no_overlap_example =
    no_overlap import (pos 0) "w1" idle meanwhile (pos 3) (pos 4) "w2" raising refl
      (refl, refl, (refl, refl, tt)) refl

abbrev sync : Unique
sync = record { class_name = "app.jobs:Sync"; unique_id = "7"; unique_for = pos 3600 }

unique_twice :
    let locks = (take_unique (pos 0) "a" sync []).1 in
    (take_unique (pos 9) "b" sync locks).0 ≡ false
unfolding take_unique try_acquire lookup insert unique_name ◌+ℤ◌
unique_twice = refl

unique_after :
    let locks = give_unique sync (take_unique (pos 0) "a" sync []).1 in
    (take_unique (pos 9) "b" sync locks).0 ≡ true
unfolding take_unique try_acquire give_unique lookup force_release erase insert unique_name
unique_after = refl

abbrev fresh : Repo memory
fresh = record { store = blank; events = []; tasks = [] }

abbrev moves : List Move
moves = tries none_ ∷ waits 20 ∷ tries (int (pos 4)) ∷ tries none_ ∷ waits 30 ∷ tries none_ ∷ []

abbrev outcome : Value → Outcome
outcome none_ = released (pos 5)
outcome (flag b) = returned "done"
outcome (int i) = failed "OSError"
outcome (text t) = returned t
outcome (tuple vs) = stopped "CancelledError"

abbrev error : Value → String
error none_ = "OSError"
error (flag b) = "ValueError"
error (int i) = "OSError"
error (text t) = t
error (tuple vs) = "ValueError"

jobs_in_window_example :
    ((run_moves memory
        (limited_once memory "api" 3 60 outcome error)
        moves
        (unlogged memory fresh)).rest
      ≡ none_ ∷ int (pos 4) ∷ none_ ∷ [])
    × ((run_moves memory
          (throttled_once memory "api" 3 60 outcome error)
          moves
          (unlogged memory fresh)).rest
        ≡ none_ ∷ int (pos 4) ∷ none_ ∷ [])
jobs_in_window_example =
    jobs_in_window memory "api" 3 60 outcome error moves fresh (omega arith) refl

at_once_lem_example :
    (at_once memory "api" 1 60 error (none_ ∷ int (pos 4) ∷ []) (unlogged memory fresh)).1.rest
    ≡ none_ ∷ int (pos 4) ∷ []
at_once_lem_example =
    at_once_lem memory "api" 1 60 error (none_ ∷ int (pos 4) ∷ []) 0 60 (unlogged memory fresh)
      (omega arith) refl
