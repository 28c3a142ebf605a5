-- ===== src/Queue/Batch/Tests.antt =====
-- Runs of a batch of two jobs, of which the second fails, and the theorems at these runs.
use arvel.Common.{ℕ, String, ◌≡◌, refl, Bool, true, false, List, [], ◌∷◌, arith, ◌==◌, str_eq, some}
use arvel.Common.Int.{pos, ◌-ℤ◌}
use arvel.Queue.Batch.{
  Options, World, counts, is_batch_cancelled, record_job_outcome, cancel_batch_once,
}
use arvel.Queue.Batch.Run.{System, Reach, runs, here, next, start, advance, step, created}
use arvel.Queue.Batch.Owner.{is_finished, is_cancelled, Begins, InOrder, ThenSettled}
use arvel.Queue.Batch.Once.{callbacks_once}
use arvel.Queue.Batch.Catch.{catch_once}
use arvel.Queue.Batch.Complete.{has_ended, batch_completes}
use arvel.Queue.Batch.Stuck.{raising_catch_blocks_finish, IsStuck, strict}

abbrev quiet : String → Bool
quiet r = false

abbrev options : Options
options = record {
  allow_failures = false;
  then_refs = "app:done" ∷ [];
  catch_refs = "app:alert" ∷ "app:log" ∷ [];
  finally_refs = "app:sweep" ∷ [];
}

abbrev second_fails : ℕ → Bool
second_fails i = i == 1

abbrev scheduled : List ℕ → System → System
scheduled [] s = s
scheduled (i ∷ is) s = scheduled is (advance quiet options 7 i s)

scheduled-Reach :
    (is : List ℕ) (s t : System) → Reach quiet options s t → Reach quiet options s (scheduled is t)
scheduled-Reach [] s t r = r
scheduled-Reach (i ∷ is) s t r =
    scheduled-Reach is s (advance quiet options 7 i t) (next r (runs 7 i))

-- The two processes take turns; both find the batch settled, and one of them wins.
abbrev turns : List ℕ
turns = 0 ∷ 1 ∷ 0 ∷ 1 ∷ 1 ∷ 0 ∷ 1 ∷ 0 ∷ 1 ∷ 1 ∷ 0 ∷ 1 ∷ 1 ∷ 0 ∷ 0 ∷ 0 ∷ []

abbrev last_state : System
last_state = scheduled turns (start 2 second_fails)

reached : Reach quiet options (start 2 second_fails) last_state
reached = scheduled-Reach turns (start 2 second_fails) (start 2 second_fails) here

all_ended : (i : ℕ) → has_ended (last_state.procs i) ≡ true
unfolding start advance step ◌-ℤ◌
all_ended i = ground arith

what_ran :
    (last_state.world.caught ≡ "app:alert" ∷ "app:log" ∷ [])
    × (last_state.world.thened ≡ [])
    × (last_state.world.finalled ≡ "app:sweep" ∷ [])
unfolding start advance step ◌-ℤ◌
what_ran = (refl, refl, refl)

callbacks_once_example : InOrder options last_state.world
callbacks_once_example = callbacks_once quiet options 2 second_fails reached

catch_once_example :
    Begins last_state.world.caught options.catch_refs
    × (is_cancelled last_state.world ≡ false → last_state.world.caught ≡ [])
catch_once_example = catch_once quiet options 2 second_fails reached

batch_completes_example :
    (is_finished last_state.world ≡ true)
    × (last_state.world.finalled ≡ options.finally_refs)
    × ThenSettled options last_state.world
batch_completes_example = batch_completes quiet options 2 second_fails (λ r. refl) reached all_ended

abbrev elsewhere : ℕ → World
elsewhere k = last_state.world

abbrev ticking : ℕ → ℕ
ticking k = k

raising_catch_blocks_finish_example :
    (s : System) × Reach
      (λ r. str_eq r "app:alert")
      (strict (λ r. str_eq r "app:alert") "app:alert" [] [] ("app:sweep" ∷ []) refl)
      (start 1 (λ _. true))
      s
    × IsStuck (λ r. str_eq r "app:alert") "app:alert" [] [] ("app:sweep" ∷ []) refl s
raising_catch_blocks_finish_example =
    raising_catch_blocks_finish (λ r. str_eq r "app:alert") "app:alert" [] [] ("app:sweep" ∷ [])
      refl

counts_example : (counts (record_job_outcome true (created 3))).processed ≡ pos 1
unfolding counts record_job_outcome ◌-ℤ◌
counts_example = refl

cancelled_example : is_batch_cancelled (some (cancel_batch_once 9 (created 3)).0) ≡ true
unfolding is_batch_cancelled cancel_batch_once
cancelled_example = refl
