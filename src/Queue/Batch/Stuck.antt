-- ===== src/Queue/Batch/Stuck.antt =====
-- src/arvel/queue/batch.py: what a `catch` callback that raises does to its batch.
use arvel.Common.{ℕ, String, ◌≡◌, Bool, true, false, List, [], ◌∷◌, arith}
use arvel.Common.Int.{pos, ◌-ℤ◌}
use arvel.Queue.Batch.{Options}
use arvel.Queue.Batch.Run.{System, Reach, runs, here, next, start, advance, step}
use arvel.Queue.Batch.Owner.{is_finished}
use arvel.Queue.Batch.Complete.{has_ended}
use arvel.Queue.Batch.Count.{pending}

module _ (raises : String → Bool) (r : String) (rs thens finallys : List String)
    (bad : raises r ≡ true) where
  abbrev pub strict : Options
  strict = record {
    allow_failures = false;
    then_refs = thens;
    catch_refs = r ∷ rs;
    finally_refs = finallys;
  }

  abbrev settles : System → System
  settles = advance raises strict 0 0

  abbrev last_state : System
  last_state = settles (settles (settles (settles (settles (start 1 (λ _. true))))))

  abbrev pub IsStuck : System → Type 0
  IsStuck s =
      ((i : ℕ) → has_ended (s.procs i) ≡ true)
      × (pending s.world ≡ pos 0)
      × (is_finished s.world ≡ false)
      × (s.world.finalled ≡ [])

  reached : Reach raises strict (start 1 (λ _. true)) last_state
  reached =
      next (next (next (next (next here (runs 0 0)) (runs 0 0)) (runs 0 0)) (runs 0 0)) (runs 0 0)

  -- Where the first `catch` callback raises and failures are not allowed, a batch of one job that
  -- fails can reach a state in which every process has ended and no job is pending, while the batch
  -- is not finished and no `finally` callback has run.
  pub raising_catch_blocks_finish :
      (s : System) × Reach raises strict (start 1 (λ _. true)) s × IsStuck s
  unfolding start advance step ◌-ℤ◌
  raising_catch_blocks_finish =
      (last_state, reached, ((λ i. ground arith), ground arith, ground arith, ground arith))
