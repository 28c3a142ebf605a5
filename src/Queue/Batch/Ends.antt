-- ===== src/Queue/Batch/Ends.antt =====
-- src/arvel/queue/batch.py: the steps that a process has left.
use arvel.Common.{
  ℕ, zero, suc, ◌+◌, ◌≤◌, ◌<◌, String, ◌≡◌, refl, Bool, true, false, [], ◌∷◌, arith, Bool-cases,
  inl, inr,
}
use arvel.Common.Lists.{length}
use arvel.Queue.Batch.{
  Options, World, Pc, settle, count, reread, cancelling, catching, closing, checking, closing_empty,
  finding, thenning, finallying, returned, raised,
}
use arvel.Queue.Batch.Run.{step}
use arvel.Queue.Batch.Complete.{has_ended}

-- How many steps a process has left at most.
abbrev pub steps_left : Options → Pc → ℕ
steps_left o (settle _) = 9 + length o.finally_refs + length o.then_refs + length o.catch_refs
steps_left o (count _) = 8 + length o.finally_refs + length o.then_refs + length o.catch_refs
steps_left o (reread _) = 7 + length o.finally_refs + length o.then_refs + length o.catch_refs
steps_left o (cancelling _) = 6 + length o.finally_refs + length o.then_refs + length o.catch_refs
steps_left o (catching _ rs) = 5 + length o.finally_refs + length o.then_refs + length rs
steps_left o (closing _) = 4 + length o.finally_refs + length o.then_refs
steps_left o closing_empty = 4 + length o.finally_refs + length o.then_refs
steps_left o checking = 3 + length o.finally_refs + length o.then_refs
steps_left o finding = 3 + length o.finally_refs + length o.then_refs
steps_left o (thenning rs) = 2 + length o.finally_refs + length rs
steps_left o (finallying rs) = 1 + length rs
steps_left o returned = 0
steps_left o raised = 0

module _ (raises : String → Bool) (o : Options) where
  step_decreases :
      (now : ℕ) (pc : Pc) (w : World)
      → has_ended pc ≡ false
      → steps_left o (step raises o now pc w).1 < steps_left o pc
  unfolding step
  step_decreases now (catching left []) w h = ground arith
  step_decreases now (catching left (r ∷ rs)) w h = ground arith
  step_decreases now (thenning []) w h = ground arith
  step_decreases now (thenning (r ∷ rs)) w h = ground arith
  step_decreases now (finallying []) w h = ground arith
  step_decreases now (finallying (r ∷ rs)) w h = ground arith
  step_decreases now _ w h = ground arith

  -- `k` steps of one process, each against whatever world and clock the others have left it.
  pub run_against : (ℕ → World) → (ℕ → ℕ) → ℕ → Pc → Pc
  run_against worlds clock zero pc = pc
  run_against worlds clock (suc k) pc =
      run_against worlds clock k (step raises o (clock k) pc (worlds k)).1

  ended_stays :
      (now : ℕ) (pc : Pc) (w : World)
      → has_ended pc ≡ true
      → has_ended (step raises o now pc w).1 ≡ true
  unfolding step
  ended_stays now returned w h = refl
  ended_stays now raised w h = refl
  ended_stays now _ w h = cc

  -- Whatever the others do to the world between its steps, a process that has at most `k` steps left
  -- has ended after `k` steps of its own; from the start of `apply_job_outcome` that is nine steps
  -- and one for each callback.
  pub ends_in_time :
      (worlds : ℕ → World) (clock : ℕ → ℕ) (k : ℕ) (pc : Pc)
      → steps_left o pc ≤ k
      → has_ended (run_against worlds clock k pc) ≡ true
  unfolding run_against
  ends_in_time worlds clock zero pc h = elim (Bool-cases (has_ended pc)) [
    | inl yes_ended ↦ yes_ended
    | inr going ↦ absurd (omega (arith, step_decreases (clock 0) pc (worlds 0) going))
  ]
  ends_in_time worlds clock (suc k) pc h =
      ends_in_time worlds clock k (step raises o (clock k) pc (worlds k)).1
        (elim (Bool-cases (has_ended pc)) [
          | inl yes_ended ↦ omega (
            arith,
            ended_none_left pc yes_ended,
            ended_none_left (step raises o (clock k) pc (worlds k)).1
                (ended_stays (clock k) pc (worlds k) yes_ended),
          )
          | inr going ↦ omega (arith, step_decreases (clock k) pc (worlds k) going)
        ])
    where
      ended_none_left : (q : Pc) → has_ended q ≡ true → steps_left o q ≡ 0
      ended_none_left returned e = refl
      ended_none_left raised e = refl
      ended_none_left _ e = cc
