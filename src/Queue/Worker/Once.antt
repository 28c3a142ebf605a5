-- ===== src/Queue/Worker/Once.antt =====
-- src/arvel/queue/worker.py: how a run ends, and which hooks hear of it.
use mathlib.Core.Path.{subst}
use arvel.Common.{
  ℕ, zero, suc, ◌+◌, ◌-◌, ◌≤◌, ◌≡◌, ◌≢◌, ap, ◌∙◌, refl, none, List, [], ◌∷◌, ◌++◌, arith,
  Bool-cases, Option-cases, ◌⊎◌, inl, inr,
}
use Prim.Native.Nat.{min}
use arvel.Common.Int.{ℤ}
use arvel.Common.Lists.{length, get_elem?}
use arvel.Queue.Worker.{
  Job, Backoff, flat, each, Called, returned, timed_out, raised, interrupted, Hooks, Happened,
  called, waited, released, failed_hook, recorded, exhausted, succeeded, End, value, nothing, error,
  interruption, tries_of, backoff_for, retry_should_stop, hooks_in_turn, give_up, succeed, Attempt,
  ends, backs_off, ended, back_off, failed_attempt, settle, attempt_with, wait, go_on, inline_loop,
  run_inline,
}
use arvel.Queue.Worker.Settled.{
  Ends, settle-Ends, stops, tries_positive, successes, exhaustions, recordings,
}

-- how often `on_success` was called, the failure recorded, and `on_exhausted` called
abbrev pub Heard : List Happened → ℕ → ℕ → ℕ → Type 0
Heard log s r e = (successes log ≡ s) × (recordings log ≡ r) × (exhaustions log ≡ e)

Heard-append :
    (l l' : List Happened) (s r e : ℕ) → Heard l 0 0 0 → Heard l' s r e → Heard (l ++ l') s r e
Heard-append [] l' s r e h k = k
Heard-append (called n ∷ l) l' s r e h k = Heard-append l l' s r e h k
Heard-append (waited d ∷ l) l' s r e h k = Heard-append l l' s r e h k
Heard-append (released d n ∷ l) l' s r e h k = Heard-append l l' s r e h k
Heard-append (failed_hook ∷ l) l' s r e h k = Heard-append l l' s r e h k
Heard-append (recorded ∷ l) l' s r e h k = ground (arith, h)
Heard-append (exhausted ∷ l) l' s r e h k = ground (arith, h)
Heard-append (succeeded ∷ l) l' s r e h k = ground (arith, h)

-- A job that ends with a value has been heard of once as a success, one that ends with `None` once as a
-- failure, and one that is interrupted, or whose backoff is an empty list, as neither.
abbrev pub Settled : Backoff → End → List Happened → Type 0
Settled b (value v) log = Heard log 1 0 0
Settled b nothing log = Heard log 0 1 1
Settled b (interruption e) log = Heard log 0 0 0
Settled b (error e) log = Heard log 0 0 0 × (b ≡ each [])

abbrev SettledAttempt : Backoff → Attempt × List Happened → Type 0
SettledAttempt b (ends end, log) = Settled b end log
SettledAttempt b (backs_off, log) = Heard log 0 0 0

some_in_range : (d : ℤ) (ds : List ℤ) (i : ℕ) → i ≤ length ds → get_elem? (d ∷ ds) i ≢ none
some_in_range d ds zero h e = cc
some_in_range d [] (suc i) h e = omega (arith, h)
some_in_range d (d' ∷ ds) (suc i) h e = some_in_range d' ds i (omega (arith, h)) e

length_pred : (ds : List ℤ) → length ds ≡ suc (length ds) - 1
length_pred ds = omega arith

no_backoff : (b : Backoff) (n : ℕ) → backoff_for b n ≡ none → b ≡ each []
unfolding backoff_for
no_backoff (flat d) n h = cc
no_backoff (each []) n h = refl
no_backoff (each (d ∷ ds)) n h =
    elim (some_in_range d ds (min (n - 1) (length ds)) (omega arith)
      (ap (λ k. get_elem? (d ∷ ds) (min (n - 1) k)) (length_pred ds) ∙ h)) [ ]

back_off-Settled : (b : Backoff) (n : ℕ) → SettledAttempt b (back_off wait (backoff_for b n) n)
unfolding back_off
back_off-Settled b n = elim (Option-cases (backoff_for b n)) [
  | inl e ↦ rw (e) ((refl, refl, refl), no_backoff b n e)
  | inr (d, e) ↦ rw (e) (refl, refl, refl)
]

-- the hooks raise nothing
pub record Quiet (hooks : Hooks) : Type 0 where
  pub failed_quiet : hooks.failed ≡ none
  pub recording_quiet : hooks.recording ≡ none
  pub exhausted_quiet : hooks.exhausted ≡ none
  pub success_quiet : hooks.success ≡ none

module _ (hooks : Hooks) (quiet : Quiet hooks) (job : Job) where
  give_up-Settled : SettledAttempt job.backoff (ended (give_up hooks))
  unfolding give_up hooks_in_turn
  give_up-Settled =
      rw (quiet.failed_quiet, quiet.recording_quiet, quiet.exhausted_quiet) (refl, refl, refl)

  failed_attempt-Settled :
      (now : ℤ) (n : ℕ) → SettledAttempt job.backoff (failed_attempt hooks wait job now n)
  unfolding failed_attempt
  failed_attempt-Settled now n = elim (Bool-cases (retry_should_stop job now n)) [
    | inl e ↦ rw (e) give_up-Settled
    | inr e ↦ rw (e) (back_off-Settled job.backoff n)
  ]

  settle-Settled :
      (now : ℤ) (n : ℕ) (o : Called) → SettledAttempt job.backoff (settle hooks wait job now n o)
  unfolding settle succeed
  settle-Settled now n (returned v) = rw (quiet.success_quiet) (refl, refl, refl)
  settle-Settled now n timed_out = elim (Bool-cases job.fail_on_timeout) [
    | inl e ↦ simp (e) give_up-Settled
    | inr e ↦ simp (e) (failed_attempt-Settled now n)
  ]
  settle-Settled now n (raised e) = failed_attempt-Settled now n
  settle-Settled now n (interrupted e) = (refl, refl, refl)

  called-Settled :
      (end : End) (n : ℕ) (log : List Happened)
      → Settled job.backoff end log
      → Settled job.backoff end (called n ∷ log)
  called-Settled (value v) n log h = h
  called-Settled nothing n log h = h
  called-Settled (error e) n log h = h
  called-Settled (interruption e) n log h = h

  after-Settled :
      (end : End) (l l' : List Happened)
      → Heard l 0 0 0
      → Settled job.backoff end l'
      → Settled job.backoff end (l ++ l')
  after-Settled (value v) l l' h k = Heard-append l l' 1 0 0 h k
  after-Settled nothing l l' h k = Heard-append l l' 0 1 1 h k
  after-Settled (error e) l l' h (k, b) = (Heard-append l l' 0 0 0 h k, b)
  after-Settled (interruption e) l l' h k = Heard-append l l' 0 0 0 h k

  go_on-Settled :
      (n : ℕ) (r : Attempt × List Happened) (rest : End × List Happened)
      → SettledAttempt job.backoff r
      → Ends r ⊎ Settled job.backoff rest.0 rest.1
      → let (end, log) = go_on (r.0, called n ∷ r.1) rest in Settled job.backoff end log
  go_on-Settled n (ends end, log) rest h k = called-Settled end n log h
  go_on-Settled n (backs_off, log) rest h (inl (end, log', e)) = ground (arith, e)
  go_on-Settled n (backs_off, log) rest h (inr k) =
      called-Settled rest.0 n (log ++ rest.1) (after-Settled rest.0 log rest.1 h k)

  module _ (outcome : ℕ → Called) (clock : ℕ → ℤ) where
    loop-Settled :
        (left n : ℕ)
        → n + left ≡ tries_of job
        → let (end, log) = inline_loop hooks job outcome clock (suc left) n in
          Settled job.backoff end log
    unfolding inline_loop attempt_with
    loop-Settled zero n h =
        go_on-Settled n (settle hooks wait job (clock n) n (outcome n)) _
          (settle-Settled (clock n) n (outcome n))
          (inl (
            settle-Ends hooks wait job (clock n) n (outcome n)
              (stops job (clock n) n (omega (arith, h)))))
    loop-Settled (suc left) n h =
        go_on-Settled n (settle hooks wait job (clock n) n (outcome n)) _
          (settle-Settled (clock n) n (outcome n))
          (inr (loop-Settled left (suc n) (omega (arith, h))))

    -- Where no hook raises, a job that is retried in place ends in one of four ways: with a value, and the
    -- hook for success has been called once and no other; with `None`, and its failure has been
    -- recorded once and the hook for exhausted tries called once, and no other; interrupted, and no hook
    -- has been called; or with the error of an empty list of backoffs, and no hook has been called.
    pub ends_once :
        let (end, log) = run_inline hooks job outcome clock in Settled job.backoff end log
    unfolding run_inline
    ends_once =
        let left = tries_of job - 1 in
        let same : suc left ≡ tries_of job = omega (arith, tries_positive job) in
        subst (λ t. let r = inline_loop hooks job outcome clock t 1 in Settled job.backoff r.0 r.1)
          same (loop-Settled left 1 (omega (arith, same)))
