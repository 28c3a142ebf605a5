-- ===== src/Queue/Worker/Settled.antt =====
-- src/arvel/queue/worker.py: how often a job is called, and how its run ends.
use Prim.Native.Nat.{min, max}
use arvel.Common.{
  ℕ, suc, ◌<◌, ◌≤◌, ◌≡◌, refl, true, none, some, List, [], ◌∷◌, arith, Bool-cases, inl, inr,
}
use arvel.Common.Int.{ℤ, pos_part}
use arvel.Queue.Worker.{
  Job, Called, returned, timed_out, raised, interrupted, Hooks, Happened, called, waited, released,
  failed_hook, recorded, exhausted, succeeded, End, interruption, tries_of, retry_should_stop,
  give_up, succeed, Attempt, ends, failed_attempt, settle,
}

abbrev pub Ends : Attempt × List Happened → Type 0
Ends r = (end : End) × (log : List Happened) × (r ≡ (ends end, log))

-- Where the policy stops, an attempt ends the run.
module _ (hooks : Hooks) (later : ℤ → ℕ → Happened) (job : Job) where
  failed_attempt-Ends :
      (now : ℤ) (n : ℕ)
      → retry_should_stop job now n ≡ true
      → Ends (failed_attempt hooks later job now n)
  unfolding failed_attempt
  failed_attempt-Ends now n h = rw (h) ((give_up hooks).0, (give_up hooks).1, refl)

  pub settle-Ends :
      (now : ℤ) (n : ℕ) (o : Called)
      → retry_should_stop job now n ≡ true
      → Ends (settle hooks later job now n o)
  unfolding settle
  settle-Ends now n (returned v) h = ((succeed hooks v).0, (succeed hooks v).1, refl)
  settle-Ends now n timed_out h = elim (Bool-cases job.fail_on_timeout) [
    | inl e ↦ simp (e) ((give_up hooks).0, (give_up hooks).1, refl)
    | inr e ↦ simp (e) (failed_attempt-Ends now n h)
  ]
  settle-Ends now n (raised e) h = failed_attempt-Ends now n h
  settle-Ends now n (interrupted e) h = (interruption e, [], refl)

pub tries_positive : (job : Job) → 0 < tries_of job
unfolding tries_of
tries_positive job = ground arith

pub stops : (job : Job) (now : ℤ) (n : ℕ) → tries_of job ≤ n → retry_should_stop job now n ≡ true
unfolding retry_should_stop
stops job now n h = ground (arith, h)

-- how many calls a job gets at most: its tries, and no more than its exceptions, but one
abbrev pub cap : Job → ℕ
cap job = elim job.max_exceptions [
  | none ↦ tries_of job
  | some m ↦ min (tries_of job) (max 1 (pos_part m))
]

pub stops_at_cap : (job : Job) (now : ℤ) (n : ℕ) → cap job ≤ n → retry_should_stop job now n ≡ true
unfolding retry_should_stop
stops_at_cap job now n h = ground (arith, h)

abbrev pub calls : List Happened → ℕ
calls [] = 0
calls (called n ∷ log) = suc (calls log)
calls (waited d ∷ log) = calls log
calls (released d n ∷ log) = calls log
calls (failed_hook ∷ log) = calls log
calls (recorded ∷ log) = calls log
calls (exhausted ∷ log) = calls log
calls (succeeded ∷ log) = calls log

-- how often `on_success` and `on_exhausted` are called, and the failure is recorded
abbrev pub successes : List Happened → ℕ
successes [] = 0
successes (succeeded ∷ log) = suc (successes log)
successes (_ ∷ log) = successes log

abbrev pub exhaustions : List Happened → ℕ
exhaustions [] = 0
exhaustions (exhausted ∷ log) = suc (exhaustions log)
exhaustions (_ ∷ log) = exhaustions log

abbrev pub recordings : List Happened → ℕ
recordings [] = 0
recordings (recorded ∷ log) = suc (recordings log)
recordings (_ ∷ log) = recordings log
