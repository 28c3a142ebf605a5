-- ===== src/Queue/Worker.antt =====
-- src/arvel/queue/worker.py: `run_job_with_retries`, the policy under which a worker runs one job. A job
-- is what each of its attempts comes to; a sleep and a release only take time.
pub mod Settled
pub mod Agree
pub mod Calls
pub mod Once
pub mod Hook
mod Tests
use arvel.Common.{
  ℕ, zero, suc, ◌+◌, ◌-◌, String, Bool, true, false, Option, none, some, List, [], ◌∷◌, ◌++◌, leb,
  if◌then◌else◌,
}
use Prim.Native.Nat.{min}
use arvel.Common.Int.{ℤ, pos, negsuc, leb_ℤ}
use arvel.Common.Lists.{length, get_elem?}

pub data Backoff : Type 0 where
  flat : ℤ → Backoff
  each : List ℤ → Backoff

-- what the policy reads of a job; `attempts` is `__arvel_attempts__`
pub record Job : Type 0 where
  pub tries : ℤ
  pub backoff : Backoff
  pub fail_on_timeout : Bool
  pub max_exceptions : Option ℤ
  pub retry_until : Option ℤ
  pub attempts : ℕ

-- what an attempt comes to: a result, a `TimeoutError`, another `Exception`, or what is none, as
-- `JobShouldBeReleased` is
pub data Called : Type 0 where
  returned : String → Called
  timed_out : Called
  raised interrupted : String → Called

-- what each hook raises: `job.failed`, the recording of the failed job, `on_exhausted`, `on_success`
pub record Hooks : Type 0 where
  pub failed : Option String
  pub recording : Option String
  pub exhausted : Option String
  pub success : Option String

pub data Happened : Type 0 where
  called : ℕ → Happened
  waited : ℤ → Happened
  released : ℤ → ℕ → Happened
  failed_hook recorded exhausted succeeded : Happened

-- how a run ends: with a value or `None`, with an exception, or with what interrupted the job
pub data End : Type 0 where
  value : String → End
  nothing : End
  error interruption : String → End

-- `max(1, int(job.tries))`
unfoldable pub tries_of : Job → ℕ
tries_of job = elim job.tries [ pos (suc n) ↦ suc n | pos zero ↦ 1 | negsuc n ↦ 1 ]

-- `none` is the `IndexError` of an empty list
unfoldable pub backoff_for : Backoff → ℕ → Option ℤ
backoff_for (flat d) attempt = some d
backoff_for (each ds) attempt = get_elem? ds (min (attempt - 1) (length ds - 1))

abbrev pub reaches : Option ℤ → ℤ → Bool
reaches none n = false
reaches (some m) n = leb_ℤ m n

unfoldable pub retry_should_stop : Job → ℤ → ℕ → Bool
unfolding tries_of
retry_should_stop job now attempt =
    if reaches job.max_exceptions (pos attempt)
    then true
    else if reaches job.retry_until now
    then true
    else leb (tries_of job) attempt

-- the hooks of `_give_up` in turn, up to one that raises
unfoldable pub hooks_in_turn : List (Happened × Option String) → End × List Happened
hooks_in_turn [] = (nothing, [])
hooks_in_turn ((h, none) ∷ hooks) = let (end, log) = hooks_in_turn hooks in (end, h ∷ log)
hooks_in_turn ((h, some e) ∷ hooks) = (error e, h ∷ [])

abbrev pub hook_order :
    Option String → Option String → Option String → List (Happened × Option String)
hook_order a b c = (failed_hook, a) ∷ (recorded, b) ∷ (exhausted, c) ∷ []

unfoldable pub give_up : Hooks → End × List Happened
unfolding hooks_in_turn
give_up hooks = hooks_in_turn (hook_order hooks.failed hooks.recording hooks.exhausted)

unfoldable pub succeed : Hooks → String → End × List Happened
succeed hooks v = (elim hooks.success [ none ↦ value v | some e ↦ error e ], succeeded ∷ [])

-- An attempt that ends the run, or one after which the job backs off.
pub data Attempt : Type 0 where
  ends : End → Attempt
  backs_off : Attempt

abbrev pub ended : End × List Happened → Attempt × List Happened
ended (end, log) = (ends end, log)

abbrev pub wait : ℤ → ℕ → Happened
wait d n = waited d

unfoldable pub back_off : (ℤ → ℕ → Happened) → Option ℤ → ℕ → Attempt × List Happened
back_off later none attempt = (ends (error "IndexError"), [])
back_off later (some d) attempt = (backs_off, later d attempt ∷ [])

module _ (hooks : Hooks) (later : ℤ → ℕ → Happened) (job : Job) where
  -- `_failed_attempt_released` and `_failed_attempt_inline`, which differ in what they do to back off
  unfoldable pub failed_attempt : ℤ → ℕ → Attempt × List Happened
  unfolding back_off
  failed_attempt now attempt =
      if retry_should_stop job now attempt
      then ended (give_up hooks)
      else back_off later (backoff_for job.backoff attempt) attempt

  unfoldable pub settle : ℤ → ℕ → Called → Attempt × List Happened
  settle now attempt (returned v) = ended (succeed hooks v)
  settle now attempt timed_out =
      if job.fail_on_timeout then ended (give_up hooks) else failed_attempt now attempt
  settle now attempt (raised e) = failed_attempt now attempt
  settle now attempt (interrupted e) = (ends (interruption e), [])

-- the run after one attempt, with what is left of it
abbrev pub go_on : Attempt × List Happened → End × List Happened → End × List Happened
go_on (ends end, log) rest = (end, log)
go_on (backs_off, log) rest = (rest.0, log ++ rest.1)

-- What the n-th attempt comes to, and when its failure is looked at.
module _ (hooks : Hooks) (job : Job) (outcome : ℕ → Called) (clock : ℕ → ℤ) where
  unfoldable pub attempt_with : (ℤ → ℕ → Happened) → ℕ → Attempt × List Happened
  attempt_with later n =
      let (a, log) = settle hooks later job (clock n) n (outcome n) in (a, called n ∷ log)

  -- the loop over `range(1, tries + 1)`, with the rounds that are left
  unfoldable pub inline_loop : ℕ → ℕ → End × List Happened
  inline_loop zero n = (nothing, [])
  inline_loop (suc left) n = go_on (attempt_with wait n) (inline_loop left (suc n))

  unfoldable pub run_inline : End × List Happened
  run_inline = inline_loop (tries_of job) 1

  -- one pass on a durable queue, with the attempts that the job carries
  unfoldable pub run_durable : ℕ → Attempt × List Happened
  run_durable attempts = attempt_with released (suc attempts)

  -- The passes of a job that is released and picked up again, with the attempts it carries then.
  unfoldable pub passes : ℕ → ℕ → End × List Happened
  passes zero attempts = (nothing, [])
  passes (suc fuel) attempts = go_on (run_durable attempts) (passes fuel (suc attempts))
