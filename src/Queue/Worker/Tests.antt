-- ===== src/Queue/Worker/Tests.antt =====
-- src/arvel/queue/worker.py: jobs that fail, with concrete policies.
use arvel.Common.{ℕ, zero, suc, ◌≤◌, ◌≡◌, refl, false, none, some, [], ◌∷◌, arith}
use arvel.Common.Int.{ℤ, pos}
use arvel.Queue.Worker.{
  Job, each, Called, returned, timed_out, raised, Hooks, called, waited, released, failed_hook,
  recorded, exhausted, succeeded, value, nothing, error, tries_of, run_inline, passes,
  retry_should_stop, run_durable, attempt_with, give_up, backoff_for, settle, failed_attempt,
  inline_loop, succeed,
}
use arvel.Queue.Worker.Settled.{cap, calls}
use arvel.Queue.Worker.Agree.{in_place_log, strategies_agree}
use arvel.Queue.Worker.Calls.{calls_bounded}
use arvel.Queue.Worker.Once.{ends_once, Settled, Heard}
use arvel.Queue.Worker.Hook.{raising_hook_lost}

abbrev report : Job
report = record {
  tries = pos 3;
  backoff = each (pos 5 ∷ pos 30 ∷ []);
  fail_on_timeout = false;
  max_exceptions = none;
  retry_until = none;
  attempts = 0;
}

abbrev quiet : Hooks
quiet = record { failed = none; recording = none; exhausted = none; success = none }

-- fails twice, then returns
abbrev flaky : ℕ → Called
flaky (suc zero) = raised "OSError"
flaky (suc (suc zero)) = timed_out
flaky _ = returned "done"

abbrev failing : ℕ → Called
failing n = raised "OSError"

abbrev midnight : ℕ → ℤ
midnight n = pos 0

flaky_runs : run_inline quiet report flaky midnight ≡ (
  value "done",
  called 1 ∷ waited (pos 5) ∷ called 2 ∷ waited (pos 30) ∷ called 3 ∷ succeeded ∷ [],
)
unfolding run_inline inline_loop tries_of attempt_with settle failed_attempt retry_should_stop
    backoff_for succeed
flaky_runs = refl

failing_job : passes quiet report failing midnight 3 0 ≡ (
  nothing,
  called 1
      ∷ released (pos 5) 1
      ∷ called 2
      ∷ released (pos 30) 2
      ∷ called 3
      ∷ failed_hook
      ∷ recorded
      ∷ exhausted
      ∷ [],
)
unfolding passes run_durable attempt_with settle failed_attempt retry_should_stop backoff_for
    give_up
failing_job = refl

strategies_agree_example :
    in_place_log (passes quiet report flaky midnight 4 0) ≡ run_inline quiet report flaky midnight
unfolding tries_of
strategies_agree_example = strategies_agree quiet report flaky midnight 4 (omega arith)

calls_bounded_example :
    let log = (run_inline quiet report failing midnight).1 in
    (1 ≤ calls log) × (calls log ≤ cap report)
calls_bounded_example = calls_bounded quiet report failing midnight

ends_once_example :
    let (end, log) = run_inline quiet report flaky midnight in Settled report.backoff end log
ends_once_example =
    ends_once quiet
      (record {
        failed_quiet = refl;
        recording_quiet = refl;
        exhausted_quiet = refl;
        success_quiet = refl;
      })
      report flaky midnight

abbrev loud : Hooks
loud = record { failed = some "KeyError"; recording = none; exhausted = none; success = none }

raising_hook_lost_example :
    let (end, log) = run_inline loud report failing midnight in
    (end ≡ error "KeyError") × Heard log 0 0 0
raising_hook_lost_example =
    raising_hook_lost loud report failing midnight (λ m. "OSError") "KeyError" refl (omega arith)
      (λ m. refl)
