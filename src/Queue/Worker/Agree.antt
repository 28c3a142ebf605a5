-- ===== src/Queue/Worker/Agree.antt =====
-- src/arvel/queue/worker.py: a job on a durable queue, released and picked up, runs as one that is retried in
-- place.
use mathlib.Core.List.{map-append}
use arvel.Common.{
  ℕ, zero, suc, ◌+◌, ◌-◌, ◌≤◌, String, ◌≡◌, refl, sym, ap, ◌∙◌, Bool, true, false, Option, none,
  some, List, ◌∷◌, if◌then◌else◌, arith, map,
}
use arvel.Common.Int.{ℤ}
use arvel.Queue.Worker.Settled.{settle-Ends, stops, tries_positive}
use arvel.Queue.Worker.{
  Job, Called, returned, timed_out, raised, interrupted, Hooks, Happened, called, waited, released,
  failed_hook, recorded, exhausted, succeeded, End, tries_of, backoff_for, retry_should_stop,
  hooks_in_turn, give_up, succeed, Attempt, ends, backs_off, ended, back_off, failed_attempt,
  settle, attempt_with, wait, go_on, hook_order, inline_loop, run_inline, run_durable, passes,
}

-- the release of a job as the wait of one that is retried in place
abbrev pub in_place : Happened → Happened
in_place (called n) = called n
in_place (waited d) = waited d
in_place (released d n) = waited d
in_place failed_hook = failed_hook
in_place recorded = recorded
in_place exhausted = exhausted
in_place succeeded = succeeded

abbrev pub in_place_log : {A : Type 0} → A × List Happened → A × List Happened
in_place_log (a, log) = (a, map in_place log)

back_off-in_place :
    (o : Option ℤ) (n : ℕ) → back_off wait o n ≡ in_place_log (back_off released o n)
unfolding back_off
back_off-in_place none n = refl
back_off-in_place (some d) n = refl

hooks_in_turn-in_place :
    (a b c : Option String)
    → hooks_in_turn (hook_order a b c) ≡ in_place_log (hooks_in_turn (hook_order a b c))
unfolding hooks_in_turn
hooks_in_turn-in_place (some e) b c = refl
hooks_in_turn-in_place none (some e) c = refl
hooks_in_turn-in_place none none (some e) = refl
hooks_in_turn-in_place none none none = refl

go_on-in_place :
    (a : Attempt × List Happened) (rest : End × List Happened)
    → go_on (in_place_log a) (in_place_log rest) ≡ in_place_log (go_on a rest)
go_on-in_place (ends end, log) rest = refl
go_on-in_place (backs_off, log) rest = ap (λ l. (rest.0, l)) (sym (map-append in_place log rest.1))

if-in_place :
    (b : Bool) (x y x' y' : Attempt × List Happened)
    → x ≡ in_place_log x'
    → y ≡ in_place_log y'
    → (if b then x else y) ≡ in_place_log (if b then x' else y')
if-in_place true x y x' y' h k = h
if-in_place false x y x' y' h k = k

module _ (hooks : Hooks) (job : Job) where
  give_up-in_place : ended (give_up hooks) ≡ in_place_log (ended (give_up hooks))
  unfolding give_up
  give_up-in_place = ap ended (hooks_in_turn-in_place hooks.failed hooks.recording hooks.exhausted)

  failed_attempt-in_place :
      (now : ℤ) (n : ℕ)
      → failed_attempt hooks wait job now n ≡ in_place_log (failed_attempt hooks released job now n)
  unfolding failed_attempt
  failed_attempt-in_place now n =
      if-in_place (retry_should_stop job now n) _ _ _ _ give_up-in_place
        (back_off-in_place (backoff_for job.backoff n) n)

  settle-in_place :
      (now : ℤ) (n : ℕ) (o : Called)
      → settle hooks wait job now n o ≡ in_place_log (settle hooks released job now n o)
  unfolding settle succeed
  settle-in_place now n (returned v) = refl
  settle-in_place now n timed_out =
      if-in_place job.fail_on_timeout _ _ _ _ give_up-in_place (failed_attempt-in_place now n)
  settle-in_place now n (raised e) = failed_attempt-in_place now n
  settle-in_place now n (interrupted e) = refl

  module _ (outcome : ℕ → Called) (clock : ℕ → ℤ) where
    attempt-in_place :
        (n : ℕ)
        → attempt_with hooks job outcome clock wait n
          ≡ in_place_log (attempt_with hooks job outcome clock released n)
    unfolding attempt_with
    attempt-in_place n = ap (λ r. (r.0, called n ∷ r.1)) (settle-in_place (clock n) n (outcome n))

    loop-passes :
        (left n : ℕ)
        → inline_loop hooks job outcome clock left (suc n)
          ≡ in_place_log (passes hooks job outcome clock left n)
    unfolding inline_loop passes run_durable
    loop-passes zero n = refl
    loop-passes (suc left) n =
        ap (λ a. go_on a (inline_loop hooks job outcome clock left (suc (suc n))))
          (attempt-in_place (suc n))
        ∙ ap
            (λ rest.
              go_on (in_place_log (attempt_with hooks job outcome clock released (suc n))) rest)
            (loop-passes left (suc n))
        ∙ go_on-in_place (attempt_with hooks job outcome clock released (suc n))
            (passes hooks job outcome clock left (suc n))

    -- the last attempt ends the run, so what is left of it does not matter
    last_attempt :
        (n : ℕ) (rest rest' : End × List Happened)
        → tries_of job ≤ n
        → go_on (attempt_with hooks job outcome clock released n) rest
          ≡ go_on (attempt_with hooks job outcome clock released n) rest'
    unfolding attempt_with
    last_attempt n rest rest' h =
        let (end, log, e) =
          settle-Ends hooks released job (clock n) n (outcome n) (stops job (clock n) n h) in
        rw (e) refl

    enough_passes :
        (left fuel n : ℕ)
        → n + suc left ≡ tries_of job
        → left ≤ fuel
        → passes hooks job outcome clock (suc fuel) n ≡ passes hooks job outcome clock (suc left) n
    unfolding passes run_durable
    enough_passes zero fuel n h l = last_attempt (suc n) _ _ (omega (arith, h))
    enough_passes (suc left) zero n h l = ground (arith, l)
    enough_passes (suc left) (suc fuel) n h l =
        ap (λ rest. go_on (attempt_with hooks job outcome clock released (suc n)) rest)
          (enough_passes left fuel (suc n) (omega (arith, h)) (omega (arith, l)))

    -- A job on a durable queue, which is released and picked up again as long as it asks for it, makes the
    -- same attempts at the same numbers, and ends alike, as a job that is retried in place: each
    -- release stands for a wait of the same time. As many passes as the job has tries are enough.
    pub strategies_agree :
        (fuel : ℕ)
        → tries_of job ≤ fuel
        → in_place_log (passes hooks job outcome clock fuel 0) ≡ run_inline hooks job outcome clock
    unfolding run_inline
    strategies_agree zero h = ground (arith, h, tries_positive job)
    strategies_agree (suc fuel) h =
        let left = tries_of job - 1 in
        let same : suc left ≡ tries_of job = omega (arith, tries_positive job) in
        ap in_place_log (enough_passes left fuel 0 (omega (arith, same)) (omega (arith, h, same)))
        ∙ sym (loop-passes (suc left) 0)
        ∙ ap (λ t. inline_loop hooks job outcome clock t 1) same
