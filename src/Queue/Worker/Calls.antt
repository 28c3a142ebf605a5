-- ===== src/Queue/Worker/Calls.antt =====
-- src/arvel/queue/worker.py: how often a job is called.
use native.Mathlib.Decide.{dec_lt}
use arvel.Common.{
  ℕ, zero, suc, ◌+◌, ◌<◌, ◌≤◌, String, ◌≡◌, refl, Option, none, some, List, [], ◌∷◌, ◌++◌, arith,
  Bool-cases, inl, inr,
}
use arvel.Common.Int.{ℤ}
use arvel.Queue.Worker.{
  Job, Called, returned, timed_out, raised, interrupted, Hooks, Happened, called, waited, released,
  failed_hook, recorded, exhausted, succeeded, End, tries_of, backoff_for, retry_should_stop,
  hooks_in_turn, hook_order, give_up, succeed, Attempt, ends, backs_off, back_off, failed_attempt,
  settle, attempt_with, wait, go_on, inline_loop, run_inline,
}
use arvel.Queue.Worker.Settled.{Ends, settle-Ends, tries_positive, cap, stops_at_cap, calls}

calls-append : (l l' : List Happened) → calls (l ++ l') ≡ calls l + calls l'
calls-append [] l' = omega arith
calls-append (called n ∷ l) l' = omega (arith, calls-append l l')
calls-append (waited d ∷ l) l' = calls-append l l'
calls-append (released d n ∷ l) l' = calls-append l l'
calls-append (failed_hook ∷ l) l' = calls-append l l'
calls-append (recorded ∷ l) l' = calls-append l l'
calls-append (exhausted ∷ l) l' = calls-append l l'
calls-append (succeeded ∷ l) l' = calls-append l l'

calls-hooks : (a b c : Option String) → calls (hooks_in_turn (hook_order a b c)).1 ≡ 0
unfolding hooks_in_turn
calls-hooks (some e) b c = refl
calls-hooks none (some e) c = refl
calls-hooks none none (some e) = refl
calls-hooks none none none = refl

module _ (hooks : Hooks) (job : Job) where
  calls-give_up : calls (give_up hooks).1 ≡ 0
  unfolding give_up
  calls-give_up = calls-hooks hooks.failed hooks.recording hooks.exhausted

  calls-back_off : (o : Option ℤ) (n : ℕ) → calls (back_off wait o n).1 ≡ 0
  unfolding back_off
  calls-back_off none n = refl
  calls-back_off (some d) n = refl

  calls-failed_attempt : (now : ℤ) (n : ℕ) → calls (failed_attempt hooks wait job now n).1 ≡ 0
  unfolding failed_attempt
  calls-failed_attempt now n = elim (Bool-cases (retry_should_stop job now n)) [
    | inl e ↦ simp (e) calls-give_up
    | inr e ↦ simp (e) (calls-back_off (backoff_for job.backoff n) n)
  ]

  -- an attempt is one call
  calls-settle : (now : ℤ) (n : ℕ) (o : Called) → calls (settle hooks wait job now n o).1 ≡ 0
  unfolding settle succeed
  calls-settle now n (returned v) = refl
  calls-settle now n timed_out = elim (Bool-cases job.fail_on_timeout) [
    | inl e ↦ simp (e) calls-give_up
    | inr e ↦ simp (e) (calls-failed_attempt now n)
  ]
  calls-settle now n (raised e) = calls-failed_attempt now n
  calls-settle now n (interrupted e) = refl

  module _ (outcome : ℕ → Called) (clock : ℕ → ℤ) where
    go_on-calls :
        (n : ℕ) (r : Attempt × List Happened) (rest : End × List Happened)
        → calls r.1 ≡ 0
        → let log = (go_on (r.0, called n ∷ r.1) rest).1 in
          (1 ≤ calls log) × (calls log ≤ 1 + calls rest.1)
    go_on-calls n (ends end, log) rest h = omega (arith, h)
    go_on-calls n (backs_off, log) rest h = omega (arith, h, calls-append log rest.1)

    go_on-last :
        (n : ℕ) (r : Attempt × List Happened) (rest : End × List Happened)
        → calls r.1 ≡ 0
        → Ends r
        → calls (go_on (r.0, called n ∷ r.1) rest).1 ≡ 1
    go_on-last n (ends end, log) rest h e = omega (arith, h)
    go_on-last n (backs_off, log) rest h (end, log', e) = ground (arith, e)

    calls-loop :
        (left n : ℕ)
        → n ≤ cap job
        → n + calls (inline_loop hooks job outcome clock left n).1 ≤ suc (cap job)
    unfolding inline_loop attempt_with
    calls-loop zero n h = omega (arith, h)
    calls-loop (suc left) n h =
        let r = settle hooks wait job (clock n) n (outcome n) in
        let none_in = calls-settle (clock n) n (outcome n) in
        let rest = inline_loop hooks job outcome clock left (suc n) in
        elim (dec_lt n (cap job)) [
          | yes l ↦ omega (arith, go_on-calls n r rest none_in, calls-loop left (suc n) l)
          | no l ↦ omega (
            arith,
            h,
            l,
            go_on-last n r rest none_in (
                settle-Ends hooks wait job (clock n) n (outcome n)
                  (stops_at_cap job (clock n) n (omega (arith, l)))),
          )
        ]

    calls_positive :
        (left n : ℕ) → 0 < left → 1 ≤ calls (inline_loop hooks job outcome clock left n).1
    unfolding inline_loop attempt_with
    calls_positive zero n h = omega (arith, h)
    calls_positive (suc left) n h =
        (go_on-calls n (settle hooks wait job (clock n) n (outcome n))
          (inline_loop hooks job outcome clock left (suc n))
          (calls-settle (clock n) n (outcome n))).0

    cap_positive : 1 ≤ cap job
    cap_positive = ground (arith, tries_positive job)

    -- A job that is retried in place is called at least once, at most as often as its tries say, and, where
    -- it has a `max_exceptions`, no more often than that, but once, whatever its attempts come to.
    pub calls_bounded :
        let log = (run_inline hooks job outcome clock).1 in (1 ≤ calls log) × (calls log ≤ cap job)
    unfolding run_inline
    calls_bounded = omega (
      arith,
      calls_positive (tries_of job) 1 (tries_positive job),
      calls-loop (tries_of job) 1 cap_positive,
    )
