-- ===== src/Queue/Schedule/Overlap.antt =====
-- src/arvel/queue/scheduler.py: the overlap lock after a run, and the calls that a run makes.
use arvel.Common.{
  String, ◌≡◌, refl, ap, ◌∙◌, ◌⊎◌, inl, inr, Bool-cases, Bool, true, false, not, ◌&&◌, Option-cases,
  List, [], ◌∷◌, ◌++◌, if◌then◌else◌, arith, is_some,
}
use arvel.Common.Int.{ℤ}
use arvel.Cache.Locks.{LockStore}
use arvel.Cache.Locks.Spec.{holder, owned_by, release-frees}
use arvel.Queue.Schedule.Cron.{Moment}
use arvel.Queue.Schedule.Event.{Event, Task}
use arvel.Queue.Schedule.Due.{Environment}
use arvel.Queue.Schedule.Run.{
  Run, Placed, skipped, ran, failed, run, run_calls, claim, take_overlap, overlap_name, give_back,
  calls, fire, counts_as_run, pass, skip_run,
}
use arvel.Queue.Schedule.Claims.{run-Through}

give_back-frees :
    (e : Event) (later : ℤ) (owner : String) (locks : LockStore)
    → is_some e.overlap_expire ≡ true
    → owned_by (holder later (give_back e later owner locks) (overlap_name e)) owner ≡ false
unfolding give_back
give_back-frees e later owner locks h = elim (Option-cases e.overlap_expire) [
  | inl n ↦ ground (arith, h, n)
  | inr (s, n) ↦ simp (n, give_back) (release-frees later (overlap_name e) owner locks)
]

run_calls-frees :
    (e : Event) (p : Placed) (locks : LockStore)
    → is_some e.overlap_expire ≡ true
    → owned_by (holder p.later (run_calls e p locks).locks (overlap_name e)) p.overlap_owner ≡ (
        not (fire e.after_hooks).1
        && owned_by (holder p.later (p.meanwhile locks) (overlap_name e)) p.overlap_owner)
unfolding run_calls
run_calls-frees e p locks h = elim (Bool-cases (fire e.after_hooks).1) [
  | inl f ↦ simp f (give_back-frees e p.later p.overlap_owner (p.meanwhile locks) h)
  | inr f ↦ simp f
]

-- Without overlapping: a run that was not skipped gives its overlap lock back, whether the callback
-- and the hooks before and after it raised or not, unless an `after` hook raises: then
-- the lock stays held as it was when the callback was done.
pub overlap_given_back :
    (env : Environment) (down : Bool) (e : Event) (moment : Moment) (p : Placed) (locks : LockStore)
    → is_some e.overlap_expire ≡ true
    → counts_as_run (run env down e moment p locks).outcome ≡ true
    → let locks'' =
        (take_overlap e p.now p.overlap_owner (claim env e moment p.now p.claim_owner locks).1).1 in
      owned_by
        (holder p.later (run env down e moment p locks).locks (overlap_name e))
        p.overlap_owner
      ≡ (not (fire e.after_hooks).1
          && owned_by (holder p.later (p.meanwhile locks'') (overlap_name e)) p.overlap_owner)
overlap_given_back env down e moment p locks h r =
    let locks'' =
      (take_overlap e p.now p.overlap_owner (claim env e moment p.now p.claim_owner locks).1).1 in
    let (_, _, through) = run-Through env down e moment p locks r in
    ap (λ (x : Run). owned_by (holder p.later x.locks (overlap_name e)) p.overlap_owner) through
    ∙ run_calls-frees e p locks'' h

unfoldable pub AllFine : List Task → Type 0
AllFine [] = Unit {0}
AllFine (t ∷ ts) = (t.raises ≡ false) × AllFine ts

fire_fine : (hooks : List Task) → AllFine hooks → fire hooks ≡ (hooks, true)
unfolding fire AllFine
fire_fine [] a = refl
fire_fine (t ∷ ts) (f, a) = ground (arith, f, fire_fine ts a)

-- the calls where no hook raises
abbrev pub expected_calls : Event → List Task
expected_calls e =
    let reaction = if e.callback.raises then e.failure_hooks else e.success_hooks in
    (e.before_hooks ++ ((e.callback ∷ []) ++ reaction)) ++ e.after_hooks

run_calls-order :
    (e : Event) (p : Placed) (locks : LockStore)
    → AllFine e.before_hooks
    → AllFine e.after_hooks
    → AllFine e.success_hooks
    → AllFine e.failure_hooks
    → ((run_calls e p locks).outcome ≡ (if e.callback.raises then failed else ran))
      × ((run_calls e p locks).made ≡ expected_calls e)
unfolding run_calls calls
run_calls-order e p locks b a s f = elim (Bool-cases e.callback.raises) [
  | inl h ↦ (
    simp (h, fire_fine e.before_hooks b, fire_fine e.after_hooks a, fire_fine e.failure_hooks f),
    simp (h, fire_fine e.before_hooks b, fire_fine e.after_hooks a, fire_fine e.failure_hooks f),
  )
  | inr h ↦ (
    simp (h, fire_fine e.before_hooks b, fire_fine e.after_hooks a, fire_fine e.success_hooks s),
    simp (h, fire_fine e.before_hooks b, fire_fine e.after_hooks a, fire_fine e.success_hooks s),
  )
]

pass-cases :
    (out claimed taken : Bool) (l l' l'' : LockStore) (through : Run)
    → let r = pass out claimed taken (skip_run l) (skip_run l') (skip_run l'') through in
      ((r.outcome ≡ skipped) × (r.made ≡ [])) ⊎ (r ≡ through)
unfolding pass
pass-cases true claimed taken l l' l'' through = inl (refl, refl)
pass-cases false false taken l l' l'' through = inl (refl, refl)
pass-cases false true false l l' l'' through = inl (refl, refl)
pass-cases false true true l l' l'' through = inr refl

-- Where no hook raises: the `before` hooks run, then the callback, then the hooks for its failure or
-- its success, then the `after` hooks, each list in the order of its registration, and the run fails
-- exactly where the callback does; or else the run is skipped and makes no call.
pub calls_in_order :
    (env : Environment) (down : Bool) (e : Event) (moment : Moment) (p : Placed) (locks : LockStore)
    → AllFine e.before_hooks
    → AllFine e.after_hooks
    → AllFine e.success_hooks
    → AllFine e.failure_hooks
    → let r = run env down e moment p locks in
      ((r.outcome ≡ skipped) × (r.made ≡ []))
      ⊎ ((r.outcome ≡ (if e.callback.raises then failed else ran)) × (r.made ≡ expected_calls e))
unfolding run
calls_in_order env down e moment p locks b a s f =
    let (claimed, locks') = claim env e moment p.now p.claim_owner locks in
    let (taken, locks'') = take_overlap e p.now p.overlap_owner locks' in
    let (o, m) = run_calls-order e p locks'' b a s f in
    elim (pass-cases (not e.runs_in_maintenance && down) claimed taken locks locks' locks''
      (run_calls e p locks'')) [
        | inl quiet ↦ inl quiet
        | inr through ↦
            inr (ap (λ (r : Run). r.outcome) through ∙ o, ap (λ (r : Run). r.made) through ∙ m)
      ]
