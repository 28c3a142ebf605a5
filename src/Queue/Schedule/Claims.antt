-- ===== src/Queue/Schedule/Claims.antt =====
-- src/arvel/queue/scheduler.py: the one-server claim of `run` over two runs.
use arvel.Common.{
  String, ◌≡◌, refl, sym, ap, ◌∙◌, inl, inr, Bool-cases, Bool, true, false, not, ◌&&◌, Option, some,
  Option-cases, List, arith, str_eq,
}
use arvel.Common.Int.{ℤ, pos}
use arvel.Common.Assoc.{lookup}
use arvel.Cache.Locks.Exclusion.{
  Call, call, acquires, releases, Undisturbed, call_keeps, mutual_exclusion, run as run_calls_of,
}
use arvel.Cache.Locks.{LockStore, try_acquire, release, expiry, has_expired}
use arvel.Cache.Locks.Spec.{entry, acquired_entry, held-refuses}
use arvel.Queue.Schedule.Cron.{Moment}
use arvel.Queue.Schedule.Event.{Event}
use arvel.Queue.Schedule.Due.{Environment}
use arvel.Queue.Schedule.Run.{
  Run, Placed, skipped, run, run_calls, claim, claim_name, take_overlap, overlap_name, give_back,
  fire, skip_run, counts_as_run, pass,
}

-- where the claim that is made now ends
abbrev pub claim_end : ℤ → Option ℤ
claim_end now = expiry now (some (pos 3600))

module _ (env : Environment) (e : Event) (moment : Moment) (h : e.one_server ≡ true) where
  claim_made :
      (now : ℤ) (owner : String) (locks : LockStore)
      → (claim env e moment now owner locks).0 ≡ true
      → lookup (claim_name env e moment) (claim env e moment now owner locks).1
        ≡ some (entry owner (claim_end now))
  unfolding claim claim_name
  claim_made now owner locks =
      let name = claim_name env e moment in
      rw h (acquired_entry now name owner (some (pos 3600)) locks)

  claim_refused :
      (now : ℤ) (owner other : String) (ends : Option ℤ) (locks : LockStore)
      → lookup (claim_name env e moment) locks ≡ some (entry other ends)
      → has_expired now ends ≡ false
      → (claim env e moment now owner locks).0 ≡ false
  unfolding claim claim_name
  claim_refused now owner other ends locks =
      let name = claim_name env e moment in
      rw h (held-refuses now name owner other (some (pos 3600)) ends locks)

abbrev pub Through : Bool → Bool → Run → Run → Type 0
Through claimed taken r through = (claimed ≡ true) × (taken ≡ true) × (r ≡ through)

pass-Through :
    (out claimed taken : Bool) (l l' l'' : LockStore) (through : Run)
    → counts_as_run
        (pass out claimed taken (skip_run l) (skip_run l') (skip_run l'') through).outcome
      ≡ true
    → Through claimed taken
        (pass out claimed taken (skip_run l) (skip_run l') (skip_run l'') through)
        through
unfolding pass counts_as_run
pass-Through true claimed taken l l' l'' through h = ground (arith, h)
pass-Through false false taken l l' l'' through h = ground (arith, h)
pass-Through false true false l l' l'' through h = ground (arith, h)
pass-Through false true true l l' l'' through h = (refl, refl, refl)

pass_unclaimed :
    (out claimed taken : Bool) (l l' l'' : LockStore) (through : Run)
    → claimed ≡ false
    → (pass out claimed taken (skip_run l) (skip_run l') (skip_run l'') through).outcome ≡ skipped
unfolding pass
pass_unclaimed true claimed taken l l' l'' through h = refl
pass_unclaimed false false taken l l' l'' through h = refl
pass_unclaimed false true taken l l' l'' through h = ground (arith, h)

-- what a run that is not skipped has done
pub run-Through :
    (env : Environment) (down : Bool) (e : Event) (moment : Moment) (p : Placed) (locks : LockStore)
    → counts_as_run (run env down e moment p locks).outcome ≡ true
    → let (claimed, locks') = claim env e moment p.now p.claim_owner locks in
      let (taken, locks'') = take_overlap e p.now p.overlap_owner locks' in
      Through claimed taken (run env down e moment p locks) (run_calls e p locks'')
unfolding run
run-Through env down e moment p locks =
    let (claimed, locks') = claim env e moment p.now p.claim_owner locks in
    let (taken, locks'') = take_overlap e p.now p.overlap_owner locks' in
    pass-Through (not e.runs_in_maintenance && down) claimed taken locks locks' locks''
      (run_calls e p locks'')

unclaimed_skips :
    (env : Environment) (down : Bool) (e : Event) (moment : Moment) (p : Placed) (locks : LockStore)
    → (claim env e moment p.now p.claim_owner locks).0 ≡ false
    → (run env down e moment p locks).outcome ≡ skipped
unfolding run
unclaimed_skips env down e moment p locks =
    let (claimed, locks') = claim env e moment p.now p.claim_owner locks in
    let (taken, locks'') = take_overlap e p.now p.overlap_owner locks' in
    pass_unclaimed (not e.runs_in_maintenance && down) claimed taken locks locks' locks''
      (run_calls e p locks'')

take_overlap_keeps :
    (e : Event) (now : ℤ) (owner : String) (locks : LockStore) (name other : String)
    (ends : Option ℤ)
    → lookup name locks ≡ some (entry other ends)
    → has_expired now ends ≡ false
    → lookup name (take_overlap e now owner locks).1 ≡ some (entry other ends)
unfolding take_overlap try_acquire call
take_overlap_keeps e now owner locks name other ends l x = elim (Option-cases e.overlap_expire) [
  | inl n ↦ simp (n, take_overlap) l
  | inr (s, n) ↦
      simp (n, take_overlap)
        (call_keeps name other ends now (acquires (overlap_name e) owner (some s)) locks l x refl).1
]

give_back_keeps :
    (e : Event) (later : ℤ) (owner : String) (locks : LockStore) (name other : String)
    (ends : Option ℤ)
    → lookup name locks ≡ some (entry other ends)
    → has_expired later ends ≡ false
    → str_eq owner other ≡ false
    → lookup name (give_back e later owner locks) ≡ some (entry other ends)
unfolding give_back release call
give_back_keeps e later owner locks name other ends l x d = elim (Option-cases e.overlap_expire) [
  | inl n ↦ simp (n, give_back) l
  | inr (s, n) ↦
      simp (n, give_back)
        (call_keeps name other ends later (releases (overlap_name e) owner) locks l x
          (ground (arith, d))).1
]

run_calls_keeps :
    (e : Event) (p : Placed) (locks : LockStore) (name other : String) (ends : Option ℤ)
    → lookup name (p.meanwhile locks) ≡ some (entry other ends)
    → has_expired p.later ends ≡ false
    → str_eq p.overlap_owner other ≡ false
    → lookup name (run_calls e p locks).locks ≡ some (entry other ends)
unfolding run_calls
run_calls_keeps e p locks name other ends l x d = elim (Bool-cases (fire e.after_hooks).1) [
  | inl f ↦
      simp f (give_back_keeps e p.later p.overlap_owner (p.meanwhile locks) name other ends l x d)
  | inr f ↦ simp f l
]

-- On one server only: where a run of the event was not skipped, another run in the same minute, at
-- any time within the hour of the claim, is skipped, whichever process starts it and however the
-- first run ended. In the meantime anybody may use the lock table, the first run's callback included, but
-- does not force the claim's name nor use its owner token.
pub one_server_once :
    (env : Environment) (down down' : Bool) (e : Event) (m m' : Moment) (p p' : Placed)
    (used : List (ℤ × Call)) (locks : LockStore)
    → e.one_server ≡ true
    → claim_name env e m ≡ claim_name env e m'
    → ((l : LockStore) → p.meanwhile l ≡ (run_calls_of (claim_name env e m) used l).1)
    → Undisturbed (claim_name env e m) p.claim_owner (claim_end p.now) used
    → str_eq p.overlap_owner p.claim_owner ≡ false
    → has_expired p.now (claim_end p.now) ≡ false
    → has_expired p.later (claim_end p.now) ≡ false
    → has_expired p'.now (claim_end p.now) ≡ false
    → counts_as_run (run env down e m p locks).outcome ≡ true
    → (run env down' e m' p' (run env down e m p locks).locks).outcome ≡ skipped
one_server_once env down down' e m m' p p' used locks one same_minute mw u d now_fresh later_fresh
      fresh' r =
    let name = claim_name env e m in
    let ends = claim_end p.now in
    let locks' = (claim env e m p.now p.claim_owner locks).1 in
    let locks'' = (take_overlap e p.now p.overlap_owner locks').1 in
    let left = (run env down e m p locks).locks in
    let (claimed, _, through) = run-Through env down e m p locks r in
    let made = claim_made env e m one p.now p.claim_owner locks claimed in
    let kept =
      take_overlap_keeps e p.now p.overlap_owner locks' name p.claim_owner ends made now_fresh in
    let (_, used_kept) = mutual_exclusion name p.claim_owner ends used locks'' kept u in
    let meanwhile_kept = ap (lookup name) (mw locks'') ∙ used_kept in
    let run_kept =
      run_calls_keeps e p locks'' name p.claim_owner ends meanwhile_kept later_fresh d in
    let still = ap (λ (x : Run). lookup name x.locks) through ∙ run_kept in
    unclaimed_skips env down' e m' p' left (
      claim_refused env e m' one p'.now p'.claim_owner p.claim_owner ends left
        (ap (λ (n : String). lookup n left) (sym same_minute) ∙ still) fresh')
