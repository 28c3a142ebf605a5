-- ===== src/Queue/Worker/Hook.antt =====
-- src/arvel/queue/worker.py: a `failed` hook that raises.
use mathlib.Core.Path.{subst}
use arvel.Common.{
  ℕ, zero, suc, ◌+◌, ◌-◌, ◌<◌, String, ◌≡◌, refl, ap, true, false, Option, some, is_some, List, [],
  ◌∷◌, arith, Bool-cases, Option-cases, inl, inr,
}
use Prim.Native.Nat.{min}
use arvel.Common.Int.{ℤ}
use arvel.Common.Lists.{length, get_elem?}
use arvel.Queue.Worker.{
  Job, Backoff, flat, each, Called, raised, Hooks, Happened, End, error, tries_of, backoff_for,
  retry_should_stop, hooks_in_turn, give_up, back_off, failed_attempt, settle, attempt_with, wait,
  go_on, inline_loop, run_inline,
}
use arvel.Queue.Worker.Settled.{stops, tries_positive}
use arvel.Queue.Worker.Once.{Heard}

-- the backoff is a number, or a list that is not empty
abbrev pub HasDelays : Backoff → Type 0
HasDelays (flat d) = Unit
HasDelays (each ds) = 0 < length ds

element_found : (ds : List ℤ) (i : ℕ) → i < length ds → is_some (get_elem? ds i) ≡ true
element_found [] i h = ground (arith, h)
element_found (d ∷ ds) zero h = refl
element_found (d ∷ ds) (suc i) h = element_found ds i (omega (arith, h))

delay_found : (b : Backoff) (n : ℕ) → HasDelays b → is_some (backoff_for b n) ≡ true
unfolding backoff_for
delay_found (flat d) n h = refl
delay_found (each ds) n h = element_found ds (min (n - 1) (length ds - 1)) (omega (arith, h))

module _ (hooks : Hooks) (job : Job) (outcome : ℕ → Called) (clock : ℕ → ℤ) (x : ℕ → String)
    (e : String) where
  abbrev pub Unheard : End × List Happened → Type 0
  Unheard (end, log) = (end ≡ error e) × Heard log 0 0 0

  stopped :
      (n : ℕ) (rest : End × List Happened)
      → hooks.failed ≡ some e
      → outcome n ≡ raised (x n)
      → retry_should_stop job (clock n) n ≡ true
      → Unheard (go_on (attempt_with hooks job outcome clock wait n) rest)
  unfolding attempt_with settle failed_attempt give_up hooks_in_turn
  stopped n rest f o s = simp (o, s, f) (refl, (refl, refl, refl))

  backed_off :
      (n : ℕ) (rest : End × List Happened)
      → HasDelays job.backoff
      → outcome n ≡ raised (x n)
      → retry_should_stop job (clock n) n ≡ false
      → Unheard rest
      → Unheard (go_on (attempt_with hooks job outcome clock wait n) rest)
  unfolding attempt_with settle failed_attempt back_off
  backed_off n rest b o s h = elim (Option-cases (backoff_for job.backoff n)) [
    | inl none_ ↦ cc (delay_found job.backoff n b, ap (λ (o' : Option ℤ). is_some o') none_)
    | inr (d, found) ↦ simp (o, s, found) h
  ]

  loop-Unheard :
      (left n : ℕ)
      → hooks.failed ≡ some e
      → HasDelays job.backoff
      → ((m : ℕ) → outcome m ≡ raised (x m))
      → n + left ≡ tries_of job
      → Unheard (inline_loop hooks job outcome clock (suc left) n)
  unfolding inline_loop
  loop-Unheard zero n f b o h = stopped n _ f (o n) (stops job (clock n) n (omega (arith, h)))
  loop-Unheard (suc left) n f b o h = elim (Bool-cases (retry_should_stop job (clock n) n)) [
    | inl s ↦ stopped n _ f (o n) s
    | inr s ↦ backed_off n _ b (o n) s (loop-Unheard left (suc n) f b o (omega (arith, h)))
  ]

  -- Where `job.failed` raises, a job whose backoff is a number or a list that is not empty, and
  -- whose attempts all raise, each any exception, ends with the exception of that hook: its failure
  -- is not recorded and `on_exhausted`, which settles its batch and gives its unique lock back, is
  -- never called.
  pub raising_hook_lost :
      hooks.failed ≡ some e
      → HasDelays job.backoff
      → ((m : ℕ) → outcome m ≡ raised (x m))
      → let (end, log) = run_inline hooks job outcome clock in (end ≡ error e) × Heard log 0 0 0
  unfolding run_inline
  raising_hook_lost f b o =
      let left = tries_of job - 1 in
      let same : suc left ≡ tries_of job = omega (arith, tries_positive job) in
      subst (λ t. Unheard (inline_loop hooks job outcome clock t 1)) same
        (loop-Unheard left 1 f b o (omega (arith, same)))
