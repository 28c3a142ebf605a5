-- ===== src/Queue/Batch/Once.antt =====
-- src/arvel/queue/batch.py: the `then` and `finally` callbacks under every interleaving.
use arvel.Common.{ℕ, String, ◌≡◌, ◌≢◌, ◌⊎◌, inl, inr, refl, Bool, true, false, [], arith, sym, ◌∙◌}
use mathlib.Core.Path.{subst}
use native.Mathlib.Decide.{ℕ_discrete}
use arvel.Queue.Batch.{Options, World, Pc}
use arvel.Queue.Batch.Run.{
  System, Step, Reach, runs, cancels, here, next, start, advance, update, step, cancel,
}
use arvel.Queue.Batch.Owner.{
  is_present, is_finished, is_cancelled, owns, Held, InOrder, Held-InOrder,
}
use arvel.Queue.Batch.Steps.{
  is_present-step, is_cancelled-step, is_finished-step, StaysIdle, idle-step, Held-step,
}

-- Nobody has won the finish, or exactly one process has.
pub data Phase (o : Options) (s : System) : Type 0 where
  open_ :
      is_finished s.world ≡ false
      → s.world.thened ≡ []
      → s.world.finalled ≡ []
      → ((i : ℕ) → owns (s.procs i) ≡ false)
      → Phase o s
  closed :
      (k : ℕ)
      → is_finished s.world ≡ true
      → ((i : ℕ) → i ≢ k → owns (s.procs i) ≡ false)
      → Held o s.world (s.procs k)
      → Phase o s

pub record IsSound (o : Options) (s : System) : Type 0 where
  pub present : is_present s.world ≡ true
  pub phase : Phase o s

-- A step of another process, or a cancellation, leaves the winner's obligations as they are.
Held-mono :
    (o : Options) (w w' : World) (pc : Pc)
    → w'.thened ≡ w.thened
    → w'.finalled ≡ w.finalled
    → (is_cancelled w ≡ true → is_cancelled w' ≡ true)
    → Held o w pc
    → Held o w' pc
Held-mono o w w' (Pc.thenning rs) t f c h = ground arith
Held-mono o w w' (Pc.finallying rs) t f c h = ground arith
Held-mono o w w' Pc.raised t f c h = (rw t h.0, rw f h.1, ground arith)
Held-mono o w w' _ t f c h = ground arith

pub update_self : (p : ℕ → Pc) (i : ℕ) (pc : Pc) → update p i pc i ≡ pc
update_self p i pc = ground arith

pub update_ne : (p : ℕ → Pc) (i j : ℕ) (pc : Pc) → j ≢ i → update p i pc j ≡ p j
update_ne p i j pc h = ground arith

module _ (raises : String → Bool) (o : Options) (now i : ℕ) (s : System) where
  abbrev after : World × Pc
  after = step raises o now (s.procs i) s.world

  -- Nobody else owns the finish, where nobody else did.
  others_idle :
      (pc : Pc)
      → owns pc ≡ false
      → ((j : ℕ) → owns (s.procs j) ≡ false)
      → (j : ℕ) → owns (update s.procs i pc j) ≡ false
  others_idle pc h idle j = ground (arith, idle j)

  others_idle_but :
      (k : ℕ) (pc : Pc)
      → owns pc ≡ false
      → ((j : ℕ) → j ≢ k → owns (s.procs j) ≡ false)
      → (j : ℕ) → j ≢ k
      → owns (update s.procs i pc j) ≡ false
  others_idle_but k pc h idle j ne = ground (arith, idle j ne)

  idle_but_self :
      (pc : Pc)
      → ((j : ℕ) → j ≢ i → owns (s.procs j) ≡ false)
      → (j : ℕ) → j ≢ i
      → owns (update s.procs i pc j) ≡ false
  idle_but_self pc idle j ne = ground (arith, idle j ne)

  won_Held :
      (pc : Pc) (w : World)
      → w.thened ≡ []
      → w.finalled ≡ []
      → (pc ≡ Pc.checking) ⊎ (pc ≡ Pc.finding)
      → Held o w pc
  won_Held pc w t f (inl e) = rw e (t, f)
  won_Held pc w t f (inr e) = rw e (t, f)

  from_open :
      is_finished s.world ≡ false
      → s.world.thened ≡ []
      → s.world.finalled ≡ []
      → ((j : ℕ) → owns (s.procs j) ≡ false)
      → StaysIdle raises o now s.world after
      → Phase o (advance raises o now i s)
  unfolding advance
  from_open f t l idle (st, sl, inl (sf, sp)) =
      open_ (sf ∙ f) (st ∙ t) (sl ∙ l) (others_idle after.1 sp idle)
  from_open f t l idle (st, sl, inr (_, won, pc)) =
      closed i won (idle_but_self after.1 (λ j _. idle j))
        (rw (update_self s.procs i after.1) (won_Held after.1 after.0 (st ∙ t) (sl ∙ l) pc))

  -- A process that is not the winner stays out of the winner's way.
  from_closed_ne :
      (k : ℕ)
      → k ≢ i
      → is_finished s.world ≡ true
      → ((j : ℕ) → j ≢ k → owns (s.procs j) ≡ false)
      → Held o s.world (s.procs k)
      → StaysIdle raises o now s.world after
      → Phase o (advance raises o now i s)
  unfolding advance
  from_closed_ne k ne f idle held (st, sl, inl (sf, sp)) =
      closed k (sf ∙ f) (others_idle_but k after.1 sp idle) (
        rw (update_ne s.procs i k after.1 ne) (
          Held-mono o s.world after.0 (s.procs k) st sl
            (is_cancelled-step raises o now (s.procs i) s.world) held))
  from_closed_ne k ne f idle held (st, sl, inr (unfinished, _, _)) = cc (f, unfinished)

  -- The winner goes on.
  from_closed_eq :
      is_present s.world ≡ true
      → is_finished s.world ≡ true
      → ((j : ℕ) → j ≢ i → owns (s.procs j) ≡ false)
      → Held o s.world (s.procs i)
      → Phase o (advance raises o now i s)
  unfolding advance
  from_closed_eq p f idle held =
      closed i (is_finished-step raises o now (s.procs i) s.world f) (idle_but_self after.1 idle)
        (rw (update_self s.procs i after.1) (Held-step raises o now (s.procs i) s.world p held))

  advance-Phase : is_present s.world ≡ true → Phase o s → Phase o (advance raises o now i s)
  advance-Phase p (open_ f t l idle) =
      from_open f t l idle (idle-step raises o now (s.procs i) s.world (idle i))
  advance-Phase p (closed k f idle held) = elim (ℕ_discrete k i) [
    | yes e ↦
        from_closed_eq p f (subst (λ n. (j : ℕ) → j ≢ n → owns (s.procs j) ≡ false) e idle)
          (subst (λ n. Held o s.world (s.procs n)) e held)
    | no ne ↦
        from_closed_ne k ne f idle held
          (idle-step raises o now (s.procs i) s.world (idle i (λ e. ne (sym e))))
  ]

-- A cancellation does not touch the finish.
cancel-Phase :
    (o : Options) (now : ℕ) (s : System)
    → Phase o s
    → Phase o (record s { world = cancel now s.world })
unfolding cancel
cancel-Phase o now s (open_ f t l idle) = open_ (ground arith) (ground arith) (ground arith) idle
cancel-Phase o now s (closed k f idle held) = closed k (ground arith) idle (
    Held-mono o s.world (cancel now s.world) (s.procs k) (ground arith) (ground arith)
      (ground arith) held)

Step-IsSound :
    {raises : String → Bool} {o : Options} {s t : System}
    → Step raises o s t
    → IsSound o s
    → IsSound o t
unfolding advance cancel
Step-IsSound {raises} {o} {s} (runs now i) h = record {
  present = is_present-step raises o now (s.procs i) s.world h.present;
  phase = advance-Phase raises o now i s h.present h.phase;
}
Step-IsSound {o = o} {s} (cancels now) h = record {
  present = ground (arith, h.present);
  phase = cancel-Phase o now s h.phase;
}

pub start-IsSound : (o : Options) (n : ℕ) (outcome : ℕ → Bool) → IsSound o (start n outcome)
unfolding start
start-IsSound o n outcome = record {
  present = refl;
  phase = open_ refl refl refl (λ i. ground arith);
}

pub Reach-IsSound :
    {raises : String → Bool} {o : Options} {s t : System}
    → IsSound o s
    → Reach raises o s t
    → IsSound o t
Reach-IsSound h here = h
Reach-IsSound h (next r st) = Step-IsSound st (Reach-IsSound h r)

Phase-InOrder : (o : Options) (s : System) → Phase o s → InOrder o s.world
Phase-InOrder o s (open_ f t l idle) = Held-InOrder o s.world Pc.checking (t, l)
Phase-InOrder o s (closed k f idle held) = Held-InOrder o s.world (s.procs k) held

-- Whatever the jobs' outcomes, the interleaving of their settlements, cancellations from outside and
-- the callbacks that raise: the `then` callbacks that have run are a beginning of `options.then`, so
-- none runs twice or out of order; likewise for `finally`; and no `finally` callback has run
-- unless the `then` callbacks all have, or none of them has and the batch is cancelled.
pub callbacks_once :
    (raises : String → Bool) (o : Options) (n : ℕ) (outcome : ℕ → Bool) {s : System}
    → Reach raises o (start n outcome) s
    → InOrder o s.world
callbacks_once raises o n outcome {s} r =
    Phase-InOrder o s (Reach-IsSound (start-IsSound o n outcome) r).phase
