-- ===== src/Queue/Batch/Catch.antt =====
-- src/arvel/queue/batch.py: the `catch` callbacks under every interleaving.
use mathlib.Core.Path.{subst}
use mathlib.Core.List.{append_assoc}
use native.Mathlib.Decide.{ℕ_discrete}
use arvel.Common.{
  ℕ, String, ◌≡◌, ◌≢◌, ◌⊎◌, inl, inr, refl, sym, ◌∙◌, Bool, true, false, [], ◌∷◌, ◌++◌, arith,
  Bool-cases,
}
use arvel.Queue.Batch.{Options, World, Pc, cancelling, catching, thenning, finallying, returned}
use arvel.Queue.Batch.Run.{System, Reach, runs, cancels, here, next, start, advance, step, cancel}
use arvel.Queue.Batch.Owner.{is_cancelled, Begins}
use arvel.Queue.Batch.Steps.{is_cancelled-step}

-- The process has won the cancellation and has not ended its callbacks.
abbrev catches : Pc → Bool
catches (catching _ _) = true
catches _ = false

-- What is left of the `catch` callbacks, while the winner stands among them.
abbrev Caught : Options → World → Pc → Type 0
Caught o w (catching left rs) = w.caught ++ rs ≡ o.catch_refs
Caught o w _ = Begins w.caught o.catch_refs

module _ (raises : String → Bool) (o : Options) (now : ℕ) where
  abbrev StaysOut : World → World × Pc → Type 0
  StaysOut w (w', pc') =
      (w'.caught ≡ w.caught)
      × (((is_cancelled w' ≡ is_cancelled w) × (catches pc' ≡ false))
          ⊎ ((is_cancelled w ≡ false) × (is_cancelled w' ≡ true) × Caught o w pc'))

  out-step :
      (pc : Pc) (w : World)
      → (is_cancelled w ≡ false → w.caught ≡ [])
      → catches pc ≡ false
      → StaysOut w (step raises o now pc w)
  unfolding step
  out-step (catching left []) w k h = cc
  out-step (catching left (r ∷ rs)) w k h = cc
  out-step (thenning []) w k h = ground arith
  out-step (thenning (r ∷ rs)) w k h = ground arith
  out-step (finallying []) w k h = ground arith
  out-step (finallying (r ∷ rs)) w k h = ground arith
  out-step (cancelling left) w k h = ground arith
  out-step _ w k h = ground arith

  -- One step of the process that won the cancellation.
  Caught-step :
      (pc : Pc) (w : World)
      → catches pc ≡ true
      → Caught o w pc
      → Caught o (step raises o now pc w).0 (step raises o now pc w).1
  unfolding step
  Caught-step (catching left []) w h c = ([], c)
  Caught-step (catching left (r ∷ rs)) w h c =
      let more : (w.caught ++ r ∷ []) ++ rs ≡ o.catch_refs =
        append_assoc w.caught (r ∷ []) rs ∙ c in
      elim (Bool-cases (raises r)) [ inl bad ↦ rw bad (rs, more) | inr good ↦ rw good more ]
  Caught-step returned w h c = cc
  Caught-step _ w h c = cc

Caught-Begins : (o : Options) (w : World) (pc : Pc) → Caught o w pc → Begins w.caught o.catch_refs
Caught-Begins o w (catching left rs) c = (rs, c)
Caught-Begins o w returned c = c
Caught-Begins o w _ c = c

Caught-same :
    (o : Options) (w w' : World) (pc : Pc) → w'.caught ≡ w.caught → Caught o w pc → Caught o w' pc
Caught-same o w w' (catching left rs) e c = rw e c
Caught-same o w w' returned e c = rw e c
Caught-same o w w' _ e c = rw e c

-- Nobody runs `catch` callbacks, or exactly one process does, or did.
data Claim (o : Options) (s : System) : Type 0 where
  free :
      (is_cancelled s.world ≡ false → s.world.caught ≡ [])
      → Begins s.world.caught o.catch_refs
      → ((i : ℕ) → catches (s.procs i) ≡ false)
      → Claim o s
  claimed :
      (k : ℕ)
      → is_cancelled s.world ≡ true
      → ((i : ℕ) → i ≢ k → catches (s.procs i) ≡ false)
      → Caught o s.world (s.procs k)
      → Claim o s

module _ (raises : String → Bool) (o : Options) (now i : ℕ) (s : System) where
  abbrev after : World × Pc
  after = step raises o now (s.procs i) s.world

  from_free :
      (is_cancelled s.world ≡ false → s.world.caught ≡ [])
      → Begins s.world.caught o.catch_refs
      → ((j : ℕ) → catches (s.procs j) ≡ false)
      → StaysOut raises o now s.world after
      → Claim o (advance raises o now i s)
  unfolding advance
  from_free k b idle (same, inl (c, out)) =
      free (λ h. same ∙ k (sym c ∙ h)) (rw same b) (λ j. ground (arith, idle j))
  from_free k b idle (same, inr (_, won, caught)) =
      claimed i won (λ j ne. ground (arith, idle j))
        (subst (Caught o after.0) (ground arith)
          (Caught-same o s.world after.0 after.1 same caught))

  from_claimed_ne :
      (k : ℕ)
      → k ≢ i
      → is_cancelled s.world ≡ true
      → ((j : ℕ) → j ≢ k → catches (s.procs j) ≡ false)
      → Caught o s.world (s.procs k)
      → StaysOut raises o now s.world after
      → Claim o (advance raises o now i s)
  unfolding advance
  from_claimed_ne k ne f idle caught (same, inl (c, out)) =
      claimed k (c ∙ f) (λ j nj. ground (arith, idle j nj))
        (subst (Caught o after.0) (ground arith)
          (Caught-same o s.world after.0 (s.procs k) same caught))
  from_claimed_ne k ne f idle caught (same, inr (unclaimed, _, _)) = cc (f, unclaimed)

  -- The claimant goes on, or, done with its callbacks, is one of the others.
  from_claimed_eq :
      is_cancelled s.world ≡ true
      → ((j : ℕ) → j ≢ i → catches (s.procs j) ≡ false)
      → Caught o s.world (s.procs i)
      → Claim o (advance raises o now i s)
  unfolding advance
  from_claimed_eq f idle caught = elim (Bool-cases (catches (s.procs i))) [
    | inl still ↦
        claimed i (is_cancelled-step raises o now (s.procs i) s.world f)
          (λ j ne. ground (arith, idle j ne))
          (subst (Caught o after.0) (ground arith)
            (Caught-step raises o now (s.procs i) s.world still caught))
    | inr out ↦
        from_free (λ h. cc (f, h)) (Caught-Begins o s.world (s.procs i) caught)
          (λ j. elim (ℕ_discrete j i) [ yes e ↦ rw e out | no ne ↦ idle j ne ])
          (out-step raises o now (s.procs i) s.world (λ h. cc (f, h)) out)
  ]

  advance-Claim : Claim o s → Claim o (advance raises o now i s)
  advance-Claim (free k b idle) =
      from_free k b idle (out-step raises o now (s.procs i) s.world k (idle i))
  advance-Claim (claimed k f idle caught) = elim (ℕ_discrete k i) [
    | yes e ↦
        from_claimed_eq f (subst (λ n. (j : ℕ) → j ≢ n → catches (s.procs j) ≡ false) e idle)
          (subst (λ n. Caught o s.world (s.procs n)) e caught)
    | no ne ↦
        from_claimed_ne k ne f idle caught
          (out-step raises o now (s.procs i) s.world (λ h. cc (f, h)) (idle i (λ e. ne (sym e))))
  ]

caught-cancel : (now : ℕ) (w : World) → (cancel now w).caught ≡ w.caught
unfolding cancel
caught-cancel now w = ground arith

cancel-Claim :
    (o : Options) (now : ℕ) (s : System)
    → Claim o s
    → Claim o (record s { world = cancel now s.world })
unfolding cancel
cancel-Claim o now s (free k b idle) = free (ground arith) (rw (caught-cancel now s.world) b) idle
cancel-Claim o now s (claimed k f idle caught) =
    claimed k (ground arith) idle
      (Caught-same o s.world (cancel now s.world) (s.procs k) (caught-cancel now s.world) caught)

Reach-Claim :
    {raises : String → Bool} {o : Options} {s t : System}
    → Claim o s
    → Reach raises o s t
    → Claim o t
Reach-Claim h here = h
Reach-Claim {raises} {o} h (next {t} r (runs now i)) =
    advance-Claim raises o now i t (Reach-Claim h r)
Reach-Claim {raises} {o} h (next {t} r (cancels now)) = cancel-Claim o now t (Reach-Claim h r)

Claim-Begins : (o : Options) (s : System) → Claim o s → Begins s.world.caught o.catch_refs
Claim-Begins o s (free k b idle) = b
Claim-Begins o s (claimed k f idle caught) = Caught-Begins o s.world (s.procs k) caught

Claim-quiet :
    (o : Options) (s : System) → Claim o s → is_cancelled s.world ≡ false → s.world.caught ≡ []
Claim-quiet o s (free k b idle) = k
Claim-quiet o s (claimed k f idle caught) = λ h. cc (f, h)

start-Claim : (o : Options) (n : ℕ) (outcome : ℕ → Bool) → Claim o (start n outcome)
unfolding start
start-Claim o n outcome = free (λ _. refl) (o.catch_refs, refl) (λ i. ground arith)

-- However many jobs fail, in whatever interleaving, with cancellations from outside and with
-- callbacks that raise: the `catch` callbacks that have run are a beginning of `options.catch`, so
-- none runs twice or out of order; and while the batch is not cancelled none has run.
pub catch_once :
    (raises : String → Bool) (o : Options) (n : ℕ) (outcome : ℕ → Bool) {s : System}
    → Reach raises o (start n outcome) s
    → Begins s.world.caught o.catch_refs × (is_cancelled s.world ≡ false → s.world.caught ≡ [])
catch_once raises o n outcome {s} r =
    let c : Claim o s = Reach-Claim (start-Claim o n outcome) r in
    (Claim-Begins o s c, Claim-quiet o s c)
