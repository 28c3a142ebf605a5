-- ===== src/Queue/Batch/Carry.antt =====
-- src/arvel/queue/batch.py: who is left to finish the batch from the last decrement on.
use mathlib.Core.Path.{subst}
use native.Mathlib.Decide.{ℕ_discrete, dec_lt}
use arvel.Common.{
  ℕ, ◌<◌, String, ◌≡◌, ◌⊎◌, inl, inr, ap, ◌∙◌, Bool, true, false, [], ◌∷◌, arith, Bool-cases,
}
use arvel.Common.Int.{pos, leb_ℤ}
use arvel.Queue.Batch.{
  Options, World, Pc, settle, count, reread, cancelling, catching, closing, closing_empty, thenning,
  finallying, raised,
}
use arvel.Queue.Batch.Run.{
  System, Reach, runs, cancels, here, next, start, advance, update, step, cancel,
}
use arvel.Queue.Batch.Owner.{is_finished, is_present}
use arvel.Queue.Batch.Once.{update_self, update_ne}
use arvel.Queue.Batch.Steps.{is_finished-step}
use arvel.Queue.Batch.Count.{
  waits, waiting, pending, waits-cases, waits-le-waiting, waiting_of_waits, Tally, start-Tally,
  Reach-Tally, moved, waits-step,
}

-- The process will try to finish the batch.
abbrev pub carries : Pc → Bool
carries (reread _) = true
carries (cancelling left) = leb_ℤ left (pos 0)
carries (catching left _) = leb_ℤ left (pos 0)
carries (closing left) = leb_ℤ left (pos 0)
carries closing_empty = true
carries _ = false

abbrev pub is_raised : Pc → Bool
is_raised raised = true
is_raised _ = false

module _ (raises : String → Bool) (quiet : (r : String) → raises r ≡ false) (o : Options)
    (now : ℕ) where
  -- Whoever carries the finish carries on, or has made it.
  carries-step :
      (pc : Pc) (w : World)
      → is_present w ≡ true
      → pending w ≡ pos 0
      → carries pc ≡ true
      → (carries (step raises o now pc w).1 ≡ true)
        ⊎ (is_finished (step raises o now pc w).0 ≡ true)
  unfolding step
  carries-step (catching left []) w p z h = ground arith
  carries-step (catching left (r ∷ rs)) w p z h = ground (arith, quiet r)
  carries-step (thenning []) w p z h = cc
  carries-step (thenning (r ∷ rs)) w p z h = cc
  carries-step (finallying []) w p z h = cc
  carries-step (finallying (r ∷ rs)) w p z h = cc
  carries-step _ w p z h = ground arith

  -- The step that makes the last decrement is made by a process that carries the finish from there.
  last_carries :
      (pc : Pc) (w : World)
      → waits pc ≡ 1
      → waits (step raises o now pc w).1 ≡ 0
      → is_present w ≡ true
      → carries (step raises o now pc w).1 ≡ true
  unfolding step
  last_carries (settle f) w h z p = ground arith
  last_carries (count f) w h z p = ground arith
  last_carries (catching left []) w h z p = ground arith
  last_carries (catching left (r ∷ rs)) w h z p = ground arith
  last_carries (thenning []) w h z p = ground arith
  last_carries (thenning (r ∷ rs)) w h z p = ground arith
  last_carries (finallying []) w h z p = ground arith
  last_carries (finallying (r ∷ rs)) w h z p = ground arith
  last_carries _ w h z p = ground arith

  stays_quiet :
      (pc : Pc) (w : World)
      → is_present w ≡ true
      → is_raised pc ≡ false
      → is_raised (step raises o now pc w).1 ≡ false
  unfolding step
  stays_quiet (catching left []) w p h = ground arith
  stays_quiet (catching left (r ∷ rs)) w p h = ground (arith, quiet r)
  stays_quiet (thenning []) w p h = ground arith
  stays_quiet (thenning (r ∷ rs)) w p h = ground (arith, quiet r)
  stays_quiet (finallying []) w p h = ground arith
  stays_quiet (finallying (r ∷ rs)) w p h = ground (arith, quiet r)
  stays_quiet _ w p h = ground arith

-- Once no decrement is to come and nobody has made the finish, somebody carries it.
pub record Carrier (n : ℕ) (s : System) : Type 0 where
  pub somebody :
      waiting s.procs n ≡ 0 → is_finished s.world ≡ false → (i : ℕ) × (carries (s.procs i) ≡ true)
  pub none_raised : (i : ℕ) → is_raised (s.procs i) ≡ false

module _ (raises : String → Bool) (quiet : (r : String) → raises r ≡ false) (o : Options)
    (now i n : ℕ) (s : System) (t : Tally n s) (c : Carrier n s) where
  abbrev after : World × Pc
  after = step raises o now (s.procs i) s.world

  abbrev procs' : ℕ → Pc
  procs' = update s.procs i after.1

  last_Carrier :
      waits (s.procs i) ≡ 1 → waiting procs' n ≡ 0 → (j : ℕ) × (carries (procs' j) ≡ true)
  last_Carrier one z = (
    i,
    rw (update_self s.procs i after.1) (
        last_carries raises quiet o now (s.procs i) s.world one
          (omega (arith, rw (update_self s.procs i after.1) at (waits-le-waiting procs' i n below)))
          t.present),
  )
    where
      below : i < n
      below = elim (dec_lt i n) [
        | yes l ↦ l
        | no g ↦ absurd (omega (arith, t.beyond i (omega arith)))
      ]

  carried_on :
      is_finished after.0 ≡ false
      → waiting s.procs n ≡ 0
      → (j : ℕ) × (carries (s.procs j) ≡ true)
      → (j : ℕ) × (carries (procs' j) ≡ true)
  carried_on f z (j, h) = elim (ℕ_discrete j i) [
    | yes e ↦
        elim (carries-step raises quiet o now (s.procs i) s.world t.present (t.pends ∙ ap pos z)
          (subst (λ k. carries (s.procs k) ≡ true) e h)) [
            | inl on ↦ (i, rw (update_self s.procs i after.1) on)
            | inr fin ↦ cc (f, fin)
          ]
    | no ne ↦ (j, rw (update_ne s.procs i j after.1 ne) h)
  ]

  unfinished : is_finished after.0 ≡ false → is_finished s.world ≡ false
  unfinished f = elim (Bool-cases (is_finished s.world)) [
    | inl done ↦ cc (f, is_finished-step raises o now (s.procs i) s.world done)
    | inr h ↦ h
  ]

  somebody_after :
      waiting procs' n ≡ 0 → is_finished after.0 ≡ false → (j : ℕ) × (carries (procs' j) ≡ true)
  somebody_after z f = elim (waits-cases (s.procs i)) [
    | inl no_wait ↦
        let z' : waiting s.procs n ≡ 0 = omega (
          arith,
          moved raises o now i n s t,
          waits-step raises o now (s.procs i) s.world no_wait,
        ) in
        carried_on f z' (c.somebody z' (unfinished f))
    | inr one ↦ last_Carrier one z
  ]

  advance-Carrier : Carrier n (advance raises o now i s)
  unfolding advance
  advance-Carrier = record {
    somebody = somebody_after;
    none_raised = λ j. ground (
      arith,
      c.none_raised j,
      stays_quiet raises quiet o now (s.procs i) s.world t.present (c.none_raised i),
    );
  }

cancel-Carrier :
    (now n : ℕ) (s : System) → Carrier n s → Carrier n (record s { world = cancel now s.world })
unfolding cancel
cancel-Carrier now n s c = record {
  somebody = λ z f. c.somebody z (ground arith);
  none_raised = c.none_raised;
}

no_jobs : (n : ℕ) (outcome : ℕ → Bool) → waiting (start n outcome).procs n ≡ 0 → n ≡ 0
unfolding start
no_jobs n outcome z =
    omega (arith, z, waiting_of_waits (start n outcome).procs n (λ i l. ground arith))

start-Carrier : (n : ℕ) (outcome : ℕ → Bool) → Carrier n (start n outcome)
unfolding start
start-Carrier n outcome = record {
  somebody = λ z f. (0, ground (arith, no_jobs n outcome z));
  none_raised = λ i. ground arith;
}

pub Reach-Carrier :
    {raises : String → Bool} (quiet : (r : String) → raises r ≡ false) {o : Options} (n : ℕ)
    (outcome : ℕ → Bool) {t : System}
    → Reach raises o (start n outcome) t
    → Carrier n t
Reach-Carrier quiet n outcome here = start-Carrier n outcome
Reach-Carrier {raises} quiet {o} n outcome (next {t} r (runs now i)) =
    advance-Carrier raises quiet o now i n t (Reach-Tally n (start-Tally n outcome) r)
      (Reach-Carrier quiet n outcome r)
Reach-Carrier quiet n outcome (next {t} r (cancels now)) =
    cancel-Carrier now n t (Reach-Carrier quiet n outcome r)
