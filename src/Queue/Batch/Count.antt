-- ===== src/Queue/Batch/Count.antt =====
-- src/arvel/queue/batch.py: the counters under every interleaving.
use arvel.Common.{
  ℕ, zero, suc, ◌+◌, ◌≤◌, ◌<◌, String, ◌≡◌, refl, ap, sym, ◌⊎◌, inl, inr, Bool, true, none, some,
  [], ◌∷◌, arith,
}
use arvel.Common.Int.{ℤ, pos, ◌-ℤ◌, ◌+ℤ◌}
use arvel.Queue.Batch.{Options, World, Pc, settle, count, catching, thenning, finallying}
use arvel.Queue.Batch.Run.{
  System, Reach, runs, cancels, here, next, start, advance, update, step, cancel,
}
use arvel.Queue.Batch.Owner.{is_present}
use arvel.Queue.Batch.Steps.{is_present-step}
use native.Mathlib.Decide.{ℕ_discrete, dec_lt}

-- The process has not yet made its decrement.
abbrev pub waits : Pc → ℕ
waits (settle _) = 1
waits (count _) = 1
waits _ = 0

-- How many of the first `n` processes have not.
pub waiting : (ℕ → Pc) → ℕ → ℕ
waiting p zero = 0
waiting p (suc n) = waits (p n) + waiting p n

abbrev pub pending : World → ℤ
pending w = elim w.row [ none ↦ pos 0 | some b ↦ b.pending_jobs ]

waiting-update_ge :
    (p : ℕ → Pc) (i n : ℕ) (pc : Pc) → n ≤ i → waiting (update p i pc) n ≡ waiting p n
unfolding waiting
waiting-update_ge p i zero pc h = refl
waiting-update_ge p i (suc n) pc h = ground (arith, waiting-update_ge p i n pc)

waiting-update :
    (p : ℕ → Pc) (i n : ℕ) (pc : Pc)
    → i < n
    → waiting (update p i pc) n + waits (p i) ≡ waiting p n + waits pc
unfolding waiting
waiting-update p i zero pc h = elim h [ ]
waiting-update p i (suc n) pc h =
    ground (arith, waiting-update p i n pc, waiting-update_ge p i n pc)

pub waits-cases : (pc : Pc) → (waits pc ≡ 0) ⊎ (waits pc ≡ 1)
waits-cases (settle f) = inr refl
waits-cases (count f) = inr refl
waits-cases _ = inl refl

pub waits-le-waiting : (p : ℕ → Pc) (i n : ℕ) → i < n → waits (p i) ≤ waiting p n
unfolding waiting
waits-le-waiting p i zero h = elim h [ ]
waits-le-waiting p i (suc n) h = elim (ℕ_discrete i n) [
  | yes e ↦ rw e (omega arith)
  | no ne ↦ omega (arith, waits-le-waiting p i n (omega arith))
]

pub waiting_zero : (p : ℕ → Pc) (n : ℕ) → ((i : ℕ) → waits (p i) ≡ 0) → waiting p n ≡ 0
unfolding waiting
waiting_zero p zero h = refl
waiting_zero p (suc n) h = omega (arith, h n, waiting_zero p n h)

-- One step makes at most one decrement, and the row follows it.
pub pending-step :
    (raises : String → Bool) (o : Options) (now : ℕ) (pc : Pc) (w : World)
    → let (w', pc') = step raises o now pc w in
      is_present w ≡ true → pending w' +ℤ pos (waits pc) ≡ pending w +ℤ pos (waits pc')
unfolding step ◌-ℤ◌ ◌+ℤ◌
pending-step raises o now (catching left []) w h = ground arith
pending-step raises o now (catching left (r ∷ rs)) w h = ground arith
pending-step raises o now (thenning []) w h = ground arith
pending-step raises o now (thenning (r ∷ rs)) w h = ground arith
pending-step raises o now (finallying []) w h = ground arith
pending-step raises o now (finallying (r ∷ rs)) w h = ground arith
pending-step raises o now (count f) w h = ground arith
pending-step raises o now _ w h = ground arith

pub waits-step :
    (raises : String → Bool) (o : Options) (now : ℕ) (pc : Pc) (w : World)
    → waits pc ≡ 0
    → waits (step raises o now pc w).1 ≡ 0
unfolding step
waits-step raises o now (catching left []) w h = ground arith
waits-step raises o now (catching left (r ∷ rs)) w h = ground arith
waits-step raises o now (thenning []) w h = ground arith
waits-step raises o now (thenning (r ∷ rs)) w h = ground arith
waits-step raises o now (finallying []) w h = ground arith
waits-step raises o now (finallying (r ∷ rs)) w h = ground arith
waits-step raises o now _ w h = ground arith

-- The row is there, it counts the jobs that wait, and no process above the jobs waits.
pub record Tally (n : ℕ) (s : System) : Type 0 where
  pub present : is_present s.world ≡ true
  pub pends : pending s.world ≡ pos (waiting s.procs n)
  pub beyond : (i : ℕ) → n ≤ i → waits (s.procs i) ≡ 0

pub waiting_of_waits : (p : ℕ → Pc) (n : ℕ) → ((i : ℕ) → i < n → waits (p i) ≡ 1) → waiting p n ≡ n
unfolding waiting
waiting_of_waits p zero h = refl
waiting_of_waits p (suc n) h =
    omega (arith, h n (omega arith), waiting_of_waits p n (λ i l. h i (omega arith)))

pub start-Tally : (n : ℕ) (outcome : ℕ → Bool) → Tally n (start n outcome)
unfolding start
start-Tally n outcome = record {
  present = refl;
  pends = ap pos (sym (waiting_of_waits (start n outcome).procs n (λ i l. ground arith)));
  beyond = λ i l. ground arith;
}

balance : (a b : ℤ) (m n x y : ℕ) → a +ℤ pos x ≡ b +ℤ pos y → b ≡ pos m → n + x ≡ m + y → a ≡ pos n
unfolding ◌+ℤ◌
balance a b m n x y e f g = ground arith

module _ (raises : String → Bool) (o : Options) (now i n : ℕ) (s : System) (t : Tally n s) where
  abbrev pub after : World × Pc
  after = step raises o now (s.procs i) s.world

  pub moved :
      waiting (update s.procs i after.1) n + waits (s.procs i) ≡ waiting s.procs n + waits after.1
  moved = elim (dec_lt i n) [
    | yes l ↦ waiting-update s.procs i n after.1 l
    | no g ↦ omega (
      arith,
      waiting-update_ge s.procs i n after.1 (omega arith),
      t.beyond i (omega arith),
      waits-step raises o now (s.procs i) s.world (t.beyond i (omega arith)),
    )
  ]

  pends-advance : pending after.0 ≡ pos (waiting (update s.procs i after.1) n)
  pends-advance =
      balance (pending after.0) (pending s.world) (waiting s.procs n)
        (waiting (update s.procs i after.1) n) (waits (s.procs i)) (waits after.1)
        (pending-step raises o now (s.procs i) s.world t.present) t.pends moved

  pub advance-Tally : Tally n (advance raises o now i s)
  unfolding advance
  advance-Tally = record {
    present = is_present-step raises o now (s.procs i) s.world t.present;
    pends = pends-advance;
    beyond = λ j l. ground (arith, t.beyond j l, waits-step raises o now (s.procs i) s.world);
  }

pub cancel-Tally :
    (now n : ℕ) (s : System) → Tally n s → Tally n (record s { world = cancel now s.world })
unfolding cancel
cancel-Tally now n s t = record {
  present = ground (arith, t.present);
  pends = ground (arith, t.pends);
  beyond = t.beyond;
}

pub Reach-Tally :
    {raises : String → Bool} {o : Options} (n : ℕ) {s t : System}
    → Tally n s
    → Reach raises o s t
    → Tally n t
Reach-Tally n h here = h
Reach-Tally {raises} {o} n h (next {t} r (runs now i)) =
    advance-Tally raises o now i n t (Reach-Tally n h r)
Reach-Tally {raises} {o} n h (next {t} r (cancels now)) = cancel-Tally now n t (Reach-Tally n h r)

-- In every reachable state of a batch of `n` jobs, `pending_jobs` is exactly the number of jobs
-- whose decrement is still to come: no decrement is lost or made twice, and it is never negative.
pub pending_counts :
    (raises : String → Bool) (o : Options) (n : ℕ) (outcome : ℕ → Bool) {s : System}
    → Reach raises o (start n outcome) s
    → pending s.world ≡ pos (waiting s.procs n)
pending_counts raises o n outcome r = (Reach-Tally n (start-Tally n outcome) r).pends
