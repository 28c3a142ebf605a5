-- ===== src/Queue/Batch/Steps.antt =====
-- src/arvel/queue/batch.py: what one step of a process does to the winner's obligations.
use mathlib.Core.List.{append-nil, append_assoc}
use arvel.Common.{ℕ, String, ◌≡◌, ◌⊎◌, inl, inr, ◌∙◌, Bool, true, false, [], ◌∷◌, arith, Bool-cases}
use arvel.Queue.Batch.{
  Options, World, Pc, settle, count, reread, cancelling, catching, closing, checking, closing_empty,
  finding, thenning, finallying, returned, raised,
}
use arvel.Queue.Batch.Owner.{
  is_present, is_finished, is_cancelled, owns, Held, Begins-of_nil, ThenSettled-Begins,
}
use arvel.Queue.Batch.Run.{step}

module _ (raises : String → Bool) (o : Options) (now : ℕ) where
  pub is_present-step :
      (pc : Pc) (w : World) → is_present w ≡ true → is_present (step raises o now pc w).0 ≡ true
  unfolding step
  is_present-step (catching left []) w h = ground arith
  is_present-step (catching left (r ∷ rs)) w h = ground arith
  is_present-step (thenning []) w h = ground arith
  is_present-step (thenning (r ∷ rs)) w h = ground arith
  is_present-step (finallying []) w h = ground arith
  is_present-step (finallying (r ∷ rs)) w h = ground arith
  is_present-step _ w h = ground arith

  pub is_cancelled-step :
      (pc : Pc) (w : World) → is_cancelled w ≡ true → is_cancelled (step raises o now pc w).0 ≡ true
  unfolding step
  is_cancelled-step (catching left []) w h = ground arith
  is_cancelled-step (catching left (r ∷ rs)) w h = ground arith
  is_cancelled-step (thenning []) w h = ground arith
  is_cancelled-step (thenning (r ∷ rs)) w h = ground arith
  is_cancelled-step (finallying []) w h = ground arith
  is_cancelled-step (finallying (r ∷ rs)) w h = ground arith
  is_cancelled-step _ w h = ground arith

  pub is_finished-step :
      (pc : Pc) (w : World) → is_finished w ≡ true → is_finished (step raises o now pc w).0 ≡ true
  unfolding step
  is_finished-step (catching left []) w h = ground arith
  is_finished-step (catching left (r ∷ rs)) w h = ground arith
  is_finished-step (thenning []) w h = ground arith
  is_finished-step (thenning (r ∷ rs)) w h = ground arith
  is_finished-step (finallying []) w h = ground arith
  is_finished-step (finallying (r ∷ rs)) w h = ground arith
  is_finished-step _ w h = ground arith

  abbrev pub StaysIdle : World → World × Pc → Type 0
  StaysIdle w (w', pc') =
      (w'.thened ≡ w.thened)
      × (w'.finalled ≡ w.finalled)
      × (((is_finished w' ≡ is_finished w) × (owns pc' ≡ false))
          ⊎ ((is_finished w ≡ false)
              × (is_finished w' ≡ true)
              × ((pc' ≡ checking) ⊎ (pc' ≡ finding))))

  pub idle-step : (pc : Pc) (w : World) → owns pc ≡ false → StaysIdle w (step raises o now pc w)
  unfolding step
  idle-step (catching left []) w h = ground arith
  idle-step (catching left (r ∷ rs)) w h = ground arith
  idle-step (thenning []) w h = cc
  idle-step (thenning (r ∷ rs)) w h = cc
  idle-step (finallying []) w h = cc
  idle-step (finallying (r ∷ rs)) w h = cc
  idle-step checking w h = cc
  idle-step finding w h = cc
  idle-step _ w h = ground arith

  -- One step of the winner.
  pub Held-step :
      (pc : Pc) (w : World)
      → is_present w ≡ true
      → Held o w pc
      → Held o (step raises o now pc w).0 (step raises o now pc w).1
  unfolding step
  Held-step checking w p h = ground arith
  Held-step finding w p h = ground arith
  Held-step (thenning []) w p h = ground (arith, append-nil w.thened)
  Held-step (thenning (r ∷ rs)) w p h = elim (Bool-cases (raises r)) [
    | inl bad ↦ rw bad (
      (rs, append_assoc w.thened (r ∷ []) rs ∙ h.0),
      Begins-of_nil w.finalled o.finally_refs h.1,
      inl h.1,
    )
    | inr good ↦ rw good (append_assoc w.thened (r ∷ []) rs ∙ h.0, h.1)
  ]
  Held-step (finallying []) w p h = ground (arith, append-nil w.finalled)
  Held-step (finallying (r ∷ rs)) w p h = elim (Bool-cases (raises r)) [
    | inl bad ↦
        rw bad
          (ThenSettled-Begins o w h.1, (rs, append_assoc w.finalled (r ∷ []) rs ∙ h.0), inr h.1)
    | inr good ↦ rw good (append_assoc w.finalled (r ∷ []) rs ∙ h.0, h.1)
  ]
  Held-step returned w p h = h
  Held-step raised w p h = h
  Held-step (settle _) w p h = absurd h
  Held-step (count _) w p h = absurd h
  Held-step (reread _) w p h = absurd h
  Held-step (cancelling _) w p h = absurd h
  Held-step (catching _ _) w p h = absurd h
  Held-step (closing _) w p h = absurd h
  Held-step closing_empty w p h = absurd h
