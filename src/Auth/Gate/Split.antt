-- ===== src/Auth/Gate/Split.antt =====
-- src/arvel/auth/gate.py: the parts that `_split_top_level` makes of a text.
use arvel.Common.{
  ℕ, true, false, ◌&&◌, List, [], ◌∷◌, ◌++◌, Bool-cases, inl, inr, ◌==◌, ◌≡◌, refl, sym, ap, ◌∙◌,
  arith, ==_iff,
}
use arvel.Common.Int.{ℤ, pos, int_eq, eq_of_parts}
use mathlib.Core.List.{append_assoc, append-nil}
use arvel.Auth.Gate.Annotation.{deeper, split_from, split_top_level}

-- `sep.join(parts)`
unfoldable pub join : ℕ → List (List ℕ) → List ℕ
join sep [] = []
join sep (p ∷ []) = p
join sep (p ∷ q ∷ ps) = p ++ sep ∷ join sep (q ∷ ps)

join-split_from :
    (sep : ℕ) (depth : ℤ) (p current text : List ℕ)
    → (join sep (split_from sep depth current text) ≡ current ++ text)
      × (join sep (p ∷ split_from sep depth current text) ≡ p ++ sep ∷ (current ++ text))
unfolding join split_from
join-split_from sep depth p current [] =
    (sym (append-nil current), ap (λ (l : List ℕ). p ++ sep ∷ l) (sym (append-nil current)))
join-split_from sep depth p current (c ∷ text) = ground (
  arith,
  ==_iff c sep,
  join-split_from sep (deeper c depth) current [] text,
  join-split_from sep (deeper c depth) p (current ++ c ∷ []) text,
  append_assoc current (c ∷ []) text,
)

-- The loop, at this depth and with this `current`, has cut nothing since it began.
Uncut : ℕ → ℤ → List ℕ → Type 0
Uncut sep depth current =
    (rest : List ℕ)
    → split_from sep (pos 0) [] (current ++ rest) ≡ split_from sep depth current rest

Uncut-step :
    (sep : ℕ) (depth : ℤ) (c : ℕ) (current : List ℕ)
    → ((c == sep) && int_eq (deeper c depth) (pos 0)) ≡ false
    → Uncut sep depth current
    → Uncut sep (deeper c depth) (current ++ c ∷ [])
unfolding split_from Uncut
Uncut-step sep depth c current h u rest =
    ap (split_from sep (pos 0) []) (append_assoc current (c ∷ []) rest)
    ∙ u (c ∷ rest)
    ∙ ground (arith, h)

-- every part is one that a second pass leaves whole
unfoldable pub AllWhole : ℕ → List (List ℕ) → Type 0
AllWhole sep [] = Unit {0}
AllWhole sep (p ∷ ps) = (split_top_level p sep ≡ p ∷ []) × AllWhole sep ps

Uncut-start : (sep : ℕ) (depth : ℤ) → int_eq depth (pos 0) ≡ true → Uncut sep depth []
unfolding Uncut
Uncut-start sep depth h rest =
    ap (λ (d : ℤ). split_from sep d [] rest) (sym (eq_of_parts depth (pos 0) (ground (arith, h))))

whole_of :
    (sep : ℕ) (depth : ℤ) (current : List ℕ)
    → Uncut sep depth current
    → split_top_level current sep ≡ current ∷ []
unfolding Uncut split_top_level split_from
whole_of sep depth current u = ap (split_from sep (pos 0) []) (sym (append-nil current)) ∙ u []

split_from-AllWhole :
    (sep : ℕ) (depth : ℤ) (current text : List ℕ)
    → Uncut sep depth current
    → AllWhole sep (split_from sep depth current text)
unfolding AllWhole split_from
split_from-AllWhole sep depth current [] u = (whole_of sep depth current u, tt)
split_from-AllWhole sep depth current (c ∷ text) u =
    elim (Bool-cases ((c == sep) && int_eq (deeper c depth) (pos 0))) [
      | inl h ↦
          rw (h, AllWhole)
            (
              whole_of sep depth current u,
              split_from-AllWhole sep (deeper c depth) [] text
                  (Uncut-start sep (deeper c depth) (ground (arith, h))),
            )
      | inr h ↦
          rw (h, AllWhole)
            (split_from-AllWhole sep (deeper c depth) (current ++ c ∷ []) text
              (Uncut-step sep depth c current h u))
    ]

-- The parts put together again with the separator give the text, and each of them has no separator
-- left outside its brackets: a second pass leaves it whole.
pub split_top_level_lem :
    (text : List ℕ) (sep : ℕ)
    → (join sep (split_top_level text sep) ≡ text) × AllWhole sep (split_top_level text sep)
unfolding split_top_level
split_top_level_lem text sep = (
  (join-split_from sep (pos 0) [] [] text).0,
  split_from-AllWhole sep (pos 0) [] text (Uncut-start sep (pos 0) refl),
)
