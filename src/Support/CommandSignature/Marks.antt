-- ===== src/Support/CommandSignature/Marks.antt =====
-- src/arvel/support/command_signature.py: texts without a mark, and the mark behind them.
use mathlib.Core.List.{append_assoc, append-nil}
use arvel.Common.{
  ℕ, ◌≡◌, refl, sym, ap, Bool, true, false, not, ◌&&◌, none, some, [], ◌∷◌, ◌++◌, ◌==◌, arith,
  ==_iff,
}
use arvel.Common.Text.{ends_in, but_last, partition}
use arvel.Support.CommandSignature.{Text, find_from, brace_of, push}

-- no character of the text is the mark
abbrev pub free : ℕ → Text → Bool
free mark [] = true
free mark (c ∷ s) = not (c == mark) && free mark s

pub free-append : (mark : ℕ) (s t : Text) → free mark (s ++ t) ≡ free mark s && free mark t
free-append mark [] t = refl
free-append mark (c ∷ s) t = ground (arith, free-append mark s t)

pub partition_none : (mark : ℕ) (s : Text) → free mark s ≡ true → partition mark s ≡ (s, false, [])
partition_none mark [] h = refl
partition_none mark (c ∷ s) h = ground (arith, h, partition_none mark s)

pub partition_at :
    (mark : ℕ) (s t : Text) → free mark s ≡ true → partition mark (s ++ mark ∷ t) ≡ (s, true, t)
partition_at mark [] t h = ground (arith, ==_iff mark mark)
partition_at mark (c ∷ s) t h = ground (arith, h, partition_at mark s t)

pub ends_in_none : (mark : ℕ) (s : Text) → free mark s ≡ true → ends_in mark s ≡ false
ends_in_none mark [] h = refl
ends_in_none mark (c ∷ []) h = ground (arith, h)
ends_in_none mark (c ∷ d ∷ s) h = ground (arith, h, ends_in_none mark (d ∷ s))

pub ends_in_last : (mark c : ℕ) (s : Text) → ends_in mark (s ++ c ∷ []) ≡ (c == mark)
ends_in_last mark c [] = refl
ends_in_last mark c (d ∷ []) = refl
ends_in_last mark c (d ∷ e ∷ s) = ends_in_last mark c (e ∷ s)

pub but_last-append : (c : ℕ) (s : Text) → but_last (s ++ c ∷ []) ≡ s
but_last-append c [] = refl
but_last-append c (d ∷ []) = refl
but_last-append c (d ∷ e ∷ s) = ap (λ (t : Text). d ∷ t) (but_last-append c (e ∷ s))

-- the text has no braces
abbrev pub braceless : Text → Bool
braceless s = free b'{' s && free b'}' s

pub find_from_read :
    (read s rest : Text)
    → braceless s ≡ true
    → find_from (some read) (s ++ b'}' ∷ rest) ≡ push (read ++ s) (find_from none rest)
unfolding find_from brace_of
find_from_read read [] rest h =
    ap (λ (t : Text). push t (find_from none rest)) (sym (append-nil read))
find_from_read read (c ∷ s) rest h =
    ground (arith, h, find_from_read (read ++ c ∷ []) s rest, append_assoc read (c ∷ []) s)

pub find_from_outside :
    (s rest : Text) → braceless s ≡ true → find_from none (s ++ rest) ≡ find_from none rest
unfolding find_from brace_of
find_from_outside [] rest h = refl
find_from_outside (c ∷ s) rest h = ground (arith, h, find_from_outside s rest)
