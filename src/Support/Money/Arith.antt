-- ===== src/Support/Money/Arith.antt =====
-- src/arvel/support/money.py: sums, differences and comparisons.
use arvel.Common.{◌≡◌, Bool, true, false, not, arith, ◌&&◌}
use arvel.Common.Int.{ℤ, pos, ◌+ℤ◌, ◌-ℤ◌, ltb_ℤ, leb_ℤ, int_laws}
use arvel.Support.Money.{
  Money, Result, ok, err, currency_mismatch, same_currency, plus, minus, negative, absolute, equals,
  greater_than, less_than, greater_than_or_equal, less_than_or_equal,
}

add_sub : (a b : ℤ) → a +ℤ b -ℤ b ≡ a
add_sub a b = omega int_laws

sub_add : (a b : ℤ) → a -ℤ b +ℤ b ≡ a
sub_add a b = omega int_laws

-- What a sum or a difference gives back, when the other amount is taken off or put on again; two
-- currencies are refused by both.
abbrev pub Inverts : (Money → Money → Result Money) → Money → Money → Result Money → Type 0
Inverts back m n (ok s) = back s n ≡ ok m
Inverts back m n (err e) = (e ≡ currency_mismatch) × (same_currency m n ≡ false)

-- `minus` undoes `plus` and `plus` undoes `minus`; both raise exactly on two currencies.
pub plus-minus : (m n : Money) → Inverts minus m n (plus m n) × Inverts plus m n (minus m n)
unfolding plus minus
plus-minus m n = ground (arith, add_sub m.amount n.amount, sub_add m.amount n.amount)

-- Within a currency the four comparisons, `compare` and `equals` agree with the order of the amounts,
-- so exactly one of less, equal and greater holds; between two currencies `compare` and the four
-- raise, and nothing is equal.
pub comparisons_agree :
    (m n : Money)
    → let same = same_currency m n in
      let answer : Bool → Result Bool =
        λ b. elim same [ true ↦ ok b | false ↦ err currency_mismatch ] in
      (less_than m n ≡ answer (ltb_ℤ m.amount n.amount))
      × (greater_than m n ≡ answer (ltb_ℤ n.amount m.amount))
      × (less_than_or_equal m n ≡ answer (not (ltb_ℤ n.amount m.amount)))
      × (greater_than_or_equal m n ≡ answer (not (ltb_ℤ m.amount n.amount)))
      × (equals m n ≡ same && not (ltb_ℤ m.amount n.amount) && not (ltb_ℤ n.amount m.amount))
unfolding less_than greater_than less_than_or_equal greater_than_or_equal equals ◌-ℤ◌
comparisons_agree m n = (ground arith, ground arith, ground arith, ground arith, ground arith)

-- The absolute value is never negative, and `negative` undoes itself.
pub absolute_lem :
    (m : Money)
    → (leb_ℤ (pos 0) (absolute m).amount ≡ true)
      × (absolute (negative m) ≡ absolute m)
      × (negative (negative m) ≡ m)
unfolding absolute negative ◌-ℤ◌
absolute_lem m = (ground arith, ground arith, ground arith)
