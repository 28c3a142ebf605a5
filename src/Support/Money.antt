-- ===== src/Support/Money.antt =====
-- src/arvel/support/money.py: amounts in minor units of a currency.
pub mod Floor
pub mod Allocate
pub mod Arith
mod Tests
use mathlib.Core.List.{foldl}
use arvel.Common.{
  ℕ, zero, suc, ◌+◌, String, Bool, true, false, not, ◌&&◌, ◌||◌, List, [], ◌∷◌, ◌++◌, map,
  if◌then◌else◌, ◌==◌, str_eq, leb, Option, none, some,
}
use arvel.Common.Int.{ℤ, pos, negsuc, pos_part, ◌+ℤ◌, ◌-ℤ◌, ◌*ℤ◌, ltb_ℤ, leb_ℤ, int_eq, floor_div}
use arvel.Common.Lists.{length}

-- the `ValueError`s
pub data Error : Type 0 where
  invalid_code currency_mismatch no_ratio negative_ratio : Error

pub data Result {ℓ} (A : Type ℓ) : Type ℓ where
  ok : A → Result A
  err : Error → Result A

-- an ISO-4217 code; two currencies are equal if their codes are
pub record Money : Type 0 where
  pub amount : ℤ
  pub currency : String

abbrev is_upper_letter : ℕ → Bool
is_upper_letter c = leb b'A' c && leb c b'Z'

abbrev is_lower_letter : ℕ → Bool
is_lower_letter c = leb b'a' c && leb c b'z'

all_letters : List ℕ → Bool
all_letters [] = true
all_letters (c ∷ cs) = (is_upper_letter c || is_lower_letter c) && all_letters cs

-- `Currency.__init__`, on the characters of the code; `upper` is Python's
unfoldable pub currency : (List ℕ → List ℕ) → List ℕ → Result (List ℕ)
unfolding all_letters
currency upper code =
    let code' = upper code in
    if not (length code' == 3) || not (all_letters code') then err invalid_code else ok code'

unfoldable pub same_currency : Money → Money → Bool
same_currency m n = str_eq m.currency n.currency

unfoldable pub plus : Money → Money → Result Money
unfolding same_currency
plus m n =
    if same_currency m n
    then ok (record m { amount = m.amount +ℤ n.amount })
    else err currency_mismatch

unfoldable pub minus : Money → Money → Result Money
unfolding same_currency
minus m n =
    if same_currency m n
    then ok (record m { amount = m.amount -ℤ n.amount })
    else err currency_mismatch

unfoldable pub negative : Money → Money
negative m = record m { amount = pos 0 -ℤ m.amount }

unfoldable pub absolute : Money → Money
absolute m = record m { amount = if ltb_ℤ m.amount (pos 0) then pos 0 -ℤ m.amount else m.amount }

abbrev pub sum : List ℤ → ℤ
sum = foldl ◌+ℤ◌ (pos 0)

abbrev pub any_negative : List ℤ → Bool
any_negative [] = false
any_negative (r ∷ rs) = ltb_ℤ r (pos 0) || any_negative rs

-- `shares[index] += 1`
unfoldable pub add_one_at : ℕ → List ℤ → List ℤ
add_one_at i [] = []
add_one_at zero (x ∷ xs) = (x +ℤ pos 1) ∷ xs
add_one_at (suc i) (x ∷ xs) = x ∷ add_one_at i xs

-- the loop over the sorted indices, which breaks when nothing is left to hand out
unfoldable pub hand_out : List ℕ → ℤ → List ℤ → List ℤ
unfolding add_one_at
hand_out [] remainder shares = shares
hand_out (i ∷ is) remainder shares =
    let rest = hand_out is (remainder -ℤ pos 1) (add_one_at i shares) in
    if leb_ℤ remainder (pos 0) then shares else rest

abbrev pub share : ℤ → ℤ → ℤ → ℤ
share amount total ratio = floor_div (amount *ℤ ratio) (pos_part total)

abbrev pub index_of {ℓ} : {Fraction : Type ℓ} → ℕ × Fraction → ℕ
index_of (k, _) = k

-- The fractions are Python floats, `(amount * ratio / total) % 1`, and are only compared: their type
-- and the test `a > b` are parameters.
module _ {Fraction : Type 0} (fraction : ℤ → ℤ → ℤ → Fraction)
    (above : Fraction → Fraction → Bool) where
  unfoldable pub fractions_from : ℕ → ℤ → ℤ → List ℤ → List (ℕ × Fraction)
  fractions_from k amount total [] = []
  fractions_from k amount total (r ∷ rs) =
      (k, fraction amount r total) ∷ fractions_from (suc k) amount total rs

  -- `sorted(…, reverse=True)`: the larger first, equal ones in their order
  unfoldable pub insert_by : ℕ × Fraction → List (ℕ × Fraction) → List (ℕ × Fraction)
  insert_by x [] = x ∷ []
  insert_by x (y ∷ ys) = if above x.1 y.1 then x ∷ y ∷ ys else y ∷ insert_by x ys

  unfoldable pub sort_by : List (ℕ × Fraction) → List (ℕ × Fraction) → List (ℕ × Fraction)
  unfolding insert_by
  sort_by sorted [] = sorted
  sort_by sorted (x ∷ xs) = sort_by (insert_by x sorted) xs

  unfoldable pub handing_order : ℤ → ℤ → List ℤ → List ℕ
  unfolding fractions_from sort_by
  handing_order amount total ratios =
      map index_of (sort_by [] (fractions_from 0 amount total ratios))

  unfoldable pub allocate : Money → List ℤ → Result (List Money)
  allocate m ratios =
      let total = sum ratios in
      let shares = map (share m.amount total) ratios in
      if leb_ℤ total (pos 0)
      then err no_ratio
      else if any_negative ratios
      then err negative_ratio
      else ok (
          map (λ x. record m { amount = x })
            (hand_out (handing_order m.amount total ratios) (m.amount -ℤ sum shares) shares))

  abbrev ones : ℕ → List ℤ
  ones zero = []
  ones (suc n) = pos 1 ∷ ones n

  -- `[1] * n`; a negative `n` is the empty list too
  unfoldable pub allocate_to : Money → ℕ → Result (List Money)
  unfolding allocate
  allocate_to m n = allocate m (ones n)

-- `compare`: -1, 0 or 1
unfoldable pub compare : Money → Money → Result ℤ
unfolding same_currency
compare m n =
    if same_currency m n
    then ok (
        (if ltb_ℤ n.amount m.amount then pos 1 else pos 0)
        -ℤ (if ltb_ℤ m.amount n.amount then pos 1 else pos 0))
    else err currency_mismatch

-- `equals` and `__eq__`
unfoldable pub equals : Money → Money → Bool
unfolding same_currency
equals m n = same_currency m n && int_eq m.amount n.amount

abbrev decide_by : (ℤ → Bool) → Result ℤ → Result Bool
decide_by test (ok n) = ok (test n)
decide_by test (err e) = err e

unfoldable pub greater_than : Money → Money → Result Bool
unfolding compare
greater_than m n = decide_by (λ k. ltb_ℤ (pos 0) k) (compare m n)

unfoldable pub greater_than_or_equal : Money → Money → Result Bool
unfolding compare
greater_than_or_equal m n = decide_by (λ k. leb_ℤ (pos 0) k) (compare m n)

unfoldable pub less_than : Money → Money → Result Bool
unfolding compare
less_than m n = decide_by (λ k. ltb_ℤ k (pos 0)) (compare m n)

unfoldable pub less_than_or_equal : Money → Money → Result Bool
unfolding compare
less_than_or_equal m n = decide_by (λ k. leb_ℤ k (pos 0)) (compare m n)

unfoldable pub is_zero : Money → Bool
is_zero m = int_eq m.amount (pos 0)

unfoldable pub is_positive : Money → Bool
is_positive m = ltb_ℤ (pos 0) m.amount

unfoldable pub is_negative : Money → Bool
is_negative m = ltb_ℤ m.amount (pos 0)
