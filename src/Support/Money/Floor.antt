-- ===== src/Support/Money/Floor.antt =====
-- src/arvel/support/money.py: the floor divisions of `allocate`, and what they leave over.
use mathlib.Core.List.{foldl}
use mathlib.Core.Path.{subst}
use native.Mathlib.Nat.{div-add-mod, mod-lt, le_of_mul-le-mul_left}
use arvel.Common.{ℕ, ◌+◌, ◌-◌, ◌*◌, ◌≤◌, ◌<◌, ◌≡◌, refl, false, List, [], ◌∷◌, map, arith}
use arvel.Common.Int.{
  ℤ, pos, negsuc, pos_part, neg_part, ◌*ℤ◌, ◌+ℤ◌, ◌-ℤ◌, floor_div, floor_mod, ltb_ℤ, leb_ℤ,
  +ℤ_parts,
}
use arvel.Common.Lists.{length}
use arvel.Support.Money.{sum, any_negative, share}

-- a = t * (a // t) + a % t, with the negative parts on the other side
floor_parts :
    (x : ℤ) (t : ℕ)
    → 0 < t
    → t * pos_part (floor_div x t) + floor_mod x t + neg_part x
      ≡ t * neg_part (floor_div x t) + pos_part x
unfolding floor_div floor_mod
floor_parts (pos n) t h = omega (arith, div-add-mod n t)
floor_parts (negsuc n) t h = omega (arith, div-add-mod n t, mod-lt n h)

floor_mod-lt : (x : ℤ) (t : ℕ) → 0 < t → floor_mod x t < t
unfolding floor_mod
floor_mod-lt (pos n) t h = mod-lt n h
floor_mod-lt (negsuc n) t h = omega arith

*ℤ_parts :
    (a : ℤ) (k : ℕ)
    → pos_part (a *ℤ pos k) + neg_part a * k ≡ neg_part (a *ℤ pos k) + pos_part a * k
unfolding ◌*ℤ◌
*ℤ_parts (pos n) k = grind arith
*ℤ_parts (negsuc n) k = grind arith

-- the parts of a list of integers, added up apart
abbrev pub pos_sum : List ℤ → ℕ
pos_sum [] = 0
pos_sum (x ∷ xs) = pos_part x + pos_sum xs

abbrev pub neg_sum : List ℤ → ℕ
neg_sum [] = 0
neg_sum (x ∷ xs) = neg_part x + neg_sum xs

foldl_parts :
    (xs : List ℤ) (acc : ℤ)
    → pos_part (foldl ◌+ℤ◌ acc xs) + neg_part acc + neg_sum xs
      ≡ neg_part (foldl ◌+ℤ◌ acc xs) + pos_part acc + pos_sum xs
foldl_parts [] acc = omega arith
foldl_parts (x ∷ xs) acc = omega (arith, foldl_parts xs (acc +ℤ x), +ℤ_parts acc x)

pub sum_parts : (xs : List ℤ) → pos_part (sum xs) + neg_sum xs ≡ neg_part (sum xs) + pos_sum xs
sum_parts xs = omega (arith, foldl_parts xs (pos 0))

nonneg_parts : (r : ℤ) → ltb_ℤ r (pos 0) ≡ false → neg_part r ≡ 0
nonneg_parts (pos n) h = refl
nonneg_parts (negsuc n) h = ground arith

pub neg_sum_zero : (rs : List ℤ) → any_negative rs ≡ false → neg_sum rs ≡ 0
neg_sum_zero [] h = refl
neg_sum_zero (r ∷ rs) h = ground (arith, nonneg_parts r, neg_sum_zero rs)

-- The shares by floor division, times the total, and what they leave over, make up the amount
-- times the ratios; each share leaves less than the total.
module _ (a : ℤ) (total : ℤ) where
  left_over : List ℤ → ℕ
  left_over [] = 0
  left_over (r ∷ rs) = floor_mod (a *ℤ r) (pos_part total) + left_over rs

  left_over-le :
      (rs : List ℤ) → 0 < pos_part total → left_over rs + length rs ≤ pos_part total * length rs
  unfolding left_over
  left_over-le [] h = omega arith
  left_over-le (r ∷ rs) h =
      omega (arith, left_over-le rs h, floor_mod-lt (a *ℤ r) (pos_part total) h)

  shares_balance :
      (rs : List ℤ)
      → 0 < pos_part total
      → any_negative rs ≡ false
      → let t = pos_part total in
        let shares = map (share a total) rs in
        t * pos_sum shares + left_over rs + neg_part a * pos_sum rs
        ≡ t * neg_sum shares + pos_part a * pos_sum rs
  unfolding left_over
  shares_balance [] h n = omega arith
  shares_balance (pos k ∷ rs) h n = omega (
    arith,
    shares_balance rs h (ground arith),
    floor_parts (a *ℤ pos k) (pos_part total) h,
    *ℤ_parts a k,
  )
  shares_balance (negsuc k ∷ rs) h n = ground arith

-- what the balance says of the remainder
squeeze :
    (t x y m n a b : ℕ)
    → 0 < t
    → t * x + m + b * t ≡ t * y + a * t
    → m + n ≤ t * n
    → (x + b ≤ y + a) × (y + a ≤ x + b + n)
squeeze t x y m n a b h e l = (
  le_of_mul-le-mul_left {k = t} (omega (arith, e)) h,
  le_of_mul-le-mul_left {k = t} (omega (arith, e, l)) h,
)

pub positive_part : (x : ℤ) → leb_ℤ x (pos 0) ≡ false → (0 < pos_part x) × (neg_part x ≡ 0)
positive_part (pos n) h = ground arith
positive_part (negsuc n) h = ground arith

remainder_of_bounds :
    (a s : ℤ) (n p q : ℕ)
    → pos_part s + q ≡ neg_part s + p
    → p + neg_part a ≤ q + pos_part a
    → q + pos_part a ≤ p + neg_part a + n
    → (k : ℕ) × (a -ℤ s ≡ pos k) × (k ≤ n)
unfolding ◌-ℤ◌
remainder_of_bounds a s n p q e l u =
    (pos_part a + neg_part s - (neg_part a + pos_part s), ground arith, omega (arith, e, l, u))

-- After the floor divisions, between nothing and one unit for each share is left to hand out.
pub remainder_bounds :
    (a : ℤ) (rs : List ℤ)
    → leb_ℤ (sum rs) (pos 0) ≡ false
    → any_negative rs ≡ false
    → (k : ℕ) × (a -ℤ sum (map (share a (sum rs)) rs) ≡ pos k) × (k ≤ length rs)
remainder_bounds a rs h n =
    let t = pos_part (sum rs) in
    let shares = map (share a (sum rs)) rs in
    let (positive, no_neg) = positive_part (sum rs) h in
    let total : pos_sum rs ≡ t = omega (arith, sum_parts rs, neg_sum_zero rs n, no_neg) in
    let balance : t * pos_sum shares + left_over a (sum rs) rs + neg_part a * t
        ≡ t * neg_sum shares + pos_part a * t =
      subst
        (λ k.
          t * pos_sum shares + left_over a (sum rs) rs + neg_part a * k
          ≡ t * neg_sum shares + pos_part a * k)
        total (shares_balance a (sum rs) rs positive n) in
    let (low, high) =
      squeeze t (pos_sum shares) (neg_sum shares) (left_over a (sum rs) rs) (length rs) (pos_part a)
        (neg_part a) positive balance (left_over-le a (sum rs) rs positive) in
    remainder_of_bounds a (sum shares) (length rs) (pos_sum shares) (neg_sum shares)
      (sum_parts shares) low high
