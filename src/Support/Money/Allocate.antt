-- ===== src/Support/Money/Allocate.antt =====
-- src/arvel/support/money.py: the shares of `allocate`.
use arvel.Common.{
  ℕ, zero, suc, ◌+◌, ◌≤◌, ◌<◌, ◌≡◌, refl, true, false, List, [], ◌∷◌, map, arith, Bool, Bool-cases,
  inl, inr, ◌∙◌, ap, String,
}
use arvel.Common.Int.{ℤ, pos, ◌+ℤ◌, ◌-ℤ◌, leb_ℤ, int_laws, +ℤ_parts}
use arvel.Common.Lists.{length, length-map}
use arvel.Support.Money.{
  Money, Result, ok, err, no_ratio, negative_ratio, sum, any_negative, share, add_one_at, hand_out,
  fractions_from, insert_by, sort_by, handing_order, index_of, allocate,
}
use arvel.Support.Money.Floor.{remainder_bounds, sum_parts, pos_sum, neg_sum}

-- All indices of the list are below `n`.
abbrev AllBelow : ℕ → List ℕ → Type 0
AllBelow n [] = Unit
AllBelow n (i ∷ is) = (i < n) × AllBelow n is

sum_of_parts :
    (xs ys : List ℤ) (k : ℕ)
    → pos_sum ys + neg_sum xs ≡ neg_sum ys + pos_sum xs + k
    → sum ys ≡ sum xs +ℤ pos k
sum_of_parts xs ys k e = omega (int_laws, e, sum_parts xs, sum_parts ys)

add_one_parts :
    (i : ℕ) (xs : List ℤ)
    → i < length xs
    → pos_sum (add_one_at i xs) + neg_sum xs ≡ neg_sum (add_one_at i xs) + pos_sum xs + 1
unfolding add_one_at
add_one_parts i [] h = elim h [ ]
add_one_parts zero (x ∷ xs) h = omega (arith, +ℤ_parts x (pos 1))
add_one_parts (suc i) (x ∷ xs) h = omega (arith, add_one_parts i xs (omega arith))

length-add_one_at : (i : ℕ) (xs : List ℤ) → length (add_one_at i xs) ≡ length xs
unfolding add_one_at
length-add_one_at i [] = refl
length-add_one_at zero (x ∷ xs) = refl
length-add_one_at (suc i) (x ∷ xs) = omega (arith, length-add_one_at i xs)

hand_out_step :
    (i : ℕ) (is : List ℕ) (k : ℕ) (xs : List ℤ)
    → hand_out (i ∷ is) (pos (suc k)) xs ≡ hand_out is (pos k) (add_one_at i xs)
unfolding hand_out ◌-ℤ◌
hand_out_step i is k xs = ground arith

-- The loop hands out the whole remainder, if there are indices enough.
hand_out_parts :
    (is : List ℕ) (k : ℕ) (xs : List ℤ)
    → AllBelow (length xs) is
    → k ≤ length is
    → let ys = hand_out is (pos k) xs in pos_sum ys + neg_sum xs ≡ neg_sum ys + pos_sum xs + k
unfolding hand_out
hand_out_parts [] k xs b h = omega arith
hand_out_parts (i ∷ is) zero xs b h = omega arith
hand_out_parts (i ∷ is) (suc k) xs b h = rw (hand_out_step i is k xs) (
    omega (
      arith,
      hand_out_parts is k (add_one_at i xs) (rw (length-add_one_at i xs) b.1) (omega arith),
      add_one_parts i xs b.0,
    ))

length-hand_out : (is : List ℕ) (r : ℤ) (xs : List ℤ) → length (hand_out is r xs) ≡ length xs
unfolding hand_out
length-hand_out [] r xs = refl
length-hand_out (i ∷ is) r xs =
    ground (arith, length-hand_out is (r -ℤ pos 1) (add_one_at i xs), length-add_one_at i xs)

abbrev in_currency : Money → ℤ → Money
in_currency m x = record m { amount = x }

abbrev pub amount_of : Money → ℤ
amount_of m = m.amount

-- All the amounts are in one currency.
abbrev pub AllIn : String → List Money → Type 0
AllIn c [] = Unit
AllIn c (m ∷ ms) = (m.currency ≡ c) × AllIn c ms

in_currency-AllIn : (m : Money) (xs : List ℤ) → AllIn m.currency (map (in_currency m) xs)
in_currency-AllIn m [] = tt
in_currency-AllIn m (x ∷ xs) = (refl, in_currency-AllIn m xs)

amounts_in_currency : (m : Money) (xs : List ℤ) → map amount_of (map (in_currency m) xs) ≡ xs
amounts_in_currency m [] = refl
amounts_in_currency m (x ∷ xs) = rw (amounts_in_currency m xs)

-- The shares with the remainder handed out along a list of as many indices.
restore : (a s r : ℤ) → a -ℤ s ≡ r → s +ℤ r ≡ a
restore a s r e = rw (← e) (omega int_laws)

handed_sum :
    (a : ℤ) (rs : List ℤ) (is : List ℕ)
    → AllBelow (length rs) is
    → length is ≡ length rs
    → leb_ℤ (sum rs) (pos 0) ≡ false
    → any_negative rs ≡ false
    → let shares = map (share a (sum rs)) rs in sum (hand_out is (a -ℤ sum shares) shares) ≡ a
handed_sum a rs is b l h n =
    let shares = map (share a (sum rs)) rs in
    let (k, e, le) = remainder_bounds a rs h n in
    let same : length shares ≡ length rs = length-map rs (share a (sum rs)) in
    rw e (
      sum_of_parts shares (hand_out is (pos k) shares) k
        (hand_out_parts is k shares (rw same b) (omega (arith, l, le)))
      ∙ restore a (sum shares) (pos k) e)

module _ {Fraction : Type 0} (fraction : ℤ → ℤ → ℤ → Fraction)
    (above : Fraction → Fraction → Bool) where
  insert_below :
      (n : ℕ) (x : ℕ × Fraction) (ys : List (ℕ × Fraction))
      → x.0 < n
      → AllBelow n (map index_of ys)
      → AllBelow n (map index_of (insert_by fraction above x ys))
        × (length (insert_by fraction above x ys) ≡ suc (length ys))
  unfolding insert_by
  insert_below n x [] h b = ((h, tt), refl)
  insert_below n x (y ∷ ys) h b = ground (arith, insert_below n x ys h b.1)

  sort_below :
      (n : ℕ) (sorted xs : List (ℕ × Fraction))
      → AllBelow n (map index_of sorted)
      → AllBelow n (map index_of xs)
      → AllBelow n (map index_of (sort_by fraction above sorted xs))
        × (length (sort_by fraction above sorted xs) ≡ length sorted + length xs)
  unfolding sort_by
  sort_below n sorted [] bs bx = (bs, omega arith)
  sort_below n sorted (x ∷ xs) bs bx =
      let (b, l) = insert_below n x sorted bx.0 bs in
      let (b', l') = sort_below n (insert_by fraction above x sorted) xs b bx.1 in
      (b', omega (arith, l, l'))

  fractions_below :
      (k n : ℕ) (amount total : ℤ) (rs : List ℤ)
      → k + length rs ≤ n
      → AllBelow n (map index_of (fractions_from fraction above k amount total rs))
        × (length (fractions_from fraction above k amount total rs) ≡ length rs)
  unfolding fractions_from
  fractions_below k n amount total [] h = (tt, refl)
  fractions_below k n amount total (r ∷ rs) h =
      let (b, l) = fractions_below (suc k) n amount total rs (omega arith) in
      ((omega arith, b), omega (arith, l))

  handing_order_lem :
      (amount total : ℤ) (rs : List ℤ)
      → AllBelow (length rs) (handing_order fraction above amount total rs)
        × (length (handing_order fraction above amount total rs) ≡ length rs)
  unfolding handing_order
  handing_order_lem amount total rs =
      let (b, l) = fractions_below 0 (length rs) amount total rs (omega arith) in
      let (b', l') =
        sort_below (length rs) [] (fractions_from fraction above 0 amount total rs) tt b in
      (
        b',
        omega (
          arith,
          l,
          l',
          length-map (sort_by fraction above [] (fractions_from fraction above 0 amount total rs))
              index_of,
        ),
      )

  -- The amounts add up, and are in the currency of the money; or the ratios are refused for the
  -- reason given.
  abbrev pub Allocated : Money → List ℤ → Result (List Money) → Type 0
  Allocated m rs (ok ms) =
      (sum (map amount_of ms) ≡ m.amount)
      × (length ms ≡ length rs)
      × AllIn m.currency ms
      × (leb_ℤ (sum rs) (pos 0) ≡ false)
      × (any_negative rs ≡ false)
  Allocated m rs (err no_ratio) = leb_ℤ (sum rs) (pos 0) ≡ true
  Allocated m rs (err negative_ratio) = any_negative rs ≡ true
  Allocated m rs (err _) = ⊥

  abbrev order : Money → List ℤ → List ℕ
  order m rs = handing_order fraction above m.amount (sum rs) rs

  abbrev floors : Money → List ℤ → List ℤ
  floors m rs = map (share m.amount (sum rs)) rs

  abbrev handed_shares : Money → List ℤ → List ℤ
  handed_shares m rs = hand_out (order m rs) (m.amount -ℤ sum (floors m rs)) (floors m rs)

  handed :
      (m : Money) (rs : List ℤ)
      → leb_ℤ (sum rs) (pos 0) ≡ false
      → any_negative rs ≡ false
      → Allocated m rs (ok (map (in_currency m) (handed_shares m rs)))
  handed m rs h n =
      let (b, l) = handing_order_lem m.amount (sum rs) rs in
      (
        ap sum (amounts_in_currency m (handed_shares m rs))
            ∙ handed_sum m.amount rs (order m rs) b l h n,
        length-map (handed_shares m rs) (in_currency m)
            ∙ length-hand_out (order m rs) (m.amount -ℤ sum (floors m rs)) (floors m rs)
            ∙ length-map rs (share m.amount (sum rs)),
        in_currency-AllIn m (handed_shares m rs),
        h,
        n,
      )

  -- `allocate` by whole ratios splits every amount, a negative one too, into one share for each
  -- ratio, and the shares add up to the amount, whatever the float fractions are and however they
  -- compare. It raises exactly where the ratios add up to nothing or less, or one is negative.
  pub allocate_lem : (m : Money) (rs : List ℤ) → Allocated m rs (allocate fraction above m rs)
  unfolding allocate
  allocate_lem m rs = elim (Bool-cases (leb_ℤ (sum rs) (pos 0))) [
    | inl nothing ↦ rw nothing nothing
    | inr some_total ↦ rw some_total (elim (Bool-cases (any_negative rs)) [
      | inl bad ↦ rw bad bad
      | inr good ↦ rw good (handed m rs some_total good)
    ])
  ]
