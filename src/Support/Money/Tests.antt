-- ===== src/Support/Money/Tests.antt =====
-- Money at concrete amounts.
use arvel.Common.{ℕ, ◌≡◌, refl, Bool, [], ◌∷◌, ltb}
use arvel.Common.Int.{ℤ, pos, negsuc, pos_part, floor_mod, ◌*ℤ◌, ◌+ℤ◌, ◌-ℤ◌, floor_div}
use arvel.Support.Money.{Money, ok, err, allocate, hand_out, handing_order, currency, invalid_code}
use arvel.Support.Money.Allocate.{Allocated, allocate_lem}

-- the exact fraction, as a number of `total`-ths
abbrev exact : ℤ → ℤ → ℤ → ℕ
exact amount ratio total = floor_mod (amount *ℤ ratio) (pos_part total)

abbrev more : ℕ → ℕ → Bool
more a b = ltb b a

abbrev usd : ℤ → Money
usd a = record { amount = a; currency = "USD" }

thirds :
    allocate exact more (usd (pos 1000)) (pos 1 ∷ pos 1 ∷ pos 1 ∷ [])
    ≡ ok (usd (pos 334) ∷ usd (pos 333) ∷ usd (pos 333) ∷ [])
unfolding allocate hand_out handing_order floor_div floor_mod ◌*ℤ◌ ◌+ℤ◌ ◌-ℤ◌
thirds = refl

owed :
    allocate exact more (usd (negsuc 9)) (pos 1 ∷ pos 0 ∷ pos 2 ∷ [])
    ≡ ok (usd (negsuc 2) ∷ usd (pos 0) ∷ usd (negsuc 6) ∷ [])
unfolding allocate hand_out handing_order floor_div floor_mod ◌*ℤ◌ ◌+ℤ◌ ◌-ℤ◌
owed = refl

code_refused : currency (λ c. c) (b'U' ∷ b'1' ∷ b'D' ∷ []) ≡ err invalid_code
unfolding currency
code_refused = refl

allocate_lem_example :
    Allocated exact more
      (usd (pos 100))
      (pos 3 ∷ pos 4 ∷ [])
      (allocate exact more (usd (pos 100)) (pos 3 ∷ pos 4 ∷ []))
allocate_lem_example = allocate_lem exact more (usd (pos 100)) (pos 3 ∷ pos 4 ∷ [])

abbrev eur : Money
eur = record { amount = pos 5; currency = "EUR" }
