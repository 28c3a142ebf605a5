-- ===== src/Common/Keyed.antt =====
-- Python's `dict` whose keys are of a type with a Boolean equality.
use mathlib.Core.Path.{◌≡◌, refl}
use mathlib.Core.Logic.{◌↔◌}
use mathlib.Core.Bool.{Bool, true}
use mathlib.Core.Option.{Option, none, some}
use mathlib.Core.List.{List, [], ◌∷◌}
use native.Mathlib.Omega.{arith}
use arvel.Common.Tests.{if◌then◌else◌}

abbrev pub Keyed {ℓ} : Type 0 → Type ℓ → Type ℓ
Keyed K V = List (K × V)

module _ {ℓ} {K : Type 0} (same : K → K → Bool) {V : Type ℓ} where
  unfoldable pub find : K → Keyed K V → Option V
  find k [] = none
  find k ((j, v) ∷ d) = if same j k then some v else find k d

  unfoldable pub store : K → V → Keyed K V → Keyed K V
  store k v [] = (k, v) ∷ []
  store k v ((j, w) ∷ d) = if same j k then (j, v) ∷ d else (j, w) ∷ store k v d

  unfoldable pub remove : K → Keyed K V → Keyed K V
  remove k [] = []
  remove k ((j, w) ∷ d) = let rest = remove k d in if same j k then rest else (j, w) ∷ rest

  module _ (same_iff : (j k : K) → (same j k ≡ true) ↔ (j ≡ k)) where
    pub find-store :
        (k j : K) (v : V) (d : Keyed K V)
        → find j (store k v d) ≡ (if same k j then some v else find j d)
    unfolding find store
    find-store k j v [] = refl
    find-store k j v ((i, w) ∷ d) =
        ground (arith, same_iff k j, same_iff i k, same_iff i j, find-store k j v d)

    pub find-remove :
        (k j : K) (d : Keyed K V) → find j (remove k d) ≡ (if same k j then none else find j d)
    unfolding find remove
    find-remove k j [] = ground arith
    find-remove k j ((i, w) ∷ d) =
        ground (arith, same_iff k j, same_iff i k, same_iff i j, find-remove k j d)
