-- ===== src/Common/Unseen.antt =====
-- How many texts of a list have not been seen yet: the measure of a walk that never sees one twice.
use Prim.Native.Nat.{ℕ, ◌+◌, ◌≤◌, ◌<◌}
use Prim.Native.String.{String}
use mathlib.Core.Path.{◌≡◌}
use mathlib.Core.Bool.{Bool, true, false, ◌||◌}
use mathlib.Core.List.{List, [], ◌∷◌}
use native.Mathlib.Omega.{arith}
use text.Mathlib.Text.{◌==◌}
use text.Mathlib.TextEquality.{eq_iff}
use arvel.Common.Lists.{length}
use arvel.Common.Tests.{if◌then◌else◌}

unfoldable pub seen_in : List String → String → Bool
seen_in [] k = false
seen_in (j ∷ seen) k = j == k || seen_in seen k

unfoldable pub unseen : List String → List String → ℕ
unfolding seen_in
unseen [] seen = 0
unseen (k ∷ ks) seen = (if seen_in seen k then 0 else 1) + unseen ks seen

pub unseen_fewer : (ks seen : List String) (k : String) → unseen ks (k ∷ seen) ≤ unseen ks seen
unfolding unseen seen_in
unseen_fewer [] seen k = omega arith
unseen_fewer (j ∷ ks) seen k = ground (arith, unseen_fewer ks seen k)

-- seeing a new one
pub unseen_less :
    (ks seen : List String) (k : String)
    → seen_in ks k ≡ true
    → seen_in seen k ≡ false
    → unseen ks (k ∷ seen) < unseen ks seen
unfolding unseen seen_in
unseen_less [] seen k h n = ground arith
unseen_less (j ∷ ks) seen k h n =
    ground (arith, eq_iff j k, eq_iff k j, unseen_fewer ks seen k, unseen_less ks seen k)

pub unseen-length : (ks seen : List String) → unseen ks seen ≤ length ks
unfolding unseen
unseen-length [] seen = omega arith
unseen-length (k ∷ ks) seen = ground (arith, unseen-length ks seen)
