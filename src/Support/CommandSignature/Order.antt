-- ===== src/Support/CommandSignature/Order.antt =====
-- src/arvel/support/command_signature.py: which order of the arguments is refused.
use arvel.Common.{◌≡◌, refl, true, Option, none, some, List, [], ◌∷◌, if◌then◌else◌, arith}
use arvel.Support.CommandSignature.{
  Text, SignatureArg, may_be_left_out, validate_from, validate_positional_order,
}

abbrev pub positionals : List SignatureArg → List SignatureArg
positionals [] = []
positionals (t ∷ ts) = let rest = positionals ts in if t.is_option then rest else t ∷ rest

-- the arguments from the first one on that may be left out
unfoldable pub from_optional : List SignatureArg → List SignatureArg
unfolding may_be_left_out
from_optional [] = []
from_optional (t ∷ ts) = let rest = from_optional ts in if may_be_left_out t then t ∷ ts else rest

-- the name of the first argument that is required
unfoldable pub first_required : List SignatureArg → Option Text
unfolding may_be_left_out
first_required [] = none
first_required (t ∷ ts) =
    let rest = first_required ts in if may_be_left_out t then rest else some t.name

seen_lem : (ts : List SignatureArg) → validate_from true ts ≡ first_required (positionals ts)
unfolding validate_from first_required
seen_lem [] = refl
seen_lem (t ∷ ts) = ground (arith, seen_lem ts)

-- The options aside, a signature is refused exactly where a required argument comes after one that may be left
-- out, and it is the first such argument that is named.
pub validate_positional_order_lem :
    (ts : List SignatureArg)
    → validate_positional_order ts ≡ first_required (from_optional (positionals ts))
unfolding validate_positional_order validate_from first_required from_optional
validate_positional_order_lem [] = refl
validate_positional_order_lem (t ∷ ts) =
    ground (arith, seen_lem ts, validate_positional_order_lem ts)
