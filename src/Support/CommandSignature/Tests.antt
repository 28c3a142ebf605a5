-- ===== src/Support/CommandSignature/Tests.antt =====
-- src/arvel/support/command_signature.py on signatures of the documentation.
use arvel.Common.{◌≡◌, refl, true, false, none, some, List, [], ◌∷◌, ◌++◌, map}
use arvel.Common.Text.{codes}
use arvel.Support.CommandSignature.{
  SignatureArg, positional, option, parse_signature, validate_positional_order,
}
use arvel.Support.CommandSignature.Forms.{
  Form, required, optional_, defaulted, variadic_, flag, valued, multiple, meant,
}
use arvel.Support.CommandSignature.RoundTrip.{in_braces, parse_signature_lem}
use arvel.Support.CommandSignature.Order.{
  from_optional, first_required, validate_positional_order_lem,
}

abbrev report_forms : List Form
report_forms =
    required (codes "user")
    ∷ defaulted (codes "month") (codes "may*")
    ∷ variadic_ (codes "tags")
    ∷ valued (some (codes "Q")) (codes "queue")
    ∷ []

written :
    codes "report:send" ++ in_braces report_forms
    ≡ codes "report:send {user} {month=may*} {tags*} {--Q|queue=}"
written = refl

parse_signature_lem_example :
    parse_signature (codes "report:send {user} {month=may*} {tags*} {--Q|queue=}")
    ≡ positional (codes "user") false none false
      ∷ positional (codes "month") true (some (codes "may*")) false
      ∷ positional (codes "tags") true none true
      ∷ option (codes "queue") false true (some (codes "Q"))
      ∷ []
parse_signature_lem_example = parse_signature_lem (codes "report:send") report_forms refl refl

-- an empty token and an opening brace that is not closed are skipped
loose_braces : parse_signature (codes "x {} {a {b?}") ≡ positional (codes "b") true none false ∷ []
unfolding parse_signature
loose_braces = refl

abbrev wrong_order : List SignatureArg
wrong_order =
    map meant (flag none (codes "dry") ∷ optional_ (codes "user") ∷ required (codes "month") ∷ [])

validate_positional_order_lem_example : validate_positional_order wrong_order ≡ some (codes "month")
unfolding first_required from_optional option positional
validate_positional_order_lem_example = validate_positional_order_lem wrong_order

right_order :
    validate_positional_order
      (map meant (required (codes "user") ∷ multiple none (codes "to") ∷ []))
    ≡ none
unfolding validate_positional_order positional option
right_order = refl
