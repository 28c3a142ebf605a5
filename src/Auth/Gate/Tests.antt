-- ===== src/Auth/Gate/Tests.antt =====
-- The gate with users that are numbers: a callback for users only, a policy, and an `after` hook.
use arvel.Common.{
  ℕ, zero, suc, String, ◌≡◌, refl, true, false, Option, none, some, [], ◌∷◌, if◌then◌else◌, str_eq,
  arith, is_some,
}
use arvel.Common.Int.{◌+ℤ◌, ◌-ℤ◌}
use arvel.Common.Assoc.{lookup, insert}
use arvel.Common.Text.{codes}
use arvel.Auth.Gate.Annotation.{Signature, parameters, annotation_str_is_nullable, accepts_none}
use arvel.Auth.Gate.Check.{
  response, value, nothing, returned, raised, Callable, method, Policy, policy_object, AfterHook,
  Gate, empty, default_deny,
}
use arvel.Auth.Gate.Raw.{
  raw, define, policy, finish, run_check, nullable, cached_answer, callable_of, policy_instance,
  check_for, run_before, run_pre,
}
use arvel.Auth.Gate.Decides.{guest_denied, nullable_reuse}

optional_is_nullable : annotation_str_is_nullable (codes "User | None") ≡ true
unfolding annotation_str_is_nullable
optional_is_nullable = refl

union_is_nullable : annotation_str_is_nullable (codes "Union[dict[str, int], None]") ≡ true
unfolding annotation_str_is_nullable ◌+ℤ◌ ◌-ℤ◌
union_is_nullable = refl

nested_is_not_nullable : annotation_str_is_nullable (codes "dict[str, None]") ≡ false
unfolding annotation_str_is_nullable
nested_is_not_nullable = refl

-- the second parameter list is that of a callback whose user is never `None`
abbrev for_anyone : Signature
for_anyone = parameters []

abbrev for_users : Signature
for_users = parameters (record { annotation = some (codes "User"); hint = none } ∷ [])

abbrev signatures : ℕ → Signature
signatures n = elim n [ zero ↦ for_anyone | suc _ ↦ for_users ]

-- allows any user, and would allow a guest
abbrev editor : Callable ℕ
editor = record { identity = 1; signature = for_users; call = λ user args. returned (value true) }

abbrev no_policies : String → Option (Policy ℕ)
no_policies model = none

abbrev with_ability : Gate ℕ
with_ability = define ℕ "edit" editor (empty ℕ)

guest_denied_example :
    (raw ℕ no_policies with_ability "edit" [] none).0
    ≡ finish ℕ with_ability "edit" [] none (returned (response default_deny))
unfolding define empty lookup insert accepts_none cached_answer run_before callable_of
    policy_instance check_for run_pre
guest_denied_example =
    guest_denied ℕ no_policies signatures with_ability "edit" [] editor
      (λ key b h. ground (arith, h)) refl refl refl refl refl

-- an `editor` of posts
abbrev posts : Policy ℕ
posts = policy_object (λ name. if str_eq name "edit" then some (method editor) else none)

abbrev with_policy : Gate ℕ
with_policy = policy ℕ "Post" posts (empty ℕ)

-- reads its user where it has none
abbrev reader : Callable ℕ
reader = record {
  identity = 1;
  signature = for_users;
  call = λ user args. if is_some user then returned (value true) else raised "AttributeError";
}

abbrev lenient : Callable ℕ
lenient = record { identity = 1; signature = for_anyone; call = λ user args. returned nothing }

nullable_reuse_example :
    (run_check ℕ (some reader) none [] (nullable ℕ lenient []).1).0 ≡ raised "AttributeError"
unfolding accepts_none
nullable_reuse_example = nullable_reuse ℕ lenient reader [] refl refl refl

abbrev read_only : AfterHook ℕ
read_only user ability result args = returned (value false)
