-- ===== src/Auth/Gate/Agree.antt =====
-- src/arvel/auth/gate.py: `allows`, `denies`, `inspect`, `authorize`, `any` and `none` beside each other.
use arvel.Common.{
  ℕ, String, ◌≡◌, refl, ap, ◌⊎◌, ◌↔◌, Bool-cases, inl, inr, Bool, true, false, not, Option, none,
  some, List, [], ◌∷◌, arith,
}
use arvel.Auth.Gate.Check.{
  GateResponse, allow, default_deny, deny, Verdict, nothing, response, value, truth, Outcome,
  returned, raised, Arg, Policy, Gate,
}
use arvel.Auth.Gate.Raw.{raw, or_else}
use arvel.Auth.Gate.Verbs.{
  allows, denies, inspect, authorize, any, none_of, respond, on_returned, authorize_by, Authorized,
  passed, denied, failed, status_of, authorization_error,
}

-- how the verbs answer a question that `allows` answers with `a`, `inspect` with `i`, `denies` with
-- `d` and `authorize` with `z`
unfoldable pub Agree : Outcome Bool → Outcome GateResponse → Outcome Bool → Authorized → Type 0
Agree (returned a) (returned i) (returned d) passed = (a ≡ true) × (i.allowed ≡ true) × (d ≡ false)
Agree (returned a) (returned i) (returned d) (denied e) =
    (a ≡ false) × (i.allowed ≡ false) × (d ≡ true) × (e.status ≡ status_of i.code)
Agree (raised a) (raised i) (raised d) (failed z) = (a ≡ i) × (i ≡ d) × (d ≡ z)
Agree _ _ _ _ = ⊥

-- The status that a denial is rendered with: that of the response, or 403.
authorization_error_lem :
    (ability : String) (message : Option String) (code : ℕ)
    → (authorization_error ability message code).status ≡ code
unfolding authorization_error
authorization_error_lem ability none code = refl
authorization_error_lem ability (some String.[]) code = refl
authorization_error_lem ability (some (String.◌∷◌ c s)) code = refl

outcomes-Agree :
    (ability : String) (o : Outcome Verdict)
    → Agree
        (on_returned truth o)
        (on_returned respond o)
        (on_returned not (on_returned truth o))
        (authorize_by ability (on_returned respond o))
unfolding truth respond authorize_by Agree default_deny deny allow
outcomes-Agree ability (raised e) = (refl, refl, refl)
outcomes-Agree ability (returned nothing) =
    (refl, refl, refl, authorization_error_lem ability (some "This action is unauthorized.") 403)
outcomes-Agree ability (returned (value true)) = (refl, refl, refl)
outcomes-Agree ability (returned (value false)) =
    (refl, refl, refl, authorization_error_lem ability (some "This action is unauthorized.") 403)
outcomes-Agree ability (returned (response r)) = elim (Bool-cases r.allowed) [
  | inl h ↦ rw (h, Agree) (h, h, ap not h)
  | inr h ↦
      rw (h, Agree) (h, h, ap not h, authorization_error_lem ability r.message (status_of r.code))
]

module _ (User : Type 0) (own : String → Option (Policy User)) (current : Option User) where
  -- `allows`, `inspect`, `denies` and `authorize` answer a question alike: `inspect` carries what
  -- `allows` says, `denies` the opposite, and `authorize` raises exactly where it is denied, with the
  -- status of the response, 403 if it has none. Where a callback raises, all four do.
  pub verbs-Agree :
      (g : Gate User) (ability : String) (args : List Arg) (user : Option User)
      → Agree
          (allows User own current g ability args user).0
          (inspect User own current g ability args user).0
          (denies User own current g ability args user).0
          (authorize User own current g ability args user).0
  unfolding allows inspect denies authorize
  verbs-Agree g ability args user =
      outcomes-Agree ability (raw User own g ability args (or_else user current)).0

  -- some ability of the list, before which none raises or is allowed, is allowed
  unfoldable pub Allowed : Gate User → List String → List Arg → Option User → Type 0
  Allowed g [] args user = ⊥
  Allowed g (a ∷ abilities) args user =
      let (result, g') = allows User own current g a args user in
      (result ≡ returned true) ⊎ ((result ≡ returned false) × Allowed g' abilities args user)

  none_opposite : (o : Outcome Bool) → (on_returned not o ≡ returned false) ↔ (o ≡ returned true)
  none_opposite (returned true) = ground arith
  none_opposite (returned false) = ground arith
  none_opposite (raised e) = ground arith

  any-Allowed :
      (g : Gate User) (abilities : List String) (args : List Arg) (user : Option User)
      → ((any User own current g abilities args user).0 ≡ returned true)
        ↔ Allowed g abilities args user
  unfolding any Allowed
  any-Allowed g [] args user = ground arith
  any-Allowed g (a ∷ abilities) args user =
      ground (arith, any-Allowed (allows User own current g a args user).1 abilities args user)

  -- `any` is true exactly where asking the abilities in turn comes to one that is allowed, and `none`
  -- says the opposite.
  pub any_lem :
      (g : Gate User) (abilities : List String) (args : List Arg) (user : Option User)
      → (((any User own current g abilities args user).0 ≡ returned true)
          ↔ Allowed g abilities args user)
        × (((none_of User own current g abilities args user).0 ≡ returned false)
            ↔ ((any User own current g abilities args user).0 ≡ returned true))
  unfolding none_of
  any_lem g abilities args user = (
    any-Allowed g abilities args user,
    none_opposite (any User own current g abilities args user).0,
  )
