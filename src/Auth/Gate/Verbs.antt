-- ===== src/Auth/Gate/Verbs.antt =====
-- src/arvel/auth/gate.py: `allows` and the verbs beside it. The user in force is `current`, where
-- none is given.
use arvel.Common.{
  ℕ, String, Bool, true, false, not, Option, none, some, List, [], ◌∷◌, if◌then◌else◌,
}
use Prim.Native.String.{◌++◌}
use arvel.Auth.Gate.Check.{
  GateResponse, allow, default_deny, Verdict, nothing, response, value, truth, Outcome, returned,
  raised, Arg, Policy, Gate,
}
use arvel.Auth.Gate.Raw.{raw, or_else}

-- what `AuthorizationError` carries: the message, and the status
pub record AuthorizationError : Type 0 where
  pub detail : String
  pub status : ℕ

-- `Gate.authorize`: nothing, a denial raised, or an exception of a callback
pub data Authorized : Type 0 where
  passed : Authorized
  denied : AuthorizationError → Authorized
  failed : String → Authorized

-- `AuthorizationError.__init__`; an empty message counts as none
unfoldable pub authorization_error : String → Option String → ℕ → AuthorizationError
authorization_error ability none code = record {
  detail = "This action is unauthorized: " ++ ability;
  status = code;
}
authorization_error ability (some message) code = elim message [
  | String.[] ↦ record { detail = "This action is unauthorized: " ++ ability; status = code }
  | String.◌∷◌ c s ↦ record { detail = String.◌∷◌ c s; status = code }
]

-- what is done with the result, where no callback raised
abbrev pub on_returned : {A B : Type 0} → (A → B) → Outcome A → Outcome B
on_returned f (returned a) = returned (f a)
on_returned f (raised e) = raised e

unfoldable pub respond : Verdict → GateResponse
unfolding truth allow default_deny
respond nothing = default_deny
respond (response r) = r
respond (value b) = if b then allow else default_deny

unfoldable pub status_of : Option ℕ → ℕ
status_of none = 403
status_of (some code) = code

unfoldable pub authorize_by : String → Outcome GateResponse → Authorized
unfolding authorization_error status_of
authorize_by ability (raised e) = failed e
authorize_by ability (returned r) =
    if r.allowed then passed else denied (authorization_error ability r.message (status_of r.code))

module _ (User : Type 0) (own : String → Option (Policy User)) (current : Option User) where
  unfoldable pub allows : Gate User → String → List Arg → Option User → Outcome Bool × Gate User
  unfolding raw truth
  allows g ability args user =
      let (result, g') = raw User own g ability args (or_else user current) in
      (on_returned truth result, g')

  unfoldable pub denies : Gate User → String → List Arg → Option User → Outcome Bool × Gate User
  unfolding allows
  denies g ability args user =
      let (result, g') = allows g ability args user in (on_returned not result, g')

  unfoldable pub inspect :
      Gate User → String → List Arg → Option User → Outcome GateResponse × Gate User
  unfolding raw respond
  inspect g ability args user =
      let (result, g') = raw User own g ability args (or_else user current) in
      (on_returned respond result, g')

  unfoldable pub authorize : Gate User → String → List Arg → Option User → Authorized × Gate User
  unfolding inspect authorize_by
  authorize g ability args user =
      let (result, g') = inspect g ability args user in (authorize_by ability result, g')

  unfoldable pub any : Gate User → List String → List Arg → Option User → Outcome Bool × Gate User
  unfolding allows
  any g [] args user = (returned false, g)
  any g (ability ∷ abilities) args user =
      let (result, g') = allows g ability args user in
      elim result [
        | returned true ↦ (returned true, g')
        | returned false ↦ any g' abilities args user
        | raised e ↦ (raised e, g')
      ]

  unfoldable pub none_of :
      Gate User → List String → List Arg → Option User → Outcome Bool × Gate User
  unfolding any
  none_of g abilities args user =
      let (result, g') = any g abilities args user in (on_returned not result, g')
