-- ===== src/Auth/Gate/Raw.antt =====
-- src/arvel/auth/gate.py: the registries, `_raw`, and the verbs that read its result.
use arvel.Common.{
  ℕ, String, Bool, Option, none, some, List, [], ◌∷◌, ◌++◌, ◌==◌, if◌then◌else◌, is_some,
}
use mathlib.Core.List.{foldl}
use arvel.Common.Assoc.{Dict, lookup, insert}
use arvel.Auth.Gate.Annotation.{accepts_none}
use arvel.Auth.Gate.Check.{
  default_deny, Verdict, nothing, response, value, Outcome, returned, raised, Arg, ability_name,
  instance_of, model_class, Callable, Attribute, method, field, Policy, policy_class, policy_object,
  AfterHook, Gate,
}

unfoldable pub cached_answer : ℕ → List (ℕ × Bool) → Option Bool
cached_answer key [] = none
cached_answer key ((k, b) ∷ cache) = if k == key then some b else cached_answer key cache

-- the model class of an argument
unfoldable pub model_of : Arg → String
model_of (ability_name _) = "str"
model_of (instance_of model _) = model
model_of (model_class model) = model

abbrev pub or_else {ℓ} : {A : Type ℓ} → Option A → Option A → Option A
or_else none other = other
or_else (some a) other = some a

abbrev pub Cache : Type 0
Cache = List (ℕ × Bool)

-- what stands after a hook: what it returns, unless that is `None`
unfoldable pub override : Verdict → Verdict → Verdict
override result nothing = result
override result (response r) = response r
override result (value b) = value b

module _ (User : Type 0) where
  unfoldable pub define : String → Callable User → Gate User → Gate User
  define ability callback g = record g { abilities = insert ability callback g.abilities }

  unfoldable pub has_ability : Gate User → String → Bool
  has_ability g ability = is_some (lookup ability g.abilities)

  unfoldable pub policy : String → Policy User → Gate User → Gate User
  policy model p g = record g { policies = insert model p g.policies }

  abbrev pub put_policy : Dict (Policy User) → String × Policy User → Dict (Policy User)
  put_policy d (model, p) = insert model p d

  unfoldable pub register_policies : Dict (Policy User) → Gate User → Gate User
  register_policies policies g = record g {
    policy_registry = foldl put_policy g.policy_registry policies;
  }

  unfoldable pub before : Callable User → Gate User → Gate User
  before hook g = record g { before_hooks = g.before_hooks ++ hook ∷ [] }

  unfoldable pub after : AfterHook User → Gate User → Gate User
  after hook g = record g { after_hooks = g.after_hooks ++ hook ∷ [] }

  -- `policy() if isinstance(policy, type) else policy`
  unfoldable pub attributes : Policy User → String → Option (Attribute User)
  attributes (policy_class a) = a
  attributes (policy_object a) = a

  -- `resolve_policy`, with the `__policy__` of each model class
  unfoldable pub resolve_policy :
      (String → Option (Policy User)) → Gate User → String → Option (Policy User)
  resolve_policy own g model =
      or_else (or_else (lookup model g.policies) (own model)) (lookup model g.policy_registry)

  unfoldable pub policy_instance :
      (String → Option (Policy User)) → Gate User → List Arg → Option (Policy User)
  unfolding resolve_policy model_of
  policy_instance own g [] = none
  policy_instance own g (target ∷ _) = resolve_policy own g (model_of target)

  -- a callable attribute of the policy, if there is a policy
  abbrev pub as_method : Option (Attribute User) → Option (Callable User)
  as_method (some (method c)) = some c
  as_method (some field) = none
  as_method none = none

  unfoldable pub callable_of : Option (Policy User) → String → Option (Callable User)
  unfolding attributes
  callable_of none name = none
  callable_of (some p) name = as_method (attributes p name)

  -- `_nullable`, with the cache after it
  unfoldable pub nullable : Callable User → List (ℕ × Bool) → Bool × List (ℕ × Bool)
  unfolding cached_answer
  nullable c cache = elim (cached_answer c.identity cache) [
    | some b ↦ (b, cache)
    | none ↦ (accepts_none c.signature, (c.identity, accepts_none c.signature) ∷ cache)
  ]

  -- the first hook that returns something decides
  unfoldable pub run_before : List (Callable User) → Option User → String → Outcome Verdict
  run_before [] user ability = returned nothing
  run_before (hook ∷ hooks) user ability = elim (hook.call user (ability_name ability ∷ [])) [
    | returned nothing ↦ run_before hooks user ability
    | returned (response r) ↦ returned (response r)
    | returned (value b) ↦ returned (value b)
    | raised e ↦ raised e
  ]

  unfoldable pub run_after :
      List (AfterHook User) → Option User → String → List Arg → Verdict → Outcome Verdict
  unfolding override
  run_after [] user ability args result = returned result
  run_after (hook ∷ hooks) user ability args result = elim (hook user ability result args) [
    | returned v ↦ run_after hooks user ability args (override result v)
    | raised e ↦ raised e
  ]

  -- the check itself: a guest never reaches a callback that is written for a user
  unfoldable pub run_check :
      Option (Callable User) → Option User → List Arg → Cache → Outcome Verdict × Cache
  unfolding nullable default_deny
  run_check none user args cache = (returned nothing, cache)
  run_check (some check) (some u) args cache = (check.call (some u) args, cache)
  run_check (some check) none args cache =
      let (ok, cache') = nullable check cache in
      (if ok then check.call none args else returned (response default_deny), cache')

  -- the policy's own `before`
  unfoldable pub run_pre : Option (Callable User) → Option User → String → Outcome Verdict
  run_pre none user ability = returned nothing
  run_pre (some pre) user ability = pre.call user (ability_name ability ∷ [])

  -- which callback answers: the policy's method, or else the ability that is defined
  unfoldable pub check_for : Gate User → Option (Policy User) → String → Option (Callable User)
  unfolding callable_of
  check_for g p ability = or_else (callable_of p ability) (lookup ability g.abilities)

  -- `_raw` after the gate's `before` hooks, up to its `after` hooks
  unfoldable pub decide :
      Gate User
      → Option (Policy User)
      → String
      → List Arg
      → Option User
      → Outcome Verdict
      → Outcome Verdict × Cache
  unfolding run_pre check_for callable_of run_check
  decide g p ability args user (raised e) = (raised e, g.nullable_cache)
  decide g p ability args user (returned (response r)) = (returned (response r), g.nullable_cache)
  decide g p ability args user (returned (value b)) = (returned (value b), g.nullable_cache)
  decide g p ability args user (returned nothing) =
      elim (run_pre (callable_of p "before") user ability) [
        | returned nothing ↦ run_check (check_for g p ability) user args g.nullable_cache
        | returned (response r) ↦ (returned (response r), g.nullable_cache)
        | returned (value b) ↦ (returned (value b), g.nullable_cache)
        | raised e ↦ (raised e, g.nullable_cache)
      ]

  unfoldable pub finish :
      Gate User → String → List Arg → Option User → Outcome Verdict → Outcome Verdict
  unfolding run_after
  finish g ability args user (raised e) = raised e
  finish g ability args user (returned v) = run_after g.after_hooks user ability args v

  unfoldable pub raw :
      (String → Option (Policy User))
      → Gate User
      → String
      → List Arg
      → Option User
      → Outcome Verdict × Gate User
  unfolding decide finish policy_instance run_before
  raw own g ability args user =
      let (result, cache) =
        decide g (policy_instance own g args) ability args user
          (run_before g.before_hooks user ability) in
      (finish g ability args user result, record g { nullable_cache = cache })
