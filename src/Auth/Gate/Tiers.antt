-- ===== src/Auth/Gate/Tiers.antt =====
-- src/arvel/auth/gate.py: which registration of a policy counts, and the `after` hooks.
use arvel.Common.{
  String, ◌≡◌, refl, ◌⊎◌, inl, inr, ◌||◌, is_some, Option, some, List, [], ◌∷◌, ◌++◌, if◌then◌else◌,
  arith, str_eq,
}
use arvel.Common.Assoc.{Dict, lookup, lookup-insert}
use arvel.Auth.Gate.Check.{
  Verdict, nothing, response, value, Outcome, returned, raised, Arg, Policy, AfterHook, Gate,
}
use arvel.Auth.Gate.Raw.{
  policy, register_policies, resolve_policy, run_after, override, raw, after, decide, finish,
  policy_instance, check_for, run_before,
}

module _ (User : Type 0) (own : String → Option (Policy User)) where
  -- An explicit registration counts for its model at once, and for no other. A convention map counts
  -- only for a model that has no policy of its own and no explicit one.
  pub resolve_policy-tiers :
      (g : Gate User) (model j : String) (p : Policy User) (found : Dict (Policy User))
      → (resolve_policy User own (policy User model p g) j
          ≡ (if str_eq model j then some p else resolve_policy User own g j))
        × (resolve_policy User own (register_policies User found g) j ≡ (
            if is_some (lookup j g.policies) || is_some (own j)
            then resolve_policy User own g j
            else lookup j (register_policies User found g).policy_registry))
  unfolding resolve_policy policy register_policies
  resolve_policy-tiers g model j p found =
      (ground (arith, lookup-insert model j p g.policies), ground arith)

module _ (User : Type 0) where
  Outcome-cases :
      (o : Outcome Verdict) → ((v : Verdict) × (o ≡ returned v)) ⊎ ((e : String) × (o ≡ raised e))
  Outcome-cases (returned v) = inl (v, refl)
  Outcome-cases (raised e) = inr (e, refl)

  run_after-append :
      (hooks : List (AfterHook User)) (hook : AfterHook User) (user : Option User)
      (ability : String) (args : List Arg) (v : Verdict)
      → (result : Verdict) → run_after User hooks user ability args v ≡ returned result
      → run_after User (hooks ++ hook ∷ []) user ability args v
        ≡ run_after User (hook ∷ []) user ability args result
  unfolding run_after
  run_after-append [] hook user ability args v result h = ground (arith, h)
  run_after-append (k ∷ hooks) hook user ability args v result h =
      elim (Outcome-cases (k user ability v args)) [
        | inl (o, e) ↦ rw e (
            run_after-append hooks hook user ability args (override v o) result
              (ground (arith, h, e)))
        | inr (x, e) ↦ ground (arith, h, e)
      ]

  policy_instance-after :
      (own : String → Option (Policy User)) (g : Gate User) (hook : AfterHook User)
      (args : List Arg)
      → policy_instance User own (after User hook g) args ≡ policy_instance User own g args
  unfolding policy_instance after resolve_policy
  policy_instance-after own g hook [] = refl
  policy_instance-after own g hook (a ∷ args) = refl

  decide-after :
      (g : Gate User) (hook : AfterHook User) (p : Option (Policy User)) (ability : String)
      (args : List Arg) (user : Option User) (first : Outcome Verdict)
      → decide User (after User hook g) p ability args user first
        ≡ decide User g p ability args user first
  unfolding decide after check_for
  decide-after g hook p ability args user (raised e) = refl
  decide-after g hook p ability args user (returned (response r)) = refl
  decide-after g hook p ability args user (returned (value b)) = refl
  decide-after g hook p ability args user (returned nothing) = refl

  finish-after :
      (g : Gate User) (hook : AfterHook User) (ability : String) (args : List Arg)
      (user : Option User) (o : Outcome Verdict) (v : Verdict)
      → finish User g ability args user o ≡ returned v
      → finish User (after User hook g) ability args user o
        ≡ run_after User (hook ∷ []) user ability args v
  unfolding finish after
  finish-after g hook ability args user (raised e) v h = ground (arith, h)
  finish-after g hook ability args user (returned r) v h =
      run_after-append g.after_hooks hook user ability args r v h

  -- The `after` hook registered last has the last word: it is asked with the result that stood
  -- without it, and what it returns, unless it is `None`, is the answer.
  pub last_after :
      (own : String → Option (Policy User)) (g : Gate User) (hook : AfterHook User)
      (ability : String) (args : List Arg) (user : Option User) (v : Verdict)
      → (raw User own g ability args user).0 ≡ returned v
      → (raw User own (after User hook g) ability args user).0
        ≡ run_after User (hook ∷ []) user ability args v
  unfolding raw after
  last_after own g hook ability args user v h =
      let p = policy_instance User own g args in
      let first = run_before User g.before_hooks user ability in
      rw (policy_instance-after own g hook args, decide-after g hook p ability args user first)
        (finish-after g hook ability args user (decide User g p ability args user first).0 v h)
