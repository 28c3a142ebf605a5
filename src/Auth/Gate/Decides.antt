-- ===== src/Auth/Gate/Decides.antt =====
-- src/arvel/auth/gate.py: who decides a question, in which order.
use arvel.Common.{
  ℕ, String, ◌≡◌, refl, sym, ap, ◌∙◌, inl, inr, Bool, true, false, Option, none, some, Option-cases,
  List, [], ◌∷◌, arith, ==_iff,
}
use arvel.Auth.Gate.Annotation.{accepts_none, Signature}
use arvel.Auth.Gate.Check.{
  default_deny, Verdict, nothing, response, value, Outcome, returned, raised, Arg, Callable, Policy,
  Gate,
}
use arvel.Auth.Gate.Raw.{
  raw, nullable, cached_answer, run_check, run_before, decide, finish, check_for, callable_of,
  policy_instance, run_pre, define, resolve_policy,
}

module _ (User : Type 0) where
  -- The gate's memory is right for these callbacks: what it holds for an id is what the signature
  -- of the callback with that id says.
  abbrev pub Remembers : (ℕ → Signature) → List (ℕ × Bool) → Type 0
  Remembers signature cache =
      (key : ℕ) (b : Bool) → cached_answer key cache ≡ some b → b ≡ accepts_none (signature key)

  pub nullable_lem :
      (signature : ℕ → Signature) (c : Callable User) (cache : List (ℕ × Bool))
      → Remembers signature cache
      → c.signature ≡ signature c.identity
      → ((nullable User c cache).0 ≡ accepts_none c.signature)
        × Remembers signature (nullable User c cache).1
  unfolding nullable cached_answer
  nullable_lem signature c cache r h = elim (Option-cases (cached_answer c.identity cache)) [
    | inl e ↦
        rw (e, nullable) (refl, λ key b h'. ground (arith, h, h', ==_iff c.identity key, r key b))
    | inr (b, e) ↦ rw (e, nullable) (r c.identity b e ∙ ap accepts_none (sym h), r)
  ]

  -- A guest never reaches a callback that is written for a user, where neither a `before` hook of
  -- the gate nor a `before` of the policy returns anything, if there are any: what the `after`
  -- hooks are handed is the denial, and so the answer is the same whatever the callback would do.
  pub guest_denied :
      (own : String → Option (Policy User)) (signature : ℕ → Signature) (g : Gate User)
      (ability : String) (args : List Arg) (c : Callable User)
      → Remembers signature g.nullable_cache
      → c.signature ≡ signature c.identity
      → accepts_none c.signature ≡ false
      → run_before User g.before_hooks none ability ≡ returned nothing
      → run_pre User (callable_of User (policy_instance User own g args) "before") none ability
        ≡ returned nothing
      → check_for User g (policy_instance User own g args) ability ≡ some c
      → (raw User own g ability args none).0
        ≡ finish User g ability args none (returned (response default_deny))
  unfolding raw decide run_check
  guest_denied own signature g ability args c r h n b p k =
      ground (arith, h, n, b, p, k, (nullable_lem signature c g.nullable_cache r h).0)

  -- Where one id stood for two callbacks in turn, the second is asked as the first was: one that is
  -- written for a user is called with no user.
  pub nullable_reuse :
      (old new : Callable User) (args : List Arg)
      → old.identity ≡ new.identity
      → accepts_none old.signature ≡ true
      → accepts_none new.signature ≡ false
      → (run_check User (some new) none args (nullable User old []).1).0 ≡ new.call none args
  unfolding nullable cached_answer run_check
  nullable_reuse old new args e a n = ground (arith, e, a, ==_iff old.identity new.identity)

  policy_instance-define :
      (own : String → Option (Policy User)) (g : Gate User) (ability : String) (args : List Arg)
      (c : Callable User)
      → policy_instance User own (define User ability c g) args ≡ policy_instance User own g args
  unfolding policy_instance define resolve_policy
  policy_instance-define own g ability [] c = refl
  policy_instance-define own g ability (a ∷ args) c = refl

  check_for-define :
      (g : Gate User) (p : Option (Policy User)) (j ability : String) (c m : Callable User)
      → callable_of User p ability ≡ some m
      → check_for User (define User j c g) p ability ≡ check_for User g p ability
  unfolding check_for define
  check_for-define g p j ability c m h = ground (arith, h)

  decide-define :
      (g : Gate User) (p : Option (Policy User)) (j ability : String) (args : List Arg)
      (user : Option User) (c m : Callable User) (first : Outcome Verdict)
      → callable_of User p ability ≡ some m
      → decide User (define User j c g) p ability args user first
        ≡ decide User g p ability args user first
  unfolding decide define
  decide-define g p j ability args user c m (raised e) h = refl
  decide-define g p j ability args user c m (returned (response r)) h = refl
  decide-define g p j ability args user c m (returned (value b)) h = refl
  decide-define g p j ability args user c m (returned nothing) h =
      ground (arith, check_for-define g p j ability c m h)

  finish-define :
      (g : Gate User) (j ability : String) (args : List Arg) (user : Option User)
      (c : Callable User) (o : Outcome Verdict)
      → finish User (define User j c g) ability args user o ≡ finish User g ability args user o
  unfolding finish define
  finish-define g j ability args user c (returned v) = refl
  finish-define g j ability args user c (raised e) = refl

  -- The policy answers for its model: where it has the method, defining an ability of any name
  -- changes no answer.
  pub policy_first :
      (own : String → Option (Policy User)) (g : Gate User) (j ability : String) (args : List Arg)
      (user : Option User) (c m : Callable User)
      → callable_of User (policy_instance User own g args) ability ≡ some m
      → (raw User own (define User j c g) ability args user).0
        ≡ (raw User own g ability args user).0
  unfolding raw define
  policy_first own g j ability args user c m h =
      let p = policy_instance User own g args in
      let first = run_before User g.before_hooks user ability in
      rw (policy_instance-define own g j args c, decide-define g p j ability args user c m first h)
        (finish-define g j ability args user c (decide User g p ability args user first).0)
