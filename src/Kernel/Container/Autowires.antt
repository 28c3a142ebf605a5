-- ===== src/Kernel/Container/Autowires.antt =====
-- src/arvel/kernel/container.py: the construction of a class answers, where the resolutions inside it do.
use mathlib.Core.Path.{subst}
use arvel.Common.{
  String, ◌≡◌, refl, ap, Bool, true, false, Option, none, some, List, [], ◌∷◌, if◌then◌else◌, arith,
  Bool-cases, inl, inr,
}
use arvel.Common.Assoc.{Dict, lookup}
use arvel.Common.Keyed.{Keyed, find}
use arvel.Common.Unseen.{seen_in}
use arvel.Kernel.Container.{
  Key, text, of_class, same, Object, Concrete, key, factory, Binding, Registry, Pool,
}
use arvel.Kernel.Container.Resolve.{
  unresolvable, circular, raised, Param, ClassInfo, Result, made, failed, out_of_fuel, Run,
  and_then, Valued, value, ends, Gathered, args, gave_up, fallback, valued, new_object, Again,
  value_of, value_made, value_given, with_rest, with_value, resolve_dependencies, construct,
  autowire, build_class,
}

abbrev pub answers : Result → Bool
answers (made o) = true
answers (failed e) = true
answers out_of_fuel = false

abbrev fine : Valued → Bool
fine (value v) = true
fine (ends result) = answers result

abbrev whole : Gathered → Bool
whole (args vs) = true
whole (gave_up result) = answers result

pub and_then-answers :
    (x : Result × Pool) (next : Object → Run)
    → answers x.0 ≡ true
    → ((o : Object) (p : Pool) → answers (next o p).0 ≡ true)
    → answers (and_then x next).0 ≡ true
and_then-answers (made o, p) next h k = k o p
and_then-answers (failed e, p) next h k = refl
and_then-answers (out_of_fuel, p) next h k = h

-- the classes of the program
module _ (ks : List String) where
  abbrev pub Known : String → Type 0
  Known c = seen_in ks c ≡ true

  abbrev pub KnownOption : Option String → Type 0
  KnownOption none = Unit
  KnownOption (some c) = Known c

  -- what the parameters have the container make
  abbrev pub KnownParams : List Param → Type 0
  KnownParams [] = Unit
  KnownParams (p ∷ ps) = KnownOption p.injectable × KnownParams ps

  abbrev pub KnownParameters : Option (List Param) → Type 0
  KnownParameters none = Unit
  KnownParameters (some ps) = KnownParams ps

  -- a binding to a class, and no factory nor other name
  abbrev pub Plain : Concrete → Type 0
  Plain (key (of_class c)) = Known c
  Plain (key (text s)) = true ≡ false
  Plain (factory f) = true ≡ false

  abbrev pub PlainBindings : Keyed Key Binding → Type 0
  PlainBindings [] = Unit
  PlainBindings ((k, b) ∷ bs) = Plain b.concrete × PlainBindings bs

  pick-Plain :
      (t : Bool) (b' b : Binding) (o : Option Binding)
      → Plain b'.concrete
      → (o ≡ some b → Plain b.concrete)
      → (if t then some b' else o) ≡ some b
      → Plain b.concrete
  pick-Plain true b' b o h k e =
      subst (λ (x : Binding). Plain x.concrete)
        (ap (λ (o' : Option Binding). elim o' [ none ↦ b' | some x ↦ x ]) e) h
  pick-Plain false b' b o h k e = k e

  pub find-Plain :
      (k : Key) (bs : Keyed Key Binding) (b : Binding)
      → PlainBindings bs
      → find same k bs ≡ some b
      → Plain b.concrete
  unfolding find
  find-Plain k [] b h e = cc
  find-Plain k ((j, b') ∷ bs) b (h, hs) e =
      pick-Plain (same j k) b' b (find same k bs) h (find-Plain k bs b hs) e

  module _ (r : Registry) (classes : String → ClassInfo) (again : Again r classes) where
    abbrev pub Good : List String → Type 0
    Good stack =
        (top : Dict Object) (c : String) (pool : Pool)
        → Known c
        → answers (again stack top (of_class c) pool).0 ≡ true

    valued-fine :
        (p : Param) (result : Result) → answers result ≡ true → fine (valued p result) ≡ true
    unfolding valued fallback
    valued-fine p (made o) h = refl
    valued-fine p (failed unresolvable) h = ground arith
    valued-fine p (failed circular) h = refl
    valued-fine p (failed (raised e)) h = refl
    valued-fine p out_of_fuel h = h

    value_made-fine :
        (stack : List String) (top : Dict Object) (p : Param) (i : Option String) (pool : Pool)
        → Good stack
        → KnownOption i
        → fine (value_made r classes again stack top p i pool).0 ≡ true
    unfolding fallback
    value_made-fine stack top p none pool g k = ground arith
    value_made-fine stack top p (some c) pool g k =
        valued-fine p (again stack top (of_class c) pool).0 (g top c pool k)

    value_given-fine :
        (stack : List String) (top : Dict Object) (p : Param) (o : Option Object) (pool : Pool)
        → Good stack
        → KnownOption p.injectable
        → fine (value_given r classes again stack top p o pool).0 ≡ true
    value_given-fine stack top p (some o) pool g k = refl
    value_given-fine stack top p none pool g k = value_made-fine stack top p p.injectable pool g k

    with_rest-whole :
        (name : String) (v : Option Object) (x : Gathered × Pool)
        → whole x.0 ≡ true
        → whole (with_rest r classes again name v x).0 ≡ true
    with_rest-whole name v (gave_up result, pool) h = h
    with_rest-whole name v (args vs, pool) h = refl

    with_value-whole :
        (name : String) (x : Valued × Pool) (rest : Pool → Gathered × Pool)
        → fine x.0 ≡ true
        → ((p : Pool) → whole (rest p).0 ≡ true)
        → whole (with_value r classes again name x rest).0 ≡ true
    with_value-whole name (ends result, pool) rest h k = h
    with_value-whole name (value v, pool) rest h k = with_rest-whole name v (rest pool) (k pool)

    dependencies-whole :
        (stack : List String) (top : Dict Object) (ps : List Param) (pool : Pool)
        → Good stack
        → KnownParams ps
        → whole (resolve_dependencies r classes again stack top ps pool).0 ≡ true
    unfolding resolve_dependencies value_of
    dependencies-whole stack top [] pool g k = refl
    dependencies-whole stack top (p ∷ ps) pool g (k, ks') =
        with_value-whole p.name _ _ (value_given-fine stack top p (lookup p.name top) pool g k)
          (λ pool'. dependencies-whole stack top ps pool' g ks')

    construct-answers :
        (c : String) (e : Option String) (x : Gathered × Pool)
        → whole x.0 ≡ true
        → answers (construct r classes again c e x).0 ≡ true
    unfolding new_object
    construct-answers c e (gave_up result, pool) h = h
    construct-answers c none (args vs, pool) h = refl
    construct-answers c (some e) (args vs, pool) h = refl

    autowire-answers :
        (stack : List String) (top : Dict Object) (c : String) (ps : Option (List Param))
        (pool : Pool)
        → Good (c ∷ stack)
        → KnownParameters ps
        → answers (autowire r classes again stack top c ps pool).0 ≡ true
    autowire-answers stack top c none pool g k =
        construct-answers c (classes c).raises (args [], pool) refl
    autowire-answers stack top c (some ps) pool g k =
        construct-answers c (classes c).raises _ (dependencies-whole (c ∷ stack) top ps pool g k)

    pub build_class-answers :
        (stack : List String) (top : Dict Object) (c : String) (pool : Pool)
        → (seen_in stack c ≡ false → Good (c ∷ stack))
        → KnownParameters (classes c).parameters
        → answers (build_class r classes again stack top c pool).0 ≡ true
    unfolding build_class
    build_class-answers stack top c pool g k = elim (Bool-cases (seen_in stack c)) [
      | inl s ↦ ground (arith, s)
      | inr s ↦ ground (arith, s, autowire-answers stack top c (classes c).parameters pool (g s) k)
    ]
