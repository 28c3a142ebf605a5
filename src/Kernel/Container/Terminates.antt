-- ===== src/Kernel/Container/Terminates.antt =====
-- src/arvel/kernel/container.py: autowiring comes to an end.
use arvel.Common.{
  ℕ, zero, suc, ◌≤◌, ◌<◌, String, ◌≡◌, refl, Bool, true, false, Option, none, some, List, [], ◌∷◌,
  if◌then◌else◌, eq_iff, arith,
}
use arvel.Common.Lists.{length}
use arvel.Common.Assoc.{Dict}
use arvel.Common.Keyed.{find}
use arvel.Common.Unseen.{seen_in, unseen, unseen_less, unseen-length}
use arvel.Kernel.Container.{
  Key, text, of_class, same, Object, Concrete, key, factory, Binding, Registry, Pool, alias_of,
  alias_from,
}
use arvel.Kernel.Container.Resolve.{
  ClassInfo, Result, in_scope, concrete_of, is_scoped, Again, build, finish, build_finished,
  scoped_copy, resolve_scoped, resolve_fresh, resolve_plain, resolve_with, resolve, make,
}
use arvel.Kernel.Container.Autowires.{
  answers, and_then-answers, Known, KnownParameters, Plain, PlainBindings, find-Plain, Good,
  build_class-answers,
}

if-answers :
    (b : Bool) (x y : Result × Pool)
    → answers x.0 ≡ true
    → answers y.0 ≡ true
    → answers (if b then x else y).0 ≡ true
if-answers true x y h k = h
if-answers false x y h k = k

module _ (ks : List String) (r : Registry) (classes : String → ClassInfo)
    (known : (c : String) → KnownParameters ks (classes c).parameters)
    (plain : PlainBindings ks r.bindings) where
  -- a concrete that is a known class, or the key itself
  abbrev Buildable : Key → Concrete → Type 0
  Buildable k (key (of_class c)) = Known ks c
  Buildable k (key (text s)) = same (text s) k ≡ true
  Buildable k (factory f) = true ≡ false

  -- a text, or a known class
  abbrev pub KnownKey : Key → Type 0
  KnownKey (text s) = Unit
  KnownKey (of_class c) = Known ks c

  Plain-Buildable : (k : Key) (x : Concrete) → Plain ks x → Buildable k x
  Plain-Buildable k (key (of_class c)) h = h
  Plain-Buildable k (key (text s)) h = cc
  Plain-Buildable k (factory f) h = h

  itself-Buildable : (k : Key) → KnownKey k → Buildable k (key k)
  unfolding same
  itself-Buildable (text s) h = (eq_iff s s).1 refl
  itself-Buildable (of_class c) h = h

  bound-Buildable :
      (k : Key) (b : Option Binding)
      → KnownKey k
      → find same k r.bindings ≡ b
      → Buildable k (concrete_of k b)
  unfolding concrete_of
  bound-Buildable k none h e = itself-Buildable k h
  bound-Buildable k (some b) h e =
      Plain-Buildable k b.concrete (find-Plain ks k r.bindings b plain e)

  module _ (again : Again r classes) (stack : List String)
      (good : (c : String)
        → Known ks c
        → seen_in stack c ≡ false
        → Good ks r classes again (c ∷ stack)) where
    build-answers :
        (top : Dict Object) (k : Key) (x : Concrete) (pool : Pool)
        → Buildable k x
        → answers (build r classes again stack top k x pool).0 ≡ true
    unfolding build
    build-answers top k (key (of_class c)) pool h =
        build_class-answers ks r classes again stack top c pool (good c h) (known c)
    build-answers top k (key (text s)) pool h = rw (h) refl
    build-answers top k (factory f) pool h = cc

    finished-answers :
        (top : Dict Object) (k : Key) (x : Concrete) (pool : Pool)
        → Buildable k x
        → answers (build_finished r classes again stack top k x pool).0 ≡ true
    unfolding build_finished finish
    finished-answers top k x pool h =
        and_then-answers (build r classes again stack top k x pool) (finish r classes again k)
          (build-answers top k x pool h) (λ o p. refl)

    copy-answers :
        (top : Dict Object) (k : Key) (x : Concrete) (o : Option Object) (pool : Pool)
        → Buildable k x
        → answers (scoped_copy r classes again stack top k x o pool).0 ≡ true
    copy-answers top k x (some o) pool h = refl
    copy-answers top k x none pool h =
        and_then-answers (build_finished r classes again stack top k x pool) _
          (finished-answers top k x pool h) (λ o p. refl)

    fresh-answers :
        (top : Dict Object) (k : Key) (b : Option Binding) (pool : Pool)
        → Buildable k (concrete_of k b)
        → answers (resolve_fresh r classes again stack top k b pool).0 ≡ true
    unfolding resolve_fresh
    fresh-answers top k b pool h =
        and_then-answers (build_finished r classes again stack top k (concrete_of k b) pool) _
          (finished-answers top k (concrete_of k b) pool h) (λ o p. refl)

    plain-answers :
        (top : Dict Object) (k : Key) (o : Option Object) (pool : Pool)
        → KnownKey k
        → answers (resolve_plain r classes again stack top k o pool).0 ≡ true
    unfolding resolve_scoped
    plain-answers top k (some o) pool h = refl
    plain-answers top k none pool h =
        let buildable = bound-Buildable k (find same k r.bindings) h refl in
        if-answers (is_scoped (find same k r.bindings)) _ _
          (copy-answers top k (concrete_of k (find same k r.bindings)) (in_scope k pool.scope) pool
            buildable)
          (fresh-answers [] k (find same k r.bindings) pool buildable)

    with-answers :
        (top : Dict Object) (abstract : Key) (params : Dict Object) (pool : Pool)
        → KnownKey (alias_of r.aliases abstract)
        → answers (resolve_with r classes again stack top abstract params pool).0 ≡ true
    unfolding resolve_with
    with-answers top abstract [] pool h =
        let k = alias_of r.aliases abstract in
        plain-answers top k (find same k pool.instances) pool h
    with-answers top abstract (p ∷ params) pool h =
        let k = alias_of r.aliases abstract in
        fresh-answers (p ∷ params) k (find same k r.bindings) pool
          (bound-Buildable k (find same k r.bindings) h refl)

  resolve-answers :
      (fuel : ℕ) (stack : List String) (top : Dict Object) (c : String) (pool : Pool)
      → unseen ks stack < fuel
      → Known ks c
      → answers (resolve r classes fuel stack top (of_class c) pool).0 ≡ true
  unfolding resolve alias_of alias_from
  resolve-answers zero stack top c pool h k = ground (arith, h)
  resolve-answers (suc fuel) stack top c pool h k =
      with-answers (resolve r classes fuel) stack
        (λ d kd new top' c' pool' k'.
          resolve-answers fuel (d ∷ stack) top' c' pool'
            (omega (arith, h, unseen_less ks stack d kd new)) k')
        top (of_class c) [] pool k

  -- A program whose bindings are to classes, with no factory and no second name, and whose constructors ask
  -- for its own classes: `make` of a text or of one of them comes to an object or to an error, however its
  -- classes depend on each other, when it may nest as deep as there are classes.
  pub make-answers :
      (fuel : ℕ) (abstract : Key) (params : Dict Object) (pool : Pool)
      → length ks ≤ fuel
      → KnownKey (alias_of r.aliases abstract)
      → answers (make r classes fuel abstract params pool).0 ≡ true
  unfolding make
  make-answers fuel abstract params pool h k =
      with-answers (resolve r classes fuel) []
        (λ d kd new top' c' pool' k'.
          resolve-answers fuel (d ∷ []) top' c' pool'
            (omega (arith, h, unseen_less ks [] d kd new, unseen-length ks [])) k')
        [] abstract params pool k
