-- ===== src/Kernel/Container/Keeps.antt =====
-- src/arvel/kernel/container.py: what a resolution keeps. A predicate on the pool that stays true when an
-- object is made, an object of the scope is kept, and an object of a key that is not scoped is kept.
use arvel.Common.{
  ℕ, zero, suc, String, ◌≡◌, Bool, true, false, not, ◌&&◌, ◌||◌, Option, none, some, List, [], ◌∷◌,
  ◌++◌, if◌then◌else◌, Bool-cases, inl, inr,
}
use arvel.Common.Assoc.{Dict, lookup}
use arvel.Common.Keyed.{find, store}
use arvel.Common.Unseen.{seen_in}
use arvel.Kernel.Container.{
  Key, text, of_class, same, Object, Concrete, key, factory, Extender, Happening, built, called,
  Registry, Pool, alias_of, extend_object,
}
use arvel.Kernel.Container.Resolve.{
  Param, ClassInfo, Result, made, failed, out_of_fuel, Run, and_then, Valued, value, ends, Gathered,
  args, gave_up, in_scope, store_scope, new_object, concrete_of, is_scoped, is_shared, nonempty,
  Again, value_of, value_made, value_given, with_rest, with_value, resolve_dependencies, construct,
  autowire, build_class, make_each, call_factory, build, finish, build_finished, extended_by,
  scoped_copy, resolve_scoped, resolve_fresh, resolve_plain, resolve_with, resolve,
}

module _ (r : Registry) (classes : String → ClassInfo) (Fine : Pool → Type 0)
    (after_making : (pool : Pool) (n : ℕ) (h : Happening)
      → Fine pool
      → Fine (record pool { next = n; log = pool.log ++ h ∷ [] }))
    (in_the_scope : (k : Key) (o : Object) (pool : Pool)
      → Fine pool
      → Fine (record pool { scope = store_scope k o pool.scope }))
    (in_instances : (k : Key) (o : Object) (pool : Pool)
      → is_scoped (find same k r.bindings) ≡ false
      → Fine pool
      → Fine (record pool { instances = store same k o pool.instances })) where
  abbrev KeepsFine : Run → Type 0
  KeepsFine run = (pool : Pool) → Fine pool → Fine (run pool).1

  and_then-keeps :
      (x : Result × Pool) (next : Object → Run)
      → Fine x.1
      → ((o : Object) → KeepsFine (next o))
      → Fine (and_then x next).1
  and_then-keeps (made o, p) next h k = k o p h
  and_then-keeps (failed e, p) next h k = h
  and_then-keeps (out_of_fuel, p) next h k = h

  pub if-keeps :
      (b : Bool) (x y : Result × Pool) → Fine x.1 → Fine y.1 → Fine (if b then x else y).1
  if-keeps true x y h k = h
  if-keeps false x y h k = k

  pub new_object-keeps :
      (e : Option String) (what : Object → Happening) → KeepsFine (new_object e what)
  unfolding new_object
  new_object-keeps none what pool h = after_making pool _ _ h
  new_object-keeps (some e) what pool h = h

  either-keeps :
      (b : Bool) (x y : Object × Pool) → Fine x.1 → Fine y.1 → Fine (if b then x else y).1
  either-keeps true x y h k = h
  either-keeps false x y h k = k

  extend_object-keeps :
      (e : Extender) (o : Object) (pool : Pool) → Fine pool → Fine (extend_object e o pool).1
  unfolding extend_object
  extend_object-keeps e o pool h =
      either-keeps e.replaces _ _ (after_making pool _ _ h) (after_making pool pool.next _ h)

  pub extended_by-keeps :
      (es : List Extender) (o : Object) (pool : Pool) → Fine pool → Fine (extended_by es o pool).1
  unfolding extended_by
  extended_by-keeps [] o pool h = h
  extended_by-keeps (e ∷ es) o pool h =
      extended_by-keeps es (extend_object e o pool).0 (extend_object e o pool).1
        (extend_object-keeps e o pool h)

  module _ (again : Again r classes)
      (keeps : (stack : List String) (top : Dict Object) (k : Key)
        → KeepsFine (again stack top k)) where
    value_made-keeps :
        (stack : List String) (top : Dict Object) (p : Param) (i : Option String) (pool : Pool)
        → Fine pool
        → Fine (value_made r classes again stack top p i pool).1
    value_made-keeps stack top p none pool h = h
    value_made-keeps stack top p (some c) pool h = keeps stack top (of_class c) pool h

    value_given-keeps :
        (stack : List String) (top : Dict Object) (p : Param) (o : Option Object) (pool : Pool)
        → Fine pool
        → Fine (value_given r classes again stack top p o pool).1
    value_given-keeps stack top p (some o) pool h = h
    value_given-keeps stack top p none pool h = value_made-keeps stack top p p.injectable pool h

    with_rest-keeps :
        (name : String) (v : Option Object) (x : Gathered × Pool)
        → Fine x.1
        → Fine (with_rest r classes again name v x).1
    with_rest-keeps name v (gave_up result, pool) h = h
    with_rest-keeps name v (args vs, pool) h = h

    with_value-keeps :
        (name : String) (x : Valued × Pool) (rest : Pool → Gathered × Pool)
        → Fine x.1
        → ((p : Pool) → Fine p → Fine (rest p).1)
        → Fine (with_value r classes again name x rest).1
    with_value-keeps name (ends result, pool) rest h k = h
    with_value-keeps name (value v, pool) rest h k = with_rest-keeps name v (rest pool) (k pool h)

    pub dependencies-keeps :
        (stack : List String) (top : Dict Object) (ps : List Param) (pool : Pool)
        → Fine pool
        → Fine (resolve_dependencies r classes again stack top ps pool).1
    unfolding resolve_dependencies value_of
    dependencies-keeps stack top [] pool h = h
    dependencies-keeps stack top (p ∷ ps) pool h =
        with_value-keeps p.name (value_given r classes again stack top p (lookup p.name top) pool)
          (resolve_dependencies r classes again stack top ps)
          (value_given-keeps stack top p (lookup p.name top) pool h)
          (λ pool' h'. dependencies-keeps stack top ps pool' h')

    construct-keeps :
        (c : String) (e : Option String) (x : Gathered × Pool)
        → Fine x.1
        → Fine (construct r classes again c e x).1
    construct-keeps c e (gave_up result, pool) h = h
    construct-keeps c e (args vs, pool) h = new_object-keeps e (built c vs) pool h

    autowire-keeps :
        (stack : List String) (top : Dict Object) (c : String) (ps : Option (List Param))
        → KeepsFine (autowire r classes again stack top c ps)
    autowire-keeps stack top c none pool h = construct-keeps c (classes c).raises (args [], pool) h
    autowire-keeps stack top c (some ps) pool h =
        construct-keeps c (classes c).raises
          (resolve_dependencies r classes again (c ∷ stack) top ps pool)
          (dependencies-keeps (c ∷ stack) top ps pool h)

    build_class-keeps :
        (stack : List String) (top : Dict Object) (c : String)
        → KeepsFine (build_class r classes again stack top c)
    unfolding build_class
    build_class-keeps stack top c pool h = if-keeps (classes c).builtin _ _ h (
        if-keeps (seen_in stack c) _ _ h (
          if-keeps ((classes c).abstract_ || (classes c).protocol) _ _ h
            (autowire-keeps stack top c (classes c).parameters pool h)))

    make_each-keeps :
        (stack : List String) (top : Dict Object) (ks : List Key) (next : Run)
        → KeepsFine next
        → KeepsFine (make_each r classes again stack top ks next)
    unfolding make_each
    make_each-keeps stack top [] next n pool h = n pool h
    make_each-keeps stack top (k ∷ ks) next n pool h =
        and_then-keeps (again stack top k pool) _ (keeps stack top k pool h)
          (λ o. make_each-keeps stack top ks next n)

    build-keeps :
        (stack : List String) (top : Dict Object) (k : Key) (x : Concrete)
        → KeepsFine (build r classes again stack top k x)
    unfolding build call_factory
    build-keeps stack top k (factory f) pool h =
        make_each-keeps stack top f.needs _ (new_object-keeps f.raises (called f.ident top)) pool h
    build-keeps stack top k (key (of_class c)) pool h = build_class-keeps stack top c pool h
    build-keeps stack top k (key (text s)) pool h =
        if-keeps (same (text s) k) _ _ h (keeps stack top (text s) pool h)

    finished-keeps :
        (stack : List String) (top : Dict Object) (k : Key) (x : Concrete)
        → KeepsFine (build_finished r classes again stack top k x)
    unfolding build_finished finish
    finished-keeps stack top k x pool h =
        and_then-keeps (build r classes again stack top k x pool) (finish r classes again k)
          (build-keeps stack top k x pool h)
          (λ o p h'.
            extended_by-keeps (elim (find same k r.extenders) [ none ↦ [] | some es ↦ es ]) o p h')

    copy-keeps :
        (stack : List String) (top : Dict Object) (k : Key) (x : Concrete) (o : Option Object)
        → KeepsFine (scoped_copy r classes again stack top k x o)
    copy-keeps stack top k x (some o) pool h = h
    copy-keeps stack top k x none pool h =
        and_then-keeps (build_finished r classes again stack top k x pool) _
          (finished-keeps stack top k x pool h) (λ o p h'. in_the_scope k o p h')

    kept-keeps :
        (b : Bool) (k : Key) (o : Object) (p : Pool)
        → is_scoped (find same k r.bindings) ≡ false
        → Fine p
        → Fine (if b then record p { instances = store same k o p.instances } else p)
    kept-keeps true k o p u h = in_instances k o p u h
    kept-keeps false k o p u h = h

    abbrev keep : Key → Object → Run
    keep k o p = (
      made o,
      if is_shared (find same k r.bindings) && not (nonempty [])
          then record p { instances = store same k o p.instances }
          else p,
    )

    fresh-keeps :
        (stack : List String) (k : Key)
        → is_scoped (find same k r.bindings) ≡ false
        → KeepsFine (resolve_fresh r classes again stack [] k (find same k r.bindings))
    unfolding resolve_fresh
    fresh-keeps stack k u pool h =
        let x = concrete_of k (find same k r.bindings) in
        let shared = is_shared (find same k r.bindings) && not (nonempty []) in
        and_then-keeps (build_finished r classes again stack [] k x pool) (keep k)
          (finished-keeps stack [] k x pool h) (λ o p h'. kept-keeps shared k o p u h')

    plain-keeps :
        (stack : List String) (top : Dict Object) (k : Key) (o : Option Object)
        → KeepsFine (resolve_plain r classes again stack top k o)
    unfolding resolve_scoped
    plain-keeps stack top k (some o) pool h = h
    plain-keeps stack top k none pool h = elim (Bool-cases (is_scoped (find same k r.bindings))) [
      | inl e ↦ rw (e) (copy-keeps stack top k _ (in_scope k pool.scope) pool h)
      | inr e ↦ rw (e) (fresh-keeps stack k e pool h)
    ]

  pub resolve-keeps :
      (fuel : ℕ) (stack : List String) (top : Dict Object) (k : Key)
      → KeepsFine (resolve r classes fuel stack top k)
  unfolding resolve resolve_with
  resolve-keeps zero stack top k pool h = h
  resolve-keeps (suc fuel) stack top k pool h =
      let j = alias_of r.aliases k in
      plain-keeps (resolve r classes fuel) (resolve-keeps fuel) stack top j
        (find same j pool.instances) pool h

  pub build_finished-keeps :
      (fuel : ℕ) (stack : List String) (top : Dict Object) (k : Key) (x : Concrete)
      → KeepsFine (build_finished r classes (resolve r classes fuel) stack top k x)
  build_finished-keeps fuel = finished-keeps (resolve r classes fuel) (resolve-keeps fuel)
