-- ===== src/Kernel/Container/Leak.antt =====
-- src/arvel/kernel/container.py: parameters that reach further than the class that they are given to.
use mathlib.Core.List.{Memᴰ}
use mathlib.Core.Path.{subst}
use arvel.Common.{
  ℕ, zero, suc, String, ◌≡◌, refl, sym, ap, ◌∙◌, Bool, true, false, not, ◌&&◌, ◌||◌, Option, none,
  some, List, [], ◌∷◌, if◌then◌else◌,
}
use arvel.Common.Assoc.{Dict, lookup}
use arvel.Common.Keyed.{find, store}
use arvel.Common.Unseen.{seen_in}
use arvel.Kernel.Container.{
  Key, of_class, same, Object, key, built, Registry, Pool, alias_of, alias_from,
}
use arvel.Kernel.Container.Resolve.{
  Param, ClassInfo, Result, made, failed, out_of_fuel, and_then, Valued, value, ends, Gathered,
  args, gave_up, Again, in_scope, concrete_of, is_scoped, is_shared, nonempty, value_of, value_made,
  valued, with_rest, with_value, resolve_dependencies, construct, autowire, build_class, build,
  build_finished, resolve_scoped, resolve_fresh, resolve_plain, resolve_with, resolve, make,
}
use arvel.Kernel.Container.Keeps.{new_object-keeps, dependencies-keeps, resolve-keeps}
use arvel.Kernel.Container.Told.{
  BuiltWith, Told, ToldIfMade, anyway-ToldIfMade, after_making, in_the_scope, in_instances,
  no_object, finish-ToldIfMade, if-ToldIfMade, Whole, dependencies-Whole, build_finished-ToldIfMade,
  scope-ToldIfMade, IsToldValue, AreToldArgs, valued-IsToldValue,
}

module _ (r : Registry) (classes : String → ClassInfo) (fuel : ℕ) where
  plain_alike :
      (stack : List String) (c : String) (found : Option Object) (top : Dict Object) (pool : Pool)
      → is_scoped (find same (of_class c) r.bindings) ≡ false
      → resolve_plain r classes (resolve r classes fuel) stack top (of_class c) found pool
        ≡ resolve_plain r classes (resolve r classes fuel) stack [] (of_class c) found pool
  plain_alike stack c (some o) top pool h = refl
  plain_alike stack c none top pool h = rw (h) refl

  -- a class that is not scoped does not see what was given to the class that needs it
  pub params_stop :
      (stack : List String) (c : String) (top : Dict Object) (pool : Pool)
      → is_scoped (find same (of_class c) r.bindings) ≡ false
      → resolve r classes (suc fuel) stack top (of_class c) pool
        ≡ resolve r classes (suc fuel) stack [] (of_class c) pool
  unfolding resolve resolve_with alias_of alias_from
  params_stop stack c top pool h =
      plain_alike stack c (find same (of_class c) pool.instances) top pool h

-- `d` is the class that is bound to `c`, with the parameter `p` among its own
module _ (r : Registry) (classes : String → ClassInfo) (c d : String) (o : Object) (shared : Bool)
    (p : Param) (ps : List Param) (has : (classes d).parameters ≡ some ps) (m : Memᴰ p ps)
    (bound_to : find same (of_class c) r.bindings
      ≡ some (record { concrete = key (of_class d); shared = shared; scoped = true })) where
  resolve-ToldIfMade :
      (fuel : ℕ) (stack : List String) (top : Dict Object) (pool : Pool)
      → lookup p.name top ≡ some o
      → find same (of_class c) pool.instances ≡ none
      → in_scope (of_class c) pool.scope ≡ none
      → ToldIfMade r classes d p.name o (resolve r classes fuel stack top (of_class c) pool)
  unfolding resolve resolve_with alias_of alias_from resolve_scoped concrete_of is_scoped
  resolve-ToldIfMade zero stack top pool e n n' = tt
  resolve-ToldIfMade (suc fuel) stack top pool e n n' =
      rw (n, bound_to, n')
        (scope-ToldIfMade r classes d p.name o (of_class c)
          (build_finished r classes (resolve r classes fuel) stack top (of_class c)
            (key (of_class d)) pool)
          (build_finished-ToldIfMade r classes d p.name o (resolve r classes fuel) p ps top has m
            refl e stack (of_class c) pool))

  rest-AreToldArgs :
      (again : Again r classes) (n : String) (v : Option Object) (x : Gathered × Pool)
      → Told r classes d p.name o x.1
      → Whole r classes d p.name o again x
      → AreToldArgs r classes d p.name o (with_rest r classes again n v x)
  rest-AreToldArgs again n v (args vs, pool) t w = t
  rest-AreToldArgs again n v (gave_up result, pool) t w = w

  construct-ToldIfMade :
      (again : Again r classes) (outer : String) (e : Option String) (x : Gathered × Pool)
      → AreToldArgs r classes d p.name o x
      → ToldIfMade r classes d p.name o (construct r classes again outer e x)
  construct-ToldIfMade again outer e (gave_up result, pool) h =
      no_object r classes d p.name o result pool h
  construct-ToldIfMade again outer e (args vs, pool) h =
      anyway-ToldIfMade r classes d p.name o _ _ (
        new_object-keeps r classes (Told r classes d p.name o) (after_making r classes d p.name o)
          (in_the_scope r classes d p.name o) (in_instances r classes d p.name o) e (built outer vs)
          pool h)

  with_value-AreToldArgs :
      (again : Again r classes) (n : String) (x : Valued × Pool) (rest : Pool → Gathered × Pool)
      → IsToldValue r classes d p.name o x
      → ((pool : Pool) → Told r classes d p.name o pool → Told r classes d p.name o (rest pool).1)
      → ((pool : Pool) → Whole r classes d p.name o again (rest pool))
      → AreToldArgs r classes d p.name o (with_value r classes again n x rest)
  with_value-AreToldArgs again n (ends result, pool) rest h k w = h
  with_value-AreToldArgs again n (value v, pool) rest h k w =
      rest-AreToldArgs again n v (rest pool) (k pool h) (w pool)

  store-ToldIfMade :
      (k : Key) (b : Bool) (x : Result × Pool)
      → ToldIfMade r classes d p.name o x
      → ToldIfMade r classes d p.name o (
          and_then x (λ o' p'.
            (made o', if b then record p' { instances = store same k o' p'.instances } else p')))
  store-ToldIfMade k true (made o', pool) h = h
  store-ToldIfMade k false (made o', pool) h = h
  store-ToldIfMade k b (failed e, pool) h = tt
  store-ToldIfMade k b (out_of_fuel, pool) h = tt

  module _ (outer : String) (q : Param) (qs : List Param)
      (asks : (classes outer).parameters ≡ some (q ∷ qs)) (wants : q.injectable ≡ some c)
      (no_default : q.has_default ≡ false) (not_nullable : q.nullable ≡ false)
      (unbound : find same (of_class outer) r.bindings ≡ none) (fuel : ℕ) (params : Dict Object)
      (pool : Pool) (not_given : lookup q.name params ≡ none)
      (given : lookup p.name params ≡ some o)
      (no_instance : find same (of_class c) pool.instances ≡ none)
      (no_copy : in_scope (of_class c) pool.scope ≡ none) where
    outer-AreToldArgs :
        (stack : List String)
        → AreToldArgs r classes d p.name o
            (resolve_dependencies r classes (resolve r classes fuel) stack params (q ∷ qs) pool)
    unfolding resolve_dependencies value_of valued
    outer-AreToldArgs stack =
        let again = resolve r classes fuel in
        rw (not_given, wants)
          (with_value-AreToldArgs again q.name
            (value_made r classes again stack params q (some c) pool)
            (resolve_dependencies r classes again stack params qs)
            (valued-IsToldValue r classes d p.name o q (again stack params (of_class c) pool)
              no_default not_nullable
              (resolve-ToldIfMade fuel stack params pool given no_instance no_copy))
            (λ pool' h.
              dependencies-keeps r classes (Told r classes d p.name o)
                (after_making r classes d p.name o) (in_the_scope r classes d p.name o)
                (in_instances r classes d p.name o) again
                (resolve-keeps r classes (Told r classes d p.name o)
                  (after_making r classes d p.name o) (in_the_scope r classes d p.name o)
                  (in_instances r classes d p.name o) fuel)
                stack params qs pool' h)
            (λ pool'. dependencies-Whole r classes d p.name o again stack params qs pool'))

    outer-ToldIfMade :
        ToldIfMade r classes d p.name o
          (build_class r classes (resolve r classes fuel) [] params outer pool)
    unfolding build_class
    outer-ToldIfMade =
        let again = resolve r classes fuel in
        if-ToldIfMade r classes d p.name o (classes outer).builtin _ _ tt (
          if-ToldIfMade r classes d p.name o (seen_in [] outer) _ _ tt (
            if-ToldIfMade r classes d p.name o
              ((classes outer).abstract_ || (classes outer).protocol) _ _ tt
              (subst
                (λ (x : Option (List Param)).
                  ToldIfMade r classes d p.name o (autowire r classes again [] params outer x pool))
                (sym asks)
                (construct-ToldIfMade again outer (classes outer).raises
                  (resolve_dependencies r classes again (outer ∷ []) params (q ∷ qs) pool)
                  (outer-AreToldArgs (outer ∷ []))))))

    fresh-ToldIfMade : ToldIfMade r classes d p.name o (
        resolve_fresh r classes
          (resolve r classes fuel)
          []
          params
          (of_class outer)
          (find same (of_class outer) r.bindings)
          pool)
    unfolding resolve_fresh build_finished build concrete_of is_shared is_scoped
    fresh-ToldIfMade = rw (unbound) (
        store-ToldIfMade (of_class outer) (is_shared none && not (nonempty params))
          (build_finished r classes (resolve r classes fuel) [] params (of_class outer)
            (key (of_class outer)) pool)
          (finish-ToldIfMade r classes d p.name o (of_class outer)
            (build_class r classes (resolve r classes fuel) [] params outer pool)
            (resolve r classes fuel) outer-ToldIfMade))

    made-ToldIfMade :
        (given_ones : Dict Object)
        → params ≡ given_ones
        → ToldIfMade r classes d p.name o (make r classes fuel (of_class outer) given_ones pool)
    unfolding make resolve_with alias_of alias_from lookup
    made-ToldIfMade [] e = let nothing : none ≡ some o = ap (lookup p.name) (sym e) ∙ given in cc
    made-ToldIfMade (x ∷ xs) e =
        let Fresh : Dict Object → Type 0 = λ top. ToldIfMade r classes d p.name o (
          resolve_fresh r classes (resolve r classes fuel) [] top (of_class outer)
            (find same (of_class outer) r.bindings) pool) in
        subst Fresh e fresh-ToldIfMade

    -- What is given to `make` for one class reaches the constructor of another that is bound as
    -- scoped, shared or not. Let the first parameter of the class `outer` ask for the class `c`,
    -- have no default, not be nullable, and not be among the given parameters; let `outer` have no
    -- binding, and `c` be bound as scoped to the class `d`, with no instance of `c` and no copy of
    -- it in a scope. If the constructor of `d` has a parameter `p` and the parameters given with
    -- `outer` have the object `o` under the name of `p`, then, whatever else is registered (other
    -- parameters, extenders, open scope or none), when `make` makes an object of `outer` at all,
    -- the log has `d` built with `o` for `p`.
    pub params_reach_scoped :
        (o' : Object) (pool' : Pool)
        → make r classes fuel (of_class outer) params pool ≡ (made o', pool')
        → BuiltWith r classes d p.name o pool'.log
    params_reach_scoped o' pool' e =
        subst (ToldIfMade r classes d p.name o) e (made-ToldIfMade params refl)
