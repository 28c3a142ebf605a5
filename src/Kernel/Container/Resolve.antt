-- ===== src/Kernel/Container/Resolve.antt =====
-- src/arvel/kernel/container.py: `make`. A resolution inside another one is the argument `again`; the
-- fuel counts how deep they are. What the stack `_with` has on top is the argument `top`.
use arvel.Common.{
  ℕ, zero, suc, String, Bool, true, false, not, ◌&&◌, ◌||◌, Option, none, some, List, [], ◌∷◌, ◌++◌,
  if◌then◌else◌,
}
use arvel.Common.Assoc.{Dict, lookup}
use arvel.Common.Keyed.{Keyed, find, store}
use arvel.Common.Unseen.{seen_in}
use arvel.Kernel.Container.{
  Key, text, of_class, same, Object, Factory, Concrete, key, factory, Binding, Extender, Happening,
  built, called, Registry, Pool, alias_of, extend_object,
}

-- `BindingResolutionError`, `CircularDependencyError`, and what a constructor or a factory raises
pub data Error : Type 0 where
  unresolvable circular : Error
  raised : String → Error

-- a parameter of `__init__`: the class that its annotation has the container make, if any, whether it may be
-- `None`, and whether it has a default
pub record Param : Type 0 where
  pub name : String
  pub injectable : Option String
  pub nullable : Bool
  pub has_default : Bool

-- What `_build` asks of a class: a builtin collection, abstract or a protocol; its parameters, where they
-- can be read; and what its construction raises.
pub record ClassInfo : Type 0 where
  pub builtin : Bool
  pub abstract_ : Bool
  pub protocol : Bool
  pub parameters : Option (List Param)
  pub raises : Option String

pub data Result : Type 0 where
  made : Object → Result
  failed : Error → Result
  out_of_fuel : Result

abbrev pub Run : Type 0
Run = Pool → Result × Pool

-- go on with the object, if there is one
abbrev pub and_then : Result × Pool → (Object → Run) → Result × Pool
and_then (made o, p) next = next o p
and_then (failed e, p) next = (failed e, p)
and_then (out_of_fuel, p) next = (out_of_fuel, p)

-- the value of a parameter: an object, its default or `None`; or what ends the construction
pub data Valued : Type 0 where
  value : Option Object → Valued
  ends : Result → Valued

pub data Gathered : Type 0 where
  args : List (String × Option Object) → Gathered
  gave_up : Result → Gathered

unfoldable pub fallback : Param → Valued
fallback p = if p.has_default || p.nullable then value none else ends (failed unresolvable)

-- after `self.make(inner)`: only a `BindingResolutionError` that is no cycle falls back
unfoldable pub valued : Param → Result → Valued
unfolding fallback
valued p (made o) = value (some o)
valued p (failed unresolvable) = fallback p
valued p (failed circular) = ends (failed circular)
valued p (failed (raised e)) = ends (failed (raised e))
valued p out_of_fuel = ends out_of_fuel

unfoldable pub extended_by : List Extender → Object → Pool → Object × Pool
unfolding extend_object
extended_by [] o p = (o, p)
extended_by (e ∷ es) o p = let (o', p') = extend_object e o p in extended_by es o' p'

abbrev pub in_scope : Key → Option (Keyed Key Object) → Option Object
in_scope k none = none
in_scope k (some s) = find same k s

abbrev pub store_scope : Key → Object → Option (Keyed Key Object) → Option (Keyed Key Object)
store_scope k o none = none
store_scope k o (some s) = some (store same k o s)

unfoldable pub new_object : Option String → (Object → Happening) → Run
new_object none h p = (made p.next, record p { next = suc p.next; log = p.log ++ h p.next ∷ [] })
new_object (some e) h p = (failed (raised e), p)

unfoldable pub concrete_of : Key → Option Binding → Concrete
concrete_of k none = key k
concrete_of k (some b) = b.concrete

unfoldable pub is_scoped : Option Binding → Bool
is_scoped none = false
is_scoped (some b) = b.scoped

unfoldable pub is_shared : Option Binding → Bool
is_shared none = false
is_shared (some b) = b.shared

unfoldable pub nonempty : Dict Object → Bool
nonempty [] = false
nonempty (x ∷ xs) = true

module _ (r : Registry) (classes : String → ClassInfo) where
  -- a resolution with no parameters of its own: the build stack, what `_with` has on top, and the key
  abbrev pub Again : Type 0
  Again = List String → Dict Object → Key → Run

  module _ (again : Again) where
    -- `self.make(inner)`, where the annotation is injectable
    abbrev pub value_made : List String → Dict Object → Param → Option String → Pool → Valued × Pool
    value_made stack top p none pool = (fallback p, pool)
    value_made stack top p (some c) pool =
        let (result, pool') = again stack top (of_class c) pool in (valued p result, pool')

    abbrev pub value_given :
        List String → Dict Object → Param → Option Object → Pool → Valued × Pool
    value_given stack top p (some o) pool = (value (some o), pool)
    value_given stack top p none pool = value_made stack top p p.injectable pool

    unfoldable pub value_of : List String → Dict Object → Param → Pool → Valued × Pool
    value_of stack top p pool = value_given stack top p (lookup p.name top) pool

    -- one value and the others
    abbrev pub with_rest : String → Option Object → Gathered × Pool → Gathered × Pool
    with_rest name v (gave_up result, pool) = (gave_up result, pool)
    with_rest name v (args vs, pool) = (args ((name, v) ∷ vs), pool)

    abbrev pub with_value : String → Valued × Pool → (Pool → Gathered × Pool) → Gathered × Pool
    with_value name (ends result, pool) rest = (gave_up result, pool)
    with_value name (value v, pool) rest = with_rest name v (rest pool)

    -- `_resolve_dependencies`
    unfoldable pub resolve_dependencies :
        List String → Dict Object → List Param → Pool → Gathered × Pool
    resolve_dependencies stack top [] pool = (args [], pool)
    resolve_dependencies stack top (p ∷ ps) pool =
        with_value p.name (value_of stack top p pool) (resolve_dependencies stack top ps)

    abbrev pub construct : String → Option String → Gathered × Pool → Result × Pool
    construct c raises (gave_up result, pool) = (result, pool)
    construct c raises (args vs, pool) = new_object raises (built c vs) pool

    -- the dependencies of a class, with the class on the build stack, and the object
    abbrev pub autowire : List String → Dict Object → String → Option (List Param) → Run
    autowire stack top c none pool = construct c (classes c).raises (args [], pool)
    autowire stack top c (some ps) pool =
        construct c (classes c).raises (resolve_dependencies (c ∷ stack) top ps pool)

    unfoldable pub build_class : List String → Dict Object → String → Run
    build_class stack top c pool =
        if (classes c).builtin
        then (failed unresolvable, pool)
        else if seen_in stack c
        then (failed circular, pool)
        else if (classes c).abstract_ || (classes c).protocol
        then (failed unresolvable, pool)
        else autowire stack top c (classes c).parameters pool

    -- the keys that a factory makes, one after the other
    unfoldable pub make_each : List String → Dict Object → List Key → Run → Run
    make_each stack top [] next pool = next pool
    make_each stack top (k ∷ ks) next pool =
        and_then (again stack top k pool) (λ o. make_each stack top ks next)

    unfoldable pub call_factory : List String → Dict Object → Factory → Run
    call_factory stack top f =
        make_each stack top f.needs (new_object f.raises (called f.ident top))

    -- `_build` where it is buildable, or the resolution of the other name
    unfoldable pub build : List String → Dict Object → Key → Concrete → Run
    build stack top abstract (factory f) pool = call_factory stack top f pool
    build stack top abstract (key (of_class c)) pool = build_class stack top c pool
    build stack top abstract (key (text s)) pool =
        if same (text s) abstract
        then (failed unresolvable, pool)
        else again stack top (text s) pool

    -- the extenders
    unfoldable pub finish : Key → Object → Run
    unfolding extended_by
    finish k o pool =
        let (o', pool') =
          extended_by (elim (find same k r.extenders) [ none ↦ [] | some es ↦ es ]) o pool in
        (made o', pool')

    unfoldable pub build_finished : List String → Dict Object → Key → Concrete → Run
    build_finished stack top k concrete pool = and_then (build stack top k concrete pool) (finish k)

    -- `_resolve_scoped`, which leaves `_with` as it is: the copy of the scope, or a build that is kept there
    abbrev pub scoped_copy : List String → Dict Object → Key → Concrete → Option Object → Run
    scoped_copy stack top k concrete (some o) pool = (made o, pool)
    scoped_copy stack top k concrete none pool =
        and_then (build_finished stack top k concrete pool)
          (λ o p. (made o, record p { scope = store_scope k o p.scope }))

    unfoldable pub resolve_scoped : List String → Dict Object → Key → Concrete → Run
    resolve_scoped stack top k concrete pool =
        scoped_copy stack top k concrete (in_scope k pool.scope) pool

    -- a fresh build, kept where the binding is shared and no parameter is given
    unfoldable pub resolve_fresh : List String → Dict Object → Key → Option Binding → Run
    resolve_fresh stack params k b pool =
        and_then (build_finished stack params k (concrete_of k b) pool) (λ o p. (
          made o,
          if is_shared b && not (nonempty params)
              then record p { instances = store same k o p.instances }
              else p,
        ))

    abbrev pub resolve_plain : List String → Dict Object → Key → Option Object → Run
    resolve_plain stack top k (some o) pool = (made o, pool)
    resolve_plain stack top k none pool =
        let b = find same k r.bindings in
        if is_scoped b
        then resolve_scoped stack top k (concrete_of k b) pool
        else resolve_fresh stack [] k b pool

    -- `_resolve`
    unfoldable pub resolve_with : List String → Dict Object → Key → Dict Object → Run
    resolve_with stack top abstract [] pool =
        let k = alias_of r.aliases abstract in
        resolve_plain stack top k (find same k pool.instances) pool
    resolve_with stack top abstract (p ∷ params) pool =
        let k = alias_of r.aliases abstract in
        resolve_fresh stack (p ∷ params) k (find same k r.bindings) pool

  unfoldable pub resolve : ℕ → List String → Dict Object → Key → Run
  resolve zero stack top abstract pool = (out_of_fuel, pool)
  resolve (suc fuel) stack top abstract pool =
      resolve_with (resolve fuel) stack top abstract [] pool

  -- `make(abstract, **params)`, from outside a resolution
  unfoldable pub make : ℕ → Key → Dict Object → Run
  make fuel abstract params = resolve_with (resolve fuel) [] [] abstract params
