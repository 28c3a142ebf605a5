-- ===== src/Kernel/Container.antt =====
-- src/arvel/kernel/container.py: what `Container` keeps, and the verbs that register. An object is its
-- identity, a number; contextual bindings and resolving hooks are left out. A factory is the keys that it
-- makes and what it raises; the closures of `extend` do not raise and leave the container alone.
pub mod Resolve
pub mod Autowires
pub mod Terminates
pub mod Shared
pub mod Rebind
pub mod Cycle
pub mod Told
pub mod Leak
pub mod Keeps
pub mod Scoped
mod Tests
use arvel.Common.{
  ℕ, zero, suc, ◌+◌, String, ◌≡◌, refl, ◌↔◌, Bool, true, false, ◌||◌, Option, none, some, List, [],
  ◌∷◌, ◌++◌, if◌then◌else◌, is_some, str_eq, eq_iff, arith,
}
use arvel.Common.Lists.{length}
use arvel.Common.Assoc.{Dict, lookup, insert}
use arvel.Common.Keyed.{Keyed, find, store, remove}
use arvel.Common.Unseen.{seen_in}

pub data Key : Type 0 where
  text : String → Key
  of_class : String → Key

unfoldable pub same : Key → Key → Bool
same (text s) (text t) = str_eq s t
same (of_class c) (of_class d) = str_eq c d
same (text s) (of_class d) = false
same (of_class c) (text t) = false

pub same_iff : (j k : Key) → (same j k ≡ true) ↔ (j ≡ k)
unfolding same
same_iff (text s) (text t) = ground (arith, eq_iff s t)
same_iff (of_class c) (of_class d) = ground (arith, eq_iff c d)
same_iff (text s) (of_class d) = ground arith
same_iff (of_class c) (text t) = ground arith

abbrev pub Object : Type 0
Object = ℕ

pub record Factory : Type 0 where
  pub ident : String
  pub needs : List Key
  pub raises : Option String

pub data Concrete : Type 0 where
  key : Key → Concrete
  factory : Factory → Concrete

pub record Binding : Type 0 where
  pub concrete : Concrete
  pub shared : Bool
  pub scoped : Bool

-- a closure of `extend`: it returns the object it is given, or another
pub record Extender : Type 0 where
  pub ident : String
  pub replaces : Bool

pub data Happening : Type 0 where
  built : String → List (String × Option Object) → Object → Happening
  called : String → Dict Object → Object → Happening
  extended : String → Object → Object → Happening

-- what a resolution reads, and what it writes
pub record Registry : Type 0 where
  pub bindings : Keyed Key Binding
  pub aliases : Dict Key
  pub extenders : Keyed Key (List Extender)
  pub tags : Dict (List Key)
  pub rebinding_cbs : Keyed Key (List String)

pub record Pool : Type 0 where
  pub instances : Keyed Key Object
  pub scope : Option (Keyed Key Object)
  pub next : ℕ
  pub log : List Happening

pub record Container : Type 0 where
  pub registry : Registry
  pub pool : Pool

-- `_alias_of`, with the aliases seen and the number that is left
unfoldable pub alias_from : ℕ → List String → Dict Key → Key → Key
alias_from fuel seen aliases (of_class c) = of_class c
alias_from zero seen aliases (text s) = text s
alias_from (suc fuel) seen aliases (text s) = elim (lookup s aliases) [
  | none ↦ text s
  | some k ↦ elim (seen_in seen s) [ true ↦ text s | false ↦ alias_from fuel (s ∷ seen) aliases k ]
]

unfoldable pub alias_of : Dict Key → Key → Key
unfolding alias_from
alias_of aliases k = alias_from (suc (length aliases)) [] aliases k

unfoldable pub bound : Key → Container → Bool
unfolding alias_of
bound abstract c =
    let k = alias_of c.registry.aliases abstract in
    is_some (find same k c.registry.bindings) || is_some (find same k c.pool.instances)

unfoldable pub resolved : Key → Container → Bool
unfolding alias_of
resolved abstract c = is_some (find same (alias_of c.registry.aliases abstract) c.pool.instances)

unfoldable pub drop_scope : Key → Option (Keyed Key Object) → Option (Keyed Key Object)
drop_scope k none = none
drop_scope k (some s) = some (remove same k s)

-- the shared instance and the copy of the current scope
unfoldable pub drop_copies : Key → Pool → Pool
unfolding drop_scope
drop_copies k p = record p { instances = remove same k p.instances; scope = drop_scope k p.scope }

unfoldable pub or_itself : Key → Option Concrete → Concrete
or_itself abstract none = key abstract
or_itself abstract (some c) = c

-- what is raised, if anything is, and the container after it
abbrev pub Done : Type 0
Done = Option String × Container

abbrev pub go_on : Done → (Container → Done) → Done
go_on (none, c) next = next c
go_on (some e, c) next = (some e, c)

abbrev pub or_no_callbacks : Option (List String) → List String
or_no_callbacks none = []
or_no_callbacks (some cbs) = cbs

-- What a callback of `rebinding` does with the container that it is handed; it adds no callback to
-- the ones that are being called.
module _ (callbacks : String → Container → Done) where
  unfoldable pub run_callbacks : List String → Container → Done
  run_callbacks [] c = (none, c)
  run_callbacks (cb ∷ cbs) c = go_on (callbacks cb c) (run_callbacks cbs)

  unfoldable pub fire_rebinding : Key → Bool → Container → Done
  unfolding run_callbacks
  fire_rebinding k false c = (none, c)
  fire_rebinding k true c = run_callbacks (or_no_callbacks (find same k c.registry.rebinding_cbs)) c

  unfoldable pub bind : Key → Option Concrete → Bool → Bool → Container → Done
  unfolding drop_copies fire_rebinding or_itself bound
  bind abstract concrete shared scoped c =
      let k = alias_of c.registry.aliases abstract in
      let b : Binding = record {
        concrete = or_itself abstract concrete;
        shared = shared;
        scoped = scoped;
      } in
      fire_rebinding k (bound abstract c) (record {
        registry = record c.registry { bindings = store same k b c.registry.bindings };
        pool = drop_copies k c.pool;
      })

  unfoldable pub singleton : Key → Option Concrete → Container → Done
  singleton abstract concrete c = bind abstract concrete true false c

  unfoldable pub scoped : Key → Option Concrete → Container → Done
  scoped abstract concrete c = bind abstract concrete false true c

  unfoldable pub bind_if : Key → Option Concrete → Bool → Bool → Container → Done
  bind_if abstract concrete shared scoped c =
      if bound abstract c then (none, c) else bind abstract concrete shared scoped c

  unfoldable pub instance_ : Key → Object → Container → Done
  instance_ abstract o c =
      let k = alias_of c.registry.aliases abstract in
      let p = record c.pool { instances = store same k o c.pool.instances } in
      fire_rebinding k (bound abstract c) (record c { pool = p })

unfoldable pub alias : String → Key → Container → Container
alias name abstract c = record c {
  registry = record c.registry { aliases = insert name abstract c.registry.aliases };
}

-- one closure on an object
unfoldable pub extend_object : Extender → Object → Pool → Object × Pool
extend_object e o p =
    if e.replaces
    then (p.next, record p { next = suc p.next; log = p.log ++ extended e.ident o p.next ∷ [] })
    else (o, record p { log = p.log ++ extended e.ident o o ∷ [] })

unfoldable pub added {ℓ} : {A : Type ℓ} → Option (List A) → A → List A
added none x = x ∷ []
added (some xs) x = xs ++ x ∷ []

-- on a resolved object at once, or else at the next build
unfoldable pub extend : Key → Extender → Container → Container
unfolding extend_object added
extend abstract e c =
    let k = alias_of c.registry.aliases abstract in
    elim (find same k c.pool.instances) [
      | some o ↦
          let (o', p) = extend_object e o c.pool in
          record c { pool = record p { instances = store same k o' p.instances } }
      | none ↦ record c {
        registry = record c.registry {
          extenders =
              store same k (added (find same k c.registry.extenders) e) c.registry.extenders;
        };
      }
    ]

unfoldable pub extend_tag : Option (List Key) → List Key → List Key
extend_tag none ks = ks
extend_tag (some old) ks = old ++ ks

unfoldable pub tag : List Key → String → Container → Container
unfolding extend_tag
tag abstracts name c = record c {
  registry = record c.registry {
    tags = insert name (extend_tag (lookup name c.registry.tags) abstracts) c.registry.tags;
  };
}

unfoldable pub rebinding : Key → String → Container → Container
unfolding added
rebinding abstract cb c =
    let k = alias_of c.registry.aliases abstract in
    record c {
      registry = record c.registry {
        rebinding_cbs =
            store same k (added (find same k c.registry.rebinding_cbs) cb) c.registry.rebinding_cbs;
      };
    }

unfoldable pub forget : Key → Container → Container
forget abstract c = record c { pool = drop_copies (alias_of c.registry.aliases abstract) c.pool }

unfoldable pub flush : Container → Container
flush c = record {
  registry = record c.registry { bindings = []; aliases = []; extenders = []; tags = [] };
  pool = record c.pool { instances = [] };
}

-- `_ScopeGuard`, around a function
unfoldable pub in_new_scope {ℓ} : {A : Type ℓ} → (Pool → A × Pool) → Pool → A × Pool
in_new_scope run pool =
    let (x, pool') = run (record pool { scope = some [] }) in
    (x, record pool' { scope = pool.scope })
