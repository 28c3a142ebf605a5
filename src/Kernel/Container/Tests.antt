-- ===== src/Kernel/Container/Tests.antt =====
-- src/arvel/kernel/container.py on small programs.
use mathlib.Core.List.{Memᴰ}
use arvel.Common.Unseen.{seen_in}
use arvel.Common.{
  String, ◌≡◌, refl, Bool, true, false, Option, none, some, List, [], ◌∷◌, arith, if◌then◌else◌,
}
use arvel.Common.Keyed.{find, store, remove}
use arvel.Common.Assoc.{Dict, lookup, insert}
use arvel.Kernel.Container.{
  alias_from, bound, drop_copies, drop_scope, extend_object, fire_rebinding, run_callbacks, Done,
  rebinding, alias, alias_of, same, or_itself, singleton, bind, Key, added, text, of_class, key,
  Registry, Pool, Container, scoped, built, in_new_scope,
}
use arvel.Kernel.Container.Resolve.{
  resolve_with, is_scoped, resolve_fresh, build_finished, build, concrete_of, build_class,
  call_factory, extended_by, fallback, finish, is_shared, make_each, new_object, nonempty,
  resolve_dependencies, resolve_scoped, value_of, valued, Param, ClassInfo, Result, made, failed,
  circular, out_of_fuel, make, resolve, in_scope,
}
use arvel.Kernel.Container.Autowires.{answers, KnownParameters}
use arvel.Kernel.Container.Terminates.{make-answers}
use arvel.Kernel.Container.Shared.{shared_once}
use arvel.Kernel.Container.Rebind.{bind_lem}
use arvel.Kernel.Container.Cycle.{names_in_circle}
use arvel.Kernel.Container.Leak.{params_reach_scoped}
use arvel.Kernel.Container.Told.{BuiltWith}
use arvel.Kernel.Container.Scoped.{scoped_once}

abbrev needs : String → String → Param
needs name c = record { name = name; injectable = some c; nullable = false; has_default = false }

abbrev maybe : String → String → Param
maybe name c = record { name = name; injectable = some c; nullable = true; has_default = false }

abbrev plain_class : List Param → ClassInfo
plain_class ps = record {
  builtin = false;
  abstract_ = false;
  protocol = false;
  parameters = some ps;
  raises = none;
}

abbrev interface_class : ClassInfo
interface_class = record {
  builtin = false;
  abstract_ = true;
  protocol = false;
  parameters = some [];
  raises = none;
}

-- a service that has a repository and perhaps a clock, an interface; two classes that need each
-- other
abbrev table : Dict ClassInfo
table =
    ("Service", plain_class (needs "repo" "Repo" ∷ maybe "clock" "Clock" ∷ []))
    ∷ ("Repo", plain_class [])
    ∷ ("Clock", interface_class)
    ∷ ("Chicken", plain_class (needs "egg" "Egg" ∷ []))
    ∷ ("Egg", plain_class (maybe "chicken" "Chicken" ∷ []))
    ∷ []

abbrev class_of : Option ClassInfo → ClassInfo
class_of none = interface_class
class_of (some i) = i

abbrev classes : String → ClassInfo
classes c = class_of (lookup c table)

abbrev fresh_pool : Pool
fresh_pool = record { instances = []; scope = none; next = 10; log = [] }

abbrev nothing : Registry
nothing = record { bindings = []; aliases = []; extenders = []; tags = []; rebinding_cbs = [] }

abbrev empty_container : Container
empty_container = record { registry = nothing; pool = fresh_pool }

-- no callback does anything
abbrev quiet : String → Container → Done
quiet cb c = (none, c)

-- a shared service under a second name
abbrev app : Container
app =
    alias "service" (of_class "Service")
      (singleton quiet (of_class "Service") (some (key (of_class "Service"))) empty_container).1

abbrev service_run : Result × Pool
service_run = make app.registry classes 5 (text "service") [] app.pool

make_service :
    (service_run.0 ≡ made 11)
    × (service_run.1.log
        ≡ built "Repo" [] 10 ∷ built "Service" (("repo", some 10) ∷ ("clock", none) ∷ []) 11 ∷ [])
    × (find same (of_class "Service") service_run.1.instances ≡ some 11)
unfolding make resolve_with find alias singleton bind remove is_scoped store same lookup insert
    seen_in resolve_fresh build_finished build concrete_of build_class call_factory extended_by
    fallback finish is_shared make_each new_object nonempty resolve resolve_dependencies
    resolve_scoped value_of valued alias_from alias_of bound drop_copies drop_scope extend_object
    fire_rebinding run_callbacks or_itself
make_service = (refl, refl, refl)

-- the service's parameter "repo" is meant for the service, and so reaches the scoped class below it
abbrev leaky : String → ClassInfo
leaky c = class_of (
    lookup c (
      ("Outer", plain_class (needs "inner" "Inner" ∷ []))
      ∷ ("Inner", plain_class (maybe "level" "Level" ∷ []))
      ∷ []))

abbrev leaky_container : Container
leaky_container = (scoped quiet (of_class "Inner") none empty_container).1

scoped_gets_params :
    let (result, pool) =
      make leaky_container.registry leaky 5 (of_class "Outer") (("level", 3) ∷ []) fresh_pool in
    (result ≡ made 11)
    × (pool.log
        ≡ built "Inner" (("level", some 3) ∷ []) 10
          ∷ built "Outer" (("inner", some 10) ∷ []) 11
          ∷ [])
unfolding make resolve_with find alias singleton bind remove is_scoped store same lookup insert
    seen_in resolve_fresh build_finished build concrete_of build_class call_factory extended_by
    fallback finish is_shared make_each new_object nonempty resolve resolve_dependencies
    resolve_scoped value_of valued alias_from alias_of bound drop_copies drop_scope extend_object
    fire_rebinding run_callbacks or_itself scoped
scoped_gets_params = (refl, refl)

abbrev names : List String
names = "Service" ∷ "Repo" ∷ "Clock" ∷ "Chicken" ∷ "Egg" ∷ []

abbrev AllKnown : Dict ClassInfo → Type 0
AllKnown [] = Unit
AllKnown ((c, i) ∷ t) = KnownParameters names i.parameters × AllKnown t

either-Known :
    (b : Bool) (i : ClassInfo) (o : Option ClassInfo)
    → KnownParameters names i.parameters
    → KnownParameters names (class_of o).parameters
    → KnownParameters names (class_of (if b then some i else o)).parameters
either-Known true i o h k = h
either-Known false i o h k = k

lookup-Known :
    (t : Dict ClassInfo)
    → AllKnown t
    → (c : String) → KnownParameters names (class_of (lookup c t)).parameters
unfolding lookup
lookup-Known [] h c = tt
lookup-Known ((d, i) ∷ t) (h, hs) c = either-Known _ i (lookup c t) h (lookup-Known t hs c)

table-AllKnown : AllKnown table
unfolding seen_in
table-AllKnown = ((refl, (refl, tt)), (tt, (tt, ((refl, tt), ((refl, tt), tt)))))

make-answers_example : answers (make nothing classes 5 (of_class "Chicken") [] fresh_pool).0 ≡ true
unfolding alias_of alias_from seen_in
make-answers_example =
    make-answers names nothing classes (lookup-Known table table-AllKnown) tt 5 (of_class "Chicken")
      [] fresh_pool (omega arith) refl

cycle_found : (make nothing classes 5 (of_class "Chicken") [] fresh_pool).0 ≡ failed circular
unfolding make resolve_with find alias singleton bind remove is_scoped store same lookup insert
    seen_in resolve_fresh build_finished build concrete_of build_class call_factory extended_by
    fallback finish is_shared make_each new_object nonempty resolve resolve_dependencies
    resolve_scoped value_of valued alias_from alias_of bound drop_copies drop_scope extend_object
    fire_rebinding run_callbacks or_itself
cycle_found = refl

shared_once_example :
    make app.registry classes 7 (text "service") [] service_run.1 ≡ (made 11, service_run.1)
unfolding make resolve_with find alias singleton bind remove is_scoped store same lookup insert
    seen_in resolve_fresh build_finished build concrete_of build_class call_factory extended_by
    fallback finish is_shared make_each new_object nonempty resolve resolve_dependencies
    resolve_scoped value_of valued alias_from alias_of bound drop_copies drop_scope extend_object
    fire_rebinding run_callbacks or_itself
shared_once_example =
    shared_once app.registry classes (text "service") 5 7 11 app.pool service_run.1 (refl, refl)
      refl

-- a shared service is bound anew, while the scope has a copy of it
abbrev in_use : Container
in_use = record app {
  pool = record fresh_pool {
    instances = (of_class "Service", 4) ∷ (of_class "Repo", 5) ∷ [];
    scope = some ((of_class "Service", 6) ∷ []);
  };
}

-- a callback that is called with the container makes the service again
abbrev warming : String → Container → Done
warming cb c =
    (none, record c { pool = (make c.registry classes 5 (of_class "Service") [] c.pool).1 })

abbrev listened : Container
listened = rebinding (of_class "Service") "warm" in_use

rebound_service :
    ((bind quiet (of_class "Service") none true false listened).1.pool.instances
      ≡ (of_class "Repo", 5) ∷ [])
    × ((bind warming (of_class "Service") none true false listened).1.pool.instances
        ≡ (of_class "Repo", 5) ∷ (of_class "Service", 10) ∷ [])
unfolding bind find rebinding alias singleton store same remove make resolve_with is_scoped
    resolve_fresh build_finished build concrete_of build_class lookup insert seen_in call_factory
    extended_by fallback finish is_shared make_each new_object nonempty resolve resolve_dependencies
    resolve_scoped value_of valued added alias_from alias_of bound drop_copies drop_scope
    extend_object fire_rebinding or_itself run_callbacks
rebound_service = (refl, refl)

abbrev two_names : Registry
two_names = record nothing {
  bindings =
      (text "cache", record { concrete = key (text "store"); shared = true; scoped = false })
      ∷ (text "store", record { concrete = key (text "cache"); shared = false; scoped = true })
      ∷ [];
}

names_in_circle_example :
    resolve two_names classes 9 [] [] (text "cache") fresh_pool ≡ (out_of_fuel, fresh_pool)
unfolding make resolve_with find alias singleton bind remove is_scoped store same lookup insert
    seen_in resolve_fresh build_finished build concrete_of build_class call_factory extended_by
    fallback finish is_shared make_each new_object nonempty resolve resolve_dependencies
    resolve_scoped value_of valued alias_from alias_of bound drop_copies drop_scope extend_object
    fire_rebinding run_callbacks or_itself
names_in_circle_example =
    names_in_circle two_names classes fresh_pool 9 [] [] "cache" "store"
      (record {
        unaliased = refl;
        shared = true;
        scoped = false;
        bound_to = refl;
        differs = refl;
        no_instance = refl;
        no_copy = refl;
      })
      (record {
        unaliased = refl;
        shared = false;
        scoped = true;
        bound_to = refl;
        differs = refl;
        no_instance = refl;
        no_copy = refl;
      })

bind_lem_example :
    (c' : Container) × ((j : Key)
      → (find same j c'.pool.instances
          ≡ (if same (of_class "Service") j then none else find same j listened.pool.instances))
        × (in_scope j c'.pool.scope
            ≡ (if same (of_class "Service") j then none else in_scope j listened.pool.scope))
        × (find same j c'.registry.bindings ≡ (
            if same (of_class "Service") j
            then some
                (record { concrete = key (of_class "Service"); shared = true; scoped = false })
            else find same j listened.registry.bindings)))
    × (bind warming (of_class "Service") none true false listened
        ≡ run_callbacks warming ("warm" ∷ []) c')
unfolding alias_of or_itself run_callbacks bound find rebinding alias singleton bind store same
bind_lem_example = bind_lem warming (of_class "Service") none true false listened

-- a pool with an open scope
abbrev in_scope_pool : Pool
in_scope_pool = record fresh_pool { scope = some [] }

-- what `make("Outer", level=3)` comes to inside the scope
abbrev outer_run : Result × Pool
outer_run =
    make leaky_container.registry leaky 5 (of_class "Outer") (("level", 3) ∷ []) in_scope_pool

params_reach_scoped_example :
    BuiltWith leaky_container.registry leaky "Inner" "level" 3 outer_run.1.log
unfolding make resolve_with find alias singleton bind remove is_scoped store same lookup insert
    seen_in resolve_fresh build_finished build concrete_of build_class call_factory extended_by
    fallback finish is_shared make_each new_object nonempty resolve resolve_dependencies
    resolve_scoped value_of valued alias_from alias_of bound drop_copies drop_scope extend_object
    fire_rebinding run_callbacks or_itself scoped
params_reach_scoped_example =
    params_reach_scoped leaky_container.registry leaky "Inner" "Inner" 3 false
      (maybe "level" "Level") (maybe "level" "Level" ∷ []) refl (Memᴰ.head refl) refl "Outer"
      (needs "inner" "Inner") [] refl refl refl refl refl 5 (("level", 3) ∷ []) in_scope_pool refl
      refl refl refl 11 outer_run.1 refl

abbrev inner_run : Result × Pool
inner_run = make leaky_container.registry leaky 5 (of_class "Inner") [] in_scope_pool

scoped_once_example :
    make leaky_container.registry leaky 6 (of_class "Inner") [] inner_run.1 ≡ (made 10, inner_run.1)
unfolding make resolve_with find alias singleton bind remove is_scoped store same lookup insert
    seen_in resolve_fresh build_finished build concrete_of build_class call_factory extended_by
    fallback finish is_shared make_each new_object nonempty resolve resolve_dependencies
    resolve_scoped value_of valued alias_from alias_of bound drop_copies drop_scope extend_object
    fire_rebinding run_callbacks or_itself scoped
scoped_once_example =
    scoped_once leaky_container.registry leaky (of_class "Inner") 5 6 10 in_scope_pool inner_run.1
      refl refl refl

-- a scope within the scope builds its own, and leaves the other one its copy
two_scopes :
    let (result, pool) =
      in_new_scope (make leaky_container.registry leaky 5 (of_class "Inner") []) inner_run.1 in
    (result ≡ made 11)
    × ((make leaky_container.registry leaky 5 (of_class "Inner") [] pool).0 ≡ made 10)
unfolding make resolve_with find alias singleton bind remove is_scoped store same lookup insert
    seen_in resolve_fresh build_finished build concrete_of build_class call_factory extended_by
    fallback finish is_shared make_each new_object nonempty resolve resolve_dependencies
    resolve_scoped value_of valued alias_from alias_of bound drop_copies drop_scope extend_object
    fire_rebinding run_callbacks or_itself scoped in_new_scope
two_scopes = (refl, refl)
