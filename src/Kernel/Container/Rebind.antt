-- ===== src/Kernel/Container/Rebind.antt =====
-- src/arvel/kernel/container.py: what a new binding changes, and what it tells.
use arvel.Common.{String, ◌≡◌, refl, Bool, true, false, Option, none, some, if◌then◌else◌, arith}
use arvel.Common.Keyed.{Keyed, find, store, find-store, find-remove}
use arvel.Kernel.Container.{
  Key, same, same_iff, Object, Concrete, Binding, Container, alias_of, bound, drop_scope,
  drop_copies, or_itself, Done, or_no_callbacks, run_callbacks, fire_rebinding, bind,
}
use arvel.Kernel.Container.Resolve.{in_scope}

scope-dropped :
    (k j : Key) (s : Option (Keyed Key Object))
    → in_scope j (drop_scope k s) ≡ (if same k j then none else in_scope j s)
unfolding drop_scope
scope-dropped k j none = ground arith
scope-dropped k j (some s) = find-remove same same_iff k j s

fire_rebinding_lem :
    (callbacks : String → Container → Done) (k : Key) (was_bound : Bool) (c : Container)
    → fire_rebinding callbacks k was_bound c ≡ (
        if was_bound
        then run_callbacks callbacks (or_no_callbacks (find same k c.registry.rebinding_cbs)) c
        else (none, c))
unfolding fire_rebinding
fire_rebinding_lem callbacks k true c = refl
fire_rebinding_lem callbacks k false c = refl

module _ (callbacks : String → Container → Done) (abstract : Key) (concrete : Option Concrete)
    (shared scoped : Bool) (c : Container) where
  abbrev pub new_key : Key
  new_key = alias_of c.registry.aliases abstract

  -- Binding a key leaves no object of an earlier binding behind. It comes to a container in which
  -- the key has neither a shared instance nor a copy in the current scope and is bound to what was
  -- given, while all other keys keep their bindings, their instances and their copies. That is the
  -- result where the key was not bound; where it was, the callbacks of `rebinding` for the key are
  -- called with that container, in order, up to the first one that raises, and the result is what
  -- they make of it, whatever they do to the container, as long as none adds a callback for this
  -- key while they are called.
  pub bind_lem :
      (c' : Container) × ((j : Key)
        → (find same j c'.pool.instances
            ≡ (if same new_key j then none else find same j c.pool.instances))
          × (in_scope j c'.pool.scope ≡ (if same new_key j then none else in_scope j c.pool.scope))
          × (find same j c'.registry.bindings ≡ (
              if same new_key j
              then some (record {
                concrete = or_itself abstract concrete;
                shared = shared;
                scoped = scoped;
              })
              else find same j c.registry.bindings)))
      × (bind callbacks abstract concrete shared scoped c ≡ (
          if bound abstract c
          then run_callbacks callbacks
              (or_no_callbacks (find same new_key c.registry.rebinding_cbs))
              c'
          else (none, c')))
  unfolding bind drop_copies
  bind_lem =
      let b : Binding = record {
        concrete = or_itself abstract concrete;
        shared = shared;
        scoped = scoped;
      } in
      let c' : Container = record {
        registry = record c.registry { bindings = store same new_key b c.registry.bindings };
        pool = drop_copies new_key c.pool;
      } in
      (
        c',
        λ j. (
          find-remove same same_iff new_key j c.pool.instances,
          scope-dropped new_key j c.pool.scope,
          find-store same same_iff new_key j b c.registry.bindings,
        ),
        fire_rebinding_lem callbacks new_key (bound abstract c) c',
      )
