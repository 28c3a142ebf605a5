-- ===== src/Kernel/Container/Shared.antt =====
-- src/arvel/kernel/container.py: shared bindings, instances, and the scope.
use arvel.Common.{ℕ, String, ◌≡◌, refl, sym, ap, ◌∙◌, true, false, Option, none, some, [], arith}
use arvel.Common.Keyed.{Keyed, find, store, find-store}
use arvel.Kernel.Container.{Key, same, same_iff, Object, Registry, Pool, alias_of}
use arvel.Kernel.Container.Resolve.{
  ClassInfo, Result, made, failed, out_of_fuel, and_then, concrete_of, is_scoped, is_shared,
  nonempty, build_finished, resolve_fresh, resolve_plain, resolve_with, resolve, make,
}

module _ (r : Registry) (classes : String → ClassInfo) (abstract : Key) where
  abbrev pub the_key : Key
  the_key = alias_of r.aliases abstract

  -- what is bound to the key is shared, and not scoped
  abbrev pub IsShared : Type 0
  IsShared =
      (is_shared (find same the_key r.bindings) ≡ true)
      × (is_scoped (find same the_key r.bindings) ≡ false)

  abbrev object_of : Result × Pool → Object
  object_of (made o, p) = o
  object_of (failed e, p) = 0
  object_of (out_of_fuel, p) = 0

  store-itself :
      (o : Object) (d : Keyed Key Object) → find same the_key (store same the_key o d) ≡ some o
  store-itself o d =
      ground (arith, find-store same same_iff the_key the_key o d, same_iff the_key the_key)

  abbrev keep : Object → Pool → Result × Pool
  keep o p = (made o, record p { instances = store same the_key o p.instances })

  kept_lem :
      (o : Object) (x : Result × Pool) (pool : Pool)
      → and_then x keep ≡ (made o, pool)
      → find same the_key pool.instances ≡ some o
  kept_lem o (made o', p) pool h =
      ap (λ (y : Result × Pool). find same the_key y.1.instances) (sym h)
      ∙ store-itself o' p.instances
      ∙ ap (λ (y : Result × Pool). some (object_of y)) h
  kept_lem o (failed e, p) pool h = cc (ap (λ (y : Result × Pool). y.0) h)
  kept_lem o (out_of_fuel, p) pool h = cc (ap (λ (y : Result × Pool). y.0) h)

  module _ (fuel : ℕ) (o : Object) (pool pool' : Pool) where
    abbrev plainly : Option Object → Result × Pool
    plainly found = resolve_plain r classes (resolve r classes fuel) [] [] the_key found pool

    abbrev fresh : Result × Pool
    fresh =
        build_finished r classes (resolve r classes fuel) [] [] the_key
          (concrete_of the_key (find same the_key r.bindings)) pool

    plainly-fresh : IsShared → plainly none ≡ and_then fresh keep
    unfolding resolve_fresh nonempty
    plainly-fresh (shared, unscoped) = rw (unscoped, shared) refl

    then_kept :
        (found : Option Object)
        → IsShared
        → find same the_key pool.instances ≡ found
        → plainly found ≡ (made o, pool')
        → find same the_key pool'.instances ≡ some o
    then_kept (some o') s e h =
        ap (λ (y : Result × Pool). find same the_key y.1.instances) (sym h)
        ∙ e
        ∙ ap (λ (y : Result × Pool). some (object_of y)) h
    then_kept none s e h = kept_lem o fresh pool' (sym (plainly-fresh s) ∙ h)

  -- A shared binding: when `make` has made an object once, it returns the same one the next time, and
  -- builds, calls and changes nothing.
  pub shared_once :
      (fuel fuel' : ℕ) (o : Object) (pool pool' : Pool)
      → IsShared
      → make r classes fuel abstract [] pool ≡ (made o, pool')
      → make r classes fuel' abstract [] pool' ≡ (made o, pool')
  unfolding make resolve_with
  shared_once fuel fuel' o pool pool' s h =
      rw (then_kept fuel o pool pool' (find same the_key pool.instances) s refl h) refl
