-- ===== src/Kernel/Container/Scoped.antt =====
-- src/arvel/kernel/container.py: scoped bindings, in a scope.
use arvel.Common.{
  ℕ, String, ◌≡◌, refl, sym, ap, ◌∙◌, true, false, Option, none, some, [], arith, is_some,
  Bool-cases, inl, inr,
}
use mathlib.Core.Path.{subst}
use arvel.Common.Keyed.{Keyed, find, store, find-store}
use arvel.Kernel.Container.{Key, same, same_iff, Object, Concrete, Registry, Pool, alias_of}
use arvel.Kernel.Container.Resolve.{
  ClassInfo, Result, made, failed, out_of_fuel, Run, and_then, in_scope, store_scope, concrete_of,
  is_scoped, build_finished, scoped_copy, resolve_scoped, resolve_plain, resolve_with, resolve,
  make,
}
use arvel.Kernel.Container.Keeps.{build_finished-keeps}

module _ (r : Registry) (classes : String → ClassInfo) (abstract : Key) where
  abbrev pub scoped_key : Key
  scoped_key = alias_of r.aliases abstract

  abbrev pub IsScoped : Type 0
  IsScoped = is_scoped (find same scoped_key r.bindings) ≡ true

  -- there is a scope, and the container has no instance of the key outside of it
  abbrev InScope : Pool → Type 0
  InScope p = (is_some p.scope ≡ true) × (find same scoped_key p.instances ≡ none)

  store-InScope :
      (k : Key) (o : Object) (s : Option (Keyed Key Object))
      → is_some s ≡ true
      → is_some (store_scope k o s) ≡ true
  store-InScope k o none h = h
  store-InScope k o (some s) h = refl

  other-key :
      (k : Key) → IsScoped → is_scoped (find same k r.bindings) ≡ false → same k scoped_key ≡ false
  other-key k s u = elim (Bool-cases (same k scoped_key)) [
    | inl e ↦
        let alike =
          ap (λ (j : Key). is_scoped (find same j r.bindings)) ((same_iff k scoped_key).0 e) in
        cc (alike, s, u)
    | inr e ↦ e
  ]

  instances-InScope :
      (k : Key) (o : Object) (pool : Pool)
      → IsScoped
      → is_scoped (find same k r.bindings) ≡ false
      → InScope pool
      → InScope (record pool { instances = store same k o pool.instances })
  instances-InScope k o pool s u (h, n) =
      (h, find-store same same_iff k scoped_key o pool.instances ∙ rw (other-key k s u, n) refl)

  build-InScope :
      (fuel : ℕ) (pool : Pool) (x : Concrete)
      → IsScoped
      → InScope pool
      → InScope (build_finished r classes (resolve r classes fuel) [] [] scoped_key x pool).1
  build-InScope fuel pool x s h =
      build_finished-keeps r classes InScope (λ p n log f. f)
        (λ k o p f. (store-InScope k o p.scope f.0, f.1))
        (λ k o p u f. instances-InScope k o p s u f) fuel [] [] scoped_key x pool h

  in-store_scope :
      (o : Object) (s : Option (Keyed Key Object))
      → is_some s ≡ true
      → in_scope scoped_key (store_scope scoped_key o s) ≡ some o
  in-store_scope o none h = cc
  in-store_scope o (some s) h =
      ground
        (arith, find-store same same_iff scoped_key scoped_key o s, same_iff scoped_key scoped_key)

  abbrev keep : Object → Run
  keep o p = (made o, record p { scope = store_scope scoped_key o p.scope })

  -- the next `make` gives this and changes nothing
  abbrev Stays : ℕ → Result × Pool → Type 0
  Stays fuel' x = make r classes fuel' abstract [] x.1 ≡ x

  module _ (fuel' : ℕ) (s : IsScoped) where
    instance-Stays :
        (o : Object) (pool : Pool)
        → find same scoped_key pool.instances ≡ some o
        → Stays fuel' (made o, pool)
    unfolding make resolve_with
    instance-Stays o pool e = rw (e) refl

    copy-Stays :
        (o : Object) (pool : Pool)
        → find same scoped_key pool.instances ≡ none
        → in_scope scoped_key pool.scope ≡ some o
        → Stays fuel' (made o, pool)
    unfolding make resolve_with resolve_scoped
    copy-Stays o pool n e = rw (n, s, e) refl

    kept-Stays :
        (o : Object) (x : Result × Pool) (pool' : Pool)
        → InScope x.1
        → and_then x keep ≡ (made o, pool')
        → Stays fuel' (made o, pool')
    kept-Stays o (made o', p) pool' (h, n) e = subst (Stays fuel') e (
        copy-Stays o' (record p { scope = store_scope scoped_key o' p.scope }) n
          (in-store_scope o' p.scope h))
    kept-Stays o (failed e', p) pool' h e = cc (ap (λ (y : Result × Pool). y.0) e)
    kept-Stays o (out_of_fuel, p) pool' h e = cc (ap (λ (y : Result × Pool). y.0) e)

    module _ (fuel : ℕ) (o : Object) (pool pool' : Pool) (active : is_some pool.scope ≡ true) where
      abbrev bound_concrete : Concrete
      bound_concrete = concrete_of scoped_key (find same scoped_key r.bindings)

      abbrev copied : Option Object → Result × Pool
      copied found =
          scoped_copy r classes (resolve r classes fuel) [] [] scoped_key bound_concrete found pool

      copied-Stays :
          (found : Option Object)
          → find same scoped_key pool.instances ≡ none
          → in_scope scoped_key pool.scope ≡ found
          → copied found ≡ (made o, pool')
          → Stays fuel' (made o, pool')
      copied-Stays (some o') n e h = subst (Stays fuel') h (copy-Stays o' pool n e)
      copied-Stays none n e h =
          kept-Stays o
            (build_finished r classes (resolve r classes fuel) [] [] scoped_key bound_concrete pool)
            pool' (build-InScope fuel pool bound_concrete s (active, n)) h

      plain-Stays :
          (found : Option Object)
          → find same scoped_key pool.instances ≡ found
          → resolve_plain r classes (resolve r classes fuel) [] [] scoped_key found pool
            ≡ (made o, pool')
          → Stays fuel' (made o, pool')
      unfolding resolve_scoped
      plain-Stays (some o') e h = subst (Stays fuel') h (instance-Stays o' pool e)
      plain-Stays none e h =
          copied-Stays (in_scope scoped_key pool.scope) e refl (sym (rw (s) refl) ∙ h)

  -- A scoped binding, in a scope: when `make` has made an object once, it returns the same one the next time,
  -- and builds, calls and changes nothing, whatever was resolved for the construction.
  pub scoped_once :
      (fuel fuel' : ℕ) (o : Object) (pool pool' : Pool)
      → IsScoped
      → is_some pool.scope ≡ true
      → make r classes fuel abstract [] pool ≡ (made o, pool')
      → make r classes fuel' abstract [] pool' ≡ (made o, pool')
  unfolding make resolve_with
  scoped_once fuel fuel' o pool pool' s active h =
      plain-Stays fuel' s fuel o pool pool' active (find same scoped_key pool.instances) refl h
