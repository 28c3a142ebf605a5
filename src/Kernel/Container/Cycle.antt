-- ===== src/Kernel/Container/Cycle.antt =====
-- src/arvel/kernel/container.py: names that are bound to each other.
use arvel.Common.{
  ℕ, zero, suc, String, ◌≡◌, refl, Bool, false, none, some, List, [], Bool-cases, inl, inr,
}
use arvel.Common.Assoc.{Dict}
use arvel.Common.Keyed.{find}
use arvel.Kernel.Container.{text, same, Object, key, Registry, Pool, alias_of}
use arvel.Kernel.Container.Resolve.{
  ClassInfo, out_of_fuel, in_scope, resolve_scoped, concrete_of, is_scoped, Again, build,
  build_finished, resolve_fresh, resolve_with, resolve,
}

-- The name is bound to the other one, which is another; it is no alias, and has neither an instance
-- nor a copy in the scope.
pub record BoundTo (r : Registry) (pool : Pool) (a b : String) : Type 0 where
  pub unaliased : alias_of r.aliases (text a) ≡ text a
  pub shared : Bool
  pub scoped : Bool
  pub bound_to :
      find same (text a) r.bindings
      ≡ some (record { concrete = key (text b); shared = shared; scoped = scoped })
  pub differs : same (text b) (text a) ≡ false
  pub no_instance : find same (text a) pool.instances ≡ none
  pub no_copy : in_scope (text a) pool.scope ≡ none

module _ (r : Registry) (classes : String → ClassInfo) (pool : Pool) where
  resolve_other :
      (again : Again r classes) (stack : List String) (top : Dict Object) (a b : String)
      → BoundTo r pool a b
      → ((top' : Dict Object) → again stack top' (text b) pool ≡ (out_of_fuel, pool))
      → resolve_with r classes again stack top (text a) [] pool ≡ (out_of_fuel, pool)
  unfolding resolve_with resolve_scoped resolve_fresh build_finished build concrete_of is_scoped
  resolve_other again stack top a b h e = elim (Bool-cases h.scoped) [
    | inl s ↦ rw (h.unaliased, h.no_instance, h.bound_to, s, h.no_copy, h.differs, e top) refl
    | inr s ↦ rw (h.unaliased, h.no_instance, h.bound_to, s, h.differs, e []) refl
  ]

  -- Two names that are bound to each other, neither an alias, with an instance or with a copy in
  -- the scope: to resolve one of them is to resolve the other one, so no depth of nested
  -- resolutions, however great, is enough to come to an object or to one of the container's errors.
  pub names_in_circle :
      (fuel : ℕ) (stack : List String) (top : Dict Object) (a b : String)
      → BoundTo r pool a b
      → BoundTo r pool b a
      → resolve r classes fuel stack top (text a) pool ≡ (out_of_fuel, pool)
  unfolding resolve
  names_in_circle zero stack top a b h h' = refl
  names_in_circle (suc fuel) stack top a b h h' =
      resolve_other (resolve r classes fuel) stack top a b h
        (λ top'. names_in_circle fuel stack top' b a h' h)
