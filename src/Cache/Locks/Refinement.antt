-- ===== src/Cache/Locks/Refinement.antt =====
-- src/arvel/cache/__init__.py: the calls on the lock table implement calls on the abstract view.
use arvel.Common.{
  String, ◌≡◌, refl, Bool, true, not, ◌&&◌, Option, none, some, if◌then◌else◌, str_eq, is_some,
}
use arvel.Common.Int.{ℤ, ◌+ℤ◌}
use arvel.Cache.Locks.{Entry, LockStore, expiry}
use arvel.Cache.Locks.Spec.{
  holder, unexpired, entry, owned_by, try_acquire_lem, release_lem, refresh_lem, force_release_lem,
}
use arvel.Cache.Locks.Exclusion.{Call, acquires, releases, refreshes, forces, call}

-- the entries that a caller can meet, by name
abbrev pub View : Type 0
View = String → Option Entry

-- whether a call does what it is for
abbrev pub granted : Call → View → Bool
granted (acquires n o s) v = not (is_some (v n))
granted (releases n o) v = owned_by (v n) o
granted (refreshes n o s) v = owned_by (v n) o
granted (forces n) v = true

-- what the name shows after a call that did
abbrev pub shown : ℤ → Call → Option Entry
shown now (acquires n o s) = unexpired now (some (entry o (expiry now s)))
shown now (releases n o) = none
shown now (refreshes n o s) = unexpired now (some (entry o (some (now +ℤ s))))
shown now (forces n) = none

abbrev pub name_of : Call → String
name_of (acquires n o s) = n
name_of (releases n o) = n
name_of (refreshes n o s) = n
name_of (forces n) = n

abbrev pub updated : ℤ → Call → View → View
updated now c v j = if granted c v && str_eq (name_of c) j then shown now c else v j

-- Every call answers as the view says, acquiring exactly a name that nobody holds, giving up and moving
-- exactly a lock of this owner; then the view shows the new entry, or none, under this name and no
-- other name changes. A refusal changes nothing that shows.
pub call_lem :
    (now : ℤ) (c : Call) (locks : LockStore)
    → let (got, locks') = call now c locks in
      (got ≡ granted c (holder now locks))
      × ((j : String) → holder now locks' j ≡ updated now c (holder now locks) j)
unfolding call
call_lem now (acquires n o s) locks =
    let (g, h) = try_acquire_lem now n locks o s in (g, λ j. rw⁻¹ (g) (h j))
call_lem now (releases n o) locks =
    let (g, h) = release_lem now n locks o in (g, λ j. rw⁻¹ (g) (h j))
call_lem now (refreshes n o s) locks =
    let (g, h) = refresh_lem now n locks o s in (g, λ j. rw⁻¹ (g) (h j))
call_lem now (forces n) locks = (refl, λ j. force_release_lem now n j locks)
