-- ===== src/Cache/Locks/Spec.antt =====
-- src/arvel/cache/__init__.py: the lock table against its abstract view, which shows for each name
-- the entry that has not expired.
use arvel.Common.{
  String, ◌≡◌, Bool, true, false, not, ◌&&◌, Option, none, some, if◌then◌else◌, str_eq, arith,
  eq_iff, is_some,
}
use arvel.Common.Int.{ℤ, ◌+ℤ◌}
use arvel.Common.Assoc.{lookup, erase, lookup-insert, lookup-erase}
use arvel.Cache.Locks.{
  Entry, LockStore, has_expired, expiry, try_acquire, release, refresh, force_release,
}

-- The entry that a caller can meet at a time.
abbrev pub unexpired : ℤ → Option Entry → Option Entry
unexpired now none = none
unexpired now (some e) = if has_expired now e.expires_at then none else some e

unfoldable pub holder : ℤ → LockStore → String → Option Entry
holder now locks name = unexpired now (lookup name locks)

abbrev pub owned_by : Option Entry → String → Bool
owned_by none owner = false
owned_by (some e) owner = str_eq e.owner owner

abbrev pub entry : String → Option ℤ → Entry
entry owner expires_at = record { owner = owner; expires_at = expires_at }

module _ (now : ℤ) (name : String) (locks : LockStore) where
  -- `try_acquire` succeeds exactly where nobody holds the lock; the table then shows the new entry,
  -- unless that has expired at once, and no other name has changed. A refusal changes nothing that
  -- shows.
  pub try_acquire_lem :
      (owner : String) (seconds : Option ℤ)
      → let (got, locks') = try_acquire now name owner seconds locks in
        (got ≡ not (is_some (holder now locks name)))
        × ((j : String)
            → holder now locks' j ≡ (
                if got && str_eq name j
                then unexpired now (some (entry owner (expiry now seconds)))
                else holder now locks j))
  unfolding try_acquire holder
  try_acquire_lem owner seconds = (
    ground arith,
    λ j. ground (
      arith,
      lookup-erase name j locks,
      lookup-insert name j (entry owner (expiry now seconds)) locks,
      lookup-insert name j (entry owner (expiry now seconds)) (erase name locks),
      eq_iff name j,
    ),
  )

  -- `release` succeeds exactly where this owner holds the lock, which is then free; no other name
  -- changes, and a refusal changes nothing that shows.
  pub release_lem :
      (owner : String)
      → let (done, locks') = release now name owner locks in
        (done ≡ owned_by (holder now locks name) owner)
        × ((j : String)
            → holder now locks' j ≡ (if done && str_eq name j then none else holder now locks j))
  unfolding release holder
  release_lem owner = (ground arith, λ j. ground (arith, lookup-erase name j locks, eq_iff name j))

  -- `refresh` succeeds exactly where this owner holds the lock, which then ends `seconds` from now.
  pub refresh_lem :
      (owner : String) (seconds : ℤ)
      → let (done, locks') = refresh now name owner seconds locks in
        (done ≡ owned_by (holder now locks name) owner)
        × ((j : String)
            → holder now locks' j ≡ (
                if done && str_eq name j
                then unexpired now (some (entry owner (some (now +ℤ seconds))))
                else holder now locks j))
  unfolding refresh holder
  refresh_lem owner seconds = (
    ground arith,
    λ j. ground (
      arith,
      lookup-erase name j locks,
      lookup-insert name j (entry owner (some (now +ℤ seconds))) locks,
      eq_iff name j,
    ),
  )

pub force_release_lem :
    (now : ℤ) (name j : String) (locks : LockStore)
    → holder now (force_release name locks) j ≡ (if str_eq name j then none else holder now locks j)
unfolding force_release holder
force_release_lem now name j locks = ground (arith, lookup-erase name j locks)

-- An acquisition that succeeds writes its entry, whatever its lifetime.
pub acquired_entry :
    (now : ℤ) (name owner : String) (seconds : Option ℤ) (locks : LockStore)
    → (try_acquire now name owner seconds locks).0 ≡ true
    → lookup name (try_acquire now name owner seconds locks).1
      ≡ some (entry owner (expiry now seconds))
unfolding try_acquire
acquired_entry now name owner seconds locks h = ground (
  arith,
  h,
  eq_iff name name,
  lookup-insert name name (entry owner (expiry now seconds)) locks,
  lookup-insert name name (entry owner (expiry now seconds)) (erase name locks),
)

pub held-refuses :
    (now : ℤ) (name owner other : String) (seconds ends : Option ℤ) (locks : LockStore)
    → lookup name locks ≡ some (entry other ends)
    → has_expired now ends ≡ false
    → (try_acquire now name owner seconds locks).0 ≡ false
unfolding try_acquire
held-refuses now name owner other seconds ends locks l x = ground (arith, l, x)

-- after `release` the caller holds the lock no more
pub release-frees :
    (now : ℤ) (name owner : String) (locks : LockStore)
    → owned_by (holder now (release now name owner locks).1 name) owner ≡ false
release-frees now name owner locks = ground (
  arith,
  release_lem now name locks owner,
  (release_lem now name locks owner).1 name,
  eq_iff name name,
)
