-- ===== src/Cache/Locks/Exclusion.antt =====
-- src/arvel/cache/__init__.py: the lock table over a whole run of calls.
use arvel.Common.{
  ℕ, ◌+◌, String, ◌≡◌, refl, Bool, true, false, not, ◌&&◌, Option, some, List, [], ◌∷◌,
  if◌then◌else◌, str_eq, arith, eq_iff,
}
use arvel.Common.Int.{ℤ, ◌+ℤ◌}
use arvel.Common.Assoc.{lookup, erase, lookup-insert, lookup-erase}
use arvel.Cache.Locks.{LockStore, has_expired, expiry, try_acquire, release, refresh, force_release}
use arvel.Cache.Locks.Spec.{entry}

-- the calls that `CacheLock` makes on the table, whoever makes them
pub data Call : Type 0 where
  acquires : String → String → Option ℤ → Call
  releases : String → String → Call
  refreshes : String → String → ℤ → Call
  forces : String → Call

unfoldable pub call : ℤ → Call → LockStore → Bool × LockStore
call now (acquires name owner seconds) locks = try_acquire now name owner seconds locks
call now (releases name owner) locks = release now name owner locks
call now (refreshes name owner seconds) locks = refresh now name owner seconds locks
call now (forces name) locks = (true, force_release name locks)

-- A successful acquisition of the name counts one.
abbrev pub grants : String → Call → Bool → ℕ
grants name (acquires n _ _) got = if got && str_eq n name then 1 else 0
grants name (releases _ _) got = 0
grants name (refreshes _ _ _) got = 0
grants name (forces _) got = 0

-- The number of acquisitions of a name that succeed in a run, and the table that it leaves.
unfoldable pub run : String → List (ℤ × Call) → LockStore → ℕ × LockStore
unfolding call
run name [] locks = (0, locks)
run name ((now, c) ∷ rest) locks =
    let (got, locks') = call now c locks in
    let (n, locks'') = run name rest locks' in (grants name c got + n, locks'')

-- The call is not one by which the owner gives up or moves its own lock, nor a forced release of it.
abbrev pub spares : String → String → Call → Bool
spares name owner (acquires _ _ _) = true
spares name owner (releases n o) = not (str_eq n name && str_eq o owner)
spares name owner (refreshes n o _) = not (str_eq n name && str_eq o owner)
spares name owner (forces n) = not (str_eq n name)

-- All calls come before the lock ends, and spare it.
abbrev pub Undisturbed : String → String → Option ℤ → List (ℤ × Call) → Type 0
Undisturbed name owner ends [] = Unit
Undisturbed name owner ends ((now, c) ∷ rest) =
    (has_expired now ends ≡ false) × (spares name owner c ≡ true) × Undisturbed name owner ends rest

module _ (name owner : String) (ends : Option ℤ) where
  -- One call that comes in time and spares the lock grants nothing and leaves it held.
  pub call_keeps :
      (now : ℤ) (c : Call) (locks : LockStore)
      → lookup name locks ≡ some (entry owner ends)
      → has_expired now ends ≡ false
      → spares name owner c ≡ true
      → let (got, locks') = call now c locks in
        (grants name c got ≡ 0) × (lookup name locks' ≡ some (entry owner ends))
  unfolding call try_acquire release refresh force_release
  call_keeps now (acquires n o seconds) locks held fresh h = ground (
    arith,
    eq_iff n name,
    lookup-erase n name locks,
    lookup-insert n name (entry o (expiry now seconds)) locks,
    lookup-insert n name (entry o (expiry now seconds)) (erase n locks),
  )
  call_keeps now (releases n o) locks held fresh h =
      ground (arith, eq_iff n name, eq_iff o owner, eq_iff owner o, lookup-erase n name locks)
  call_keeps now (refreshes n o seconds) locks held fresh h = ground (
    arith,
    eq_iff n name,
    eq_iff o owner,
    eq_iff owner o,
    lookup-erase n name locks,
    lookup-insert n name (entry o (some (now +ℤ seconds))) locks,
  )
  call_keeps now (forces n) locks held fresh h =
      ground (arith, eq_iff n name, lookup-erase n name locks)

  -- While a lock is held, until it ends, its owner gives it up or somebody forces it: whatever
  -- sequence of calls is made by whomever, no acquisition of that name succeeds, a second one by
  -- the owner neither, and the lock stays with its owner and its end.
  pub mutual_exclusion :
      (calls : List (ℤ × Call)) (locks : LockStore)
      → lookup name locks ≡ some (entry owner ends)
      → Undisturbed name owner ends calls
      → let (granted, locks') = run name calls locks in
        (granted ≡ 0) × (lookup name locks' ≡ some (entry owner ends))
  unfolding run
  mutual_exclusion [] locks held u = (refl, held)
  mutual_exclusion ((now, c) ∷ rest) locks held (fresh, spared, u) =
      let (none_granted, kept) = call_keeps now c locks held fresh spared in
      let (n, k) = mutual_exclusion rest (call now c locks).1 kept u in
      (omega (arith, none_granted, n), k)
