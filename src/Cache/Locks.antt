-- ===== src/Cache/Locks.antt =====
-- src/arvel/cache/__init__.py: `_ArrayLockStore`, the lock table of the array driver. A name has an
-- owner token and a time at which the lock ends. The clock, a float, is read as a number of ticks.
pub mod Spec
pub mod Exclusion
pub mod Refinement
pub mod Handle
mod Tests
use arvel.Common.{String, Bool, true, false, not, Option, none, some, if◌then◌else◌, str_eq}
use arvel.Common.Int.{ℤ, ◌+ℤ◌, leb_ℤ}
use arvel.Common.Assoc.{Dict, lookup, insert, erase}

pub record Entry : Type 0 where
  pub owner : String
  pub expires_at : Option ℤ

abbrev pub LockStore : Type 0
LockStore = Dict Entry

unfoldable pub has_expired : ℤ → Option ℤ → Bool
has_expired now none = false
has_expired now (some t) = leb_ℤ t now

-- `_live`: an expired entry is deleted as it is met
unfoldable pub live : ℤ → String → LockStore → Option Entry × LockStore
unfolding has_expired
live now name locks = elim (lookup name locks) [
  | none ↦ (none, locks)
  | some e ↦ if has_expired now e.expires_at then (none, erase name locks) else (some e, locks)
]

unfoldable pub expiry : ℤ → Option ℤ → Option ℤ
expiry now none = none
expiry now (some seconds) = some (now +ℤ seconds)

unfoldable pub try_acquire : ℤ → String → String → Option ℤ → LockStore → Bool × LockStore
unfolding live expiry
try_acquire now name owner seconds locks =
    let (current, locks') = live now name locks in
    elim current [
      | some _ ↦ (false, locks')
      | none ↦
          (true, insert name (record { owner = owner; expires_at = expiry now seconds }) locks')
    ]

unfoldable pub release : ℤ → String → String → LockStore → Bool × LockStore
unfolding live
release now name owner locks =
    let (current, locks') = live now name locks in
    elim current [
      | none ↦ (false, locks')
      | some e ↦ if str_eq e.owner owner then (true, erase name locks') else (false, locks')
    ]

unfoldable pub refresh : ℤ → String → String → ℤ → LockStore → Bool × LockStore
unfolding live
refresh now name owner seconds locks =
    let (current, locks') = live now name locks in
    elim current [
      | none ↦ (false, locks')
      | some e ↦
          if str_eq e.owner owner
          then (
            true,
            insert name (record { owner = owner; expires_at = some (now +ℤ seconds) }) locks',
          )
          else (false, locks')
    ]

unfoldable pub force_release : String → LockStore → LockStore
force_release name locks = erase name locks
