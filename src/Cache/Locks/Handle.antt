-- ===== src/Cache/Locks/Handle.antt =====
-- src/arvel/cache/__init__.py: `CacheLock` over the lock table, in whole ticks. Between two attempts anybody may
-- use the table, and a sleep may last longer than it was asked to.
pub mod Waits
use Prim.Native.Nat.{min}
use arvel.Common.{
  ℕ, zero, suc, ◌+◌, ◌-◌, String, Bool, true, false, Option, none, some, if◌then◌else◌, leb,
}
use arvel.Common.Int.{ℤ, pos}
use arvel.Cache.Locks.{LockStore, try_acquire, release}

pub record CacheLock : Type 0 where
  pub name : String
  pub owner : String
  pub seconds : Option ℤ

-- what a call comes to: `LockTimeout` and `LockAcquireFailed` come with the tick at which they are raised
pub data Outcome : Type 0 where
  acquired : ℕ → Outcome
  timed_out : ℕ → Outcome
  acquire_failed : ℕ → Outcome
  returned : String → Outcome
  raised : String → Outcome
  out_of_fuel : Outcome

unfoldable pub acquire : CacheLock → ℕ → LockStore → Bool × LockStore
acquire l now locks = try_acquire (pos now) l.name l.owner l.seconds locks

-- `_run_and_release`: the callback, and the release whatever it comes to
unfoldable pub run_and_release :
    CacheLock → ℕ → (LockStore → Outcome × LockStore) → LockStore → Outcome × LockStore
run_and_release l later callback locks =
    let (outcome, locks') = callback locks in
    (outcome, (release (pos later) l.name l.owner locks').1)

unfoldable pub get :
    CacheLock → ℕ → ℕ → (LockStore → Outcome × LockStore) → LockStore → Outcome × LockStore
unfolding acquire run_and_release
get l now later callback locks =
    let (got, locks') = acquire l now locks in
    let done = run_and_release l later callback locks' in
    if got then done else (acquire_failed now, locks')

module _ (l : CacheLock) (others : ℕ → LockStore → LockStore) (late : ℕ → ℕ)
    (sleep deadline : ℕ) where
  -- after an attempt: the lock, the timeout, or the other attempts
  abbrev pub after_attempt :
      ℕ → Bool × LockStore → (LockStore → Outcome × LockStore) → Outcome × LockStore
  after_attempt now (true, locks) next = (acquired now, locks)
  after_attempt now (false, locks) next = elim (leb deadline now) [
    | true ↦ (timed_out now, locks)
    | false ↦ next locks
  ]

  unfoldable pub block_until : ℕ → ℕ → LockStore → Outcome × LockStore
  unfolding acquire
  block_until zero now locks = (out_of_fuel, locks)
  block_until (suc fuel) now locks =
      after_attempt now (acquire l now locks) (λ locks'.
        block_until fuel (now + min sleep (deadline - now) + late now) (others now locks'))

-- `block` with no callback
unfoldable pub block :
    CacheLock
    → (ℕ → LockStore → LockStore)
    → (ℕ → ℕ)
    → ℕ
    → ℕ
    → ℕ
    → ℕ
    → LockStore
    → Outcome × LockStore
unfolding block_until
block l others late wait_seconds sleep fuel now =
    block_until l others late sleep (now + wait_seconds) fuel now
