-- ===== src/Cache/Locks/Handle/Waits.antt =====
-- src/arvel/cache/__init__.py: waiting for a lock comes to an end.
use Prim.Native.Nat.{min}
use arvel.Common.{
  ℕ, zero, suc, ◌+◌, ◌-◌, ◌<◌, ◌≤◌, ◌≡◌, refl, Bool, true, false, some, leb, is_some, arith, eq_iff,
}
use arvel.Common.Int.{pos}
use arvel.Cache.Locks.{LockStore, expiry}
use arvel.Cache.Locks.Spec.{unexpired, holder, entry, try_acquire_lem}
use arvel.Cache.Locks.Handle.{
  CacheLock, Outcome, acquired, timed_out, acquire_failed, returned, raised, out_of_fuel, acquire,
  after_attempt, block_until, block,
}

-- The handle has the lock, as long as its lifetime lets it; or the timeout is raised, no earlier than at the
-- deadline, while somebody has the lock.
abbrev pub Ended : CacheLock → ℕ → Outcome × LockStore → Type 0
Ended l deadline (acquired t, locks) =
    holder (pos t) locks l.name
    ≡ unexpired (pos t) (some (entry l.owner (expiry (pos t) l.seconds)))
Ended l deadline (timed_out t, locks) =
    (deadline ≤ t) × (is_some (holder (pos t) locks l.name) ≡ true)
Ended l deadline (acquire_failed t, locks) = true ≡ false
Ended l deadline (returned v, locks) = true ≡ false
Ended l deadline (raised e, locks) = true ≡ false
Ended l deadline (out_of_fuel, locks) = true ≡ false

module _ (l : CacheLock) (others : ℕ → LockStore → LockStore) (late : ℕ → ℕ)
    (sleep deadline : ℕ) where
  acquire-holder :
      (now : ℕ) (locks locks' : LockStore)
      → acquire l now locks ≡ (true, locks')
      → holder (pos now) locks' l.name
        ≡ unexpired (pos now) (some (entry l.owner (expiry (pos now) l.seconds)))
  unfolding acquire
  acquire-holder now locks locks' e = ground (
    arith,
    e,
    (try_acquire_lem (pos now) l.name locks l.owner l.seconds).1 l.name,
    eq_iff l.name l.name,
  )

  refused-holder :
      (now : ℕ) (locks locks' : LockStore)
      → acquire l now locks ≡ (false, locks')
      → is_some (holder (pos now) locks' l.name) ≡ true
  unfolding acquire
  refused-holder now locks locks' e = ground (
    arith,
    e,
    (try_acquire_lem (pos now) l.name locks l.owner l.seconds).0,
    (try_acquire_lem (pos now) l.name locks l.owner l.seconds).1 l.name,
    eq_iff l.name l.name,
  )

  refused-Ended :
      (now : ℕ) (locks : LockStore) (next : LockStore → Outcome × LockStore) (b : Bool)
      → leb deadline now ≡ b
      → is_some (holder (pos now) locks l.name) ≡ true
      → (now < deadline → (locks' : LockStore) → Ended l deadline (next locks'))
      → Ended l deadline (elim b [ true ↦ (timed_out now, locks) | false ↦ next locks ])
  refused-Ended now locks next true e held k = (ground (arith, e), held)
  refused-Ended now locks next false e held k = k (ground (arith, e)) locks

  attempt-Ended :
      (now : ℕ) (locks : LockStore) (x : Bool × LockStore) (next : LockStore → Outcome × LockStore)
      → acquire l now locks ≡ x
      → (now < deadline → (locks' : LockStore) → Ended l deadline (next locks'))
      → Ended l deadline (after_attempt l others late sleep deadline now x next)
  attempt-Ended now locks (true, locks') next e k = acquire-holder now locks locks' e
  attempt-Ended now locks (false, locks') next e k =
      refused-Ended now locks' next (leb deadline now) refl (refused-holder now locks locks' e) k

  block_until-Ended :
      (fuel now : ℕ) (locks : LockStore)
      → 0 < sleep
      → 0 < fuel
      → deadline < now + fuel
      → Ended l deadline (block_until l others late sleep deadline fuel now locks)
  unfolding block_until
  block_until-Ended zero now locks s p f = ground (arith, p)
  block_until-Ended (suc fuel) now locks s p f =
      attempt-Ended now locks (acquire l now locks) _ refl (λ early locks'.
        block_until-Ended fuel (now + min sleep (deadline - now) + late now) (others now locks') s
          (omega (arith, early)) (omega (arith, early)))

-- Waiting with a sleep of at least one tick comes to an end, whatever the others do and however late the sleeps end:
-- the handle has the lock, as long as its lifetime lets it, or the timeout is raised, no earlier than
-- `wait_seconds` after the call, at a time at which somebody has the lock.
pub block-Ended :
    (l : CacheLock) (others : ℕ → LockStore → LockStore) (late : ℕ → ℕ)
    (wait_seconds sleep fuel now : ℕ) (locks : LockStore)
    → 0 < sleep
    → wait_seconds < fuel
    → Ended l (now + wait_seconds) (block l others late wait_seconds sleep fuel now locks)
unfolding block
block-Ended l others late wait_seconds sleep fuel now locks s f =
    block_until-Ended l others late sleep (now + wait_seconds) fuel now locks s (omega (arith, f))
      (omega (arith, f))
