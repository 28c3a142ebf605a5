-- ===== src/Queue/Middleware/Overlap.antt =====
-- src/arvel/queue/middleware.py: jobs that must not overlap, over the lock table.
use arvel.Common.{
  String, ◌≡◌, refl, Bool, true, false, some, List, Bool-cases, inl, inr, if◌then◌else◌,
}
use arvel.Common.Int.{ℤ}
use arvel.Cache.Locks.{LockStore, has_expired, expiry, try_acquire, release}
use arvel.Cache.Locks.Spec.{holder, owned_by, acquired_entry, held-refuses, release-frees}
use arvel.Cache.Locks.Exclusion.{Call, run, Undisturbed, mutual_exclusion}
use arvel.Queue.Middleware.{
  Outcome, released, WithoutOverlapping, overlap_name, run_held, without_overlapping,
}

module _ (m : WithoutOverlapping) (now : ℤ) (owner : String) (locks : LockStore) where
  abbrev pub asked : Bool × LockStore
  asked = try_acquire now (overlap_name m) owner (some m.expire) locks

  -- A run that gets the lock comes to what its job comes to, an exception or a release included;
  -- the table is then what the job has left, less the lock, which the run does not hold any more.
  -- One that does not get it puts its job back for `release_after` seconds and does nothing else:
  -- the table is as its attempt left it.
  pub without_overlapping_lem :
      (later : ℤ) (next : LockStore → Outcome × LockStore)
      → let (got, locks') = asked in
        let (outcome, locks'') = without_overlapping m now later owner next locks in
        (outcome ≡ (if got then (next locks').0 else released m.release_after))
        × (locks''
            ≡ (if got then (release later (overlap_name m) owner (next locks').1).1 else locks'))
        × ((if got then owned_by (holder later locks'' (overlap_name m)) owner else false) ≡ false)
  unfolding without_overlapping run_held
  without_overlapping_lem later next = elim (Bool-cases asked.0) [
    | inl e ↦ simp (e) (refl, refl, release-frees later (overlap_name m) owner (next asked.1).1)
    | inr e ↦ simp (e) (refl, refl, refl)
  ]

  -- While a run holds the lock, whatever the table is asked in the meantime by others, no second
  -- run of the key starts its job: before the lock ends, and unless its name is forced, every one
  -- puts its job back.
  pub no_overlap :
      (calls : List (ℤ × Call)) (now' later' : ℤ) (owner' : String)
      (next : LockStore → Outcome × LockStore)
      → asked.0 ≡ true
      → Undisturbed (overlap_name m) owner (expiry now (some m.expire)) calls
      → has_expired now' (expiry now (some m.expire)) ≡ false
      → let locks' = (run (overlap_name m) calls asked.1).1 in
        without_overlapping m now' later' owner' next locks' ≡ (
          released m.release_after,
          (try_acquire now' (overlap_name m) owner' (some m.expire) locks').1,
        )
  unfolding without_overlapping
  no_overlap calls now' later' owner' next got quiet fresh =
      let (_, held) =
        mutual_exclusion (overlap_name m) owner (expiry now (some m.expire)) calls asked.1
          (acquired_entry now (overlap_name m) owner (some m.expire) locks got) quiet in
      let refused =
        held-refuses now' (overlap_name m) owner' owner (some m.expire) (expiry now (some m.expire))
          (run (overlap_name m) calls asked.1).1 held fresh in
      simp (refused)
