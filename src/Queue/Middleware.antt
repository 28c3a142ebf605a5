-- ===== src/Queue/Middleware.antt =====
-- src/arvel/queue/middleware.py: the job middleware over the lock table, the rate limiter and the cache. The
-- job that a middleware goes on to is what it comes to, with what it does to the locks or the cache.
pub mod Overlap
pub mod Window
pub mod Race
mod Tests
use Prim.Native.String.{◌++◌ as ◌+++◌}
use arvel.Common.{ℕ, String, Bool, true, false, Option, none, some, if◌then◌else◌}
use arvel.Common.Int.{ℤ, pos, leb_ℤ, ltb_ℤ, int_eq}
use arvel.Cache.Value.{int}
use arvel.Cache.Client.{Client}
use arvel.Cache.Locks.{LockStore, try_acquire, release, force_release}
use arvel.Cache.Repository.{Repo, get, increment, expire}
use arvel.Http.RateLimiter.{Site, hit_with_ttl, available_in, int_of}

-- what a job comes to: a result, an `Exception`, a `JobShouldBeReleased` with its delay, or another
-- `BaseException`
pub data Outcome : Type 0 where
  returned : String → Outcome
  failed : String → Outcome
  released : ℤ → Outcome
  stopped : String → Outcome

-- a job that is unique: its class by its qualified name, `unique_id()` and `unique_for`
pub record Unique : Type 0 where
  pub class_name : String
  pub unique_id : String
  pub unique_for : ℤ

-- the name of `unique_lock_for`
unfoldable pub unique_name : Unique → String
unique_name job = "unique_job:" +++ job.class_name +++ ":" +++ job.unique_id

-- the dispatch of a unique job: whether it goes on to enqueue it
unfoldable pub take_unique : ℤ → String → Unique → LockStore → Bool × LockStore
take_unique now owner job locks =
    try_acquire now (unique_name job) owner (some job.unique_for) locks

-- `_release_unique` of the worker
unfoldable pub give_unique : Unique → LockStore → LockStore
give_unique job locks = force_release (unique_name job) locks

pub record WithoutOverlapping : Type 0 where
  pub key : String
  pub expire : ℤ
  pub release_after : ℤ

unfoldable pub overlap_name : WithoutOverlapping → String
overlap_name m = "job_overlap:" +++ m.key

-- the run of the job and, whatever it comes to, the release
unfoldable pub run_held :
    WithoutOverlapping
    → ℤ
    → String
    → (LockStore → Outcome × LockStore)
    → LockStore
    → Outcome × LockStore
run_held m later owner next locks =
    let (outcome, locks') = next locks in (outcome, (release later (overlap_name m) owner locks').1)

-- `WithoutOverlapping.handle`, with the times at which it asks for the lock and gives it back
unfoldable pub without_overlapping :
    WithoutOverlapping
    → ℤ
    → ℤ
    → String
    → (LockStore → Outcome × LockStore)
    → LockStore
    → Outcome × LockStore
without_overlapping m now later owner next locks =
    let (got, locks') = try_acquire now (overlap_name m) owner (some m.expire) locks in
    if got then run_held m later owner next locks' else (released m.release_after, locks')

-- `wait or self.decay_seconds`
abbrev pub delay_of : ℤ → ℤ → ℤ
delay_of wait decay = if int_eq wait (pos 0) then decay else wait

module _ (c : Client) where
  -- the counting of a failure
  unfoldable pub count_failure : String → ℤ → Repo c → Repo c
  count_failure key decay_seconds r =
      let (count, r') = increment c key (pos 1) r in
      if int_eq count (pos 1) then (expire c key decay_seconds r').1 else r'

  -- the job, which may use the cache and have any other effect; what others do to the cache while it runs is
  -- part of what it does
  abbrev pub Next : Type 0 → Type 0
  Next W = Site c W → Outcome × Site c W

  module _ {W : Type 0} where
    -- `RateLimited.handle`
    unfoldable pub rate_limited : String → ℤ → ℤ → Next W → Next W
    rate_limited key max_attempts decay_seconds next s =
        let (count, r) = hit_with_ttl c key decay_seconds s.cache in
        if ltb_ℤ max_attempts count
        then (let (wait, r') = available_in c key r in
            (released (delay_of wait decay_seconds), record s { cache = r' }))
        else next (record s { cache = r })

    unfoldable pub after_job : String → ℤ → Outcome × Site c W → Outcome × Site c W
    after_job key decay_seconds (returned v, s) = (returned v, s)
    after_job key decay_seconds (failed e, s) =
        (failed e, record s { cache = count_failure key decay_seconds s.cache })
    after_job key decay_seconds (released d, s) = (released d, s)
    after_job key decay_seconds (stopped e, s) = (stopped e, s)

    -- with the failures that are counted; a value that `int` refuses raises
    unfoldable pub throttle_at : Option ℤ → String → ℤ → ℤ → Next W → Next W
    throttle_at none key max_exceptions decay_seconds next s = (failed "ValueError", s)
    throttle_at (some n) key max_exceptions decay_seconds next s =
        if leb_ℤ max_exceptions n
        then (released decay_seconds, s)
        else after_job key decay_seconds (next s)

    -- `ThrottlesExceptions.handle`, with its cache key
    unfoldable pub throttles_exceptions : String → ℤ → ℤ → Next W → Next W
    throttles_exceptions key max_exceptions decay_seconds next s =
        let (v, r) = get c key (int (pos 0)) s.cache in
        throttle_at (int_of v) key max_exceptions decay_seconds next (record s { cache = r })
