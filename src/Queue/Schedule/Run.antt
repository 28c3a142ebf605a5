-- ===== src/Queue/Schedule/Run.antt =====
-- src/arvel/queue/scheduler.py: `run`, over the lock table of the shared cache, with the hooks and
-- callbacks that it calls, in order. Between the two ends of a run others may use the table: that is
-- an argument, as are the times of the two ends and the fresh owner tokens of the two locks.
use Prim.Native.String.{◌++◌ as ◌+++◌}
use arvel.Common.{
  ℕ, String, Bool, true, false, not, ◌&&◌, none, some, List, [], ◌∷◌, ◌++◌, if◌then◌else◌, ◌/◌, ◌%◌,
  ◌==◌,
}
use arvel.Common.Int.{ℤ, pos}
use arvel.Cache.Locks.{LockStore, try_acquire, release}
use arvel.Queue.Schedule.Cron.{Moment}
use arvel.Queue.Schedule.Event.{Event, Task, identity}
use arvel.Queue.Schedule.Due.{Environment, localized}

-- the calls that were made, and whether none raised
abbrev pub Fired : Type 0
Fired = List Task × Bool

-- `_fire`
unfoldable pub fire : List Task → Fired
fire [] = ([], true)
fire (hook ∷ hooks) =
    let (done, fine) = fire hooks in if hook.raises then (hook ∷ [], false) else (hook ∷ done, fine)

-- one after the other, the second only where the first did not raise
abbrev pub followed_by : Fired → Fired → Fired
followed_by (done, true) (more, fine) = (done ++ more, fine)
followed_by (done, false) next = (done, false)

-- a handler that runs where the first raised, and raises again
abbrev pub except : Fired → Fired → Fired
except (done, true) handler = (done, true)
except (done, false) (more, _) = (done ++ more, false)

-- `finally`: the cleanup runs in any case
abbrev pub finally_do : Fired → Fired → Fired
finally_do (done, fine) (more, fine') = (done ++ more, fine && fine')

-- the body of `run` past the locks, with the `after` hooks
unfoldable pub calls : Event → Fired
unfolding fire
calls e =
    finally_do
      (followed_by (fire e.before_hooks) (
        followed_by (except (fire (e.callback ∷ [])) (fire e.failure_hooks))
          (fire e.success_hooks)))
      (fire e.after_hooks)

abbrev pub digit : ℕ → String
digit n =
    if n == 0
    then "0"
    else (if n == 1
        then "1"
        else (if n == 2
            then "2"
            else (if n == 3
                then "3"
                else (if n == 4
                    then "4"
                    else (if n == 5
                        then "5"
                        else (if n == 6
                            then "6"
                            else (if n == 7 then "7" else (if n == 8 then "8" else "9"))))))))

abbrev pub two_digits : ℕ → String
two_digits n = digit (n / 10 % 10) +++ digit (n % 10)

-- `strftime("%Y%m%d%H%M")`
unfoldable pub bucket : Moment → String
bucket m =
    two_digits (m.year / 100)
    +++ two_digits (m.year % 100)
    +++ two_digits m.month
    +++ two_digits m.day
    +++ two_digits m.hour
    +++ two_digits m.minute

unfoldable pub claim_name : Environment → Event → Moment → String
unfolding identity bucket localized
claim_name env e moment =
    "schedule:one_server:" +++ identity e +++ ":" +++ bucket (localized env e moment)

unfoldable pub overlap_name : Event → String
unfolding identity
overlap_name e = "schedule:overlap:" +++ identity e

-- the one-server claim, with its lifetime
unfoldable pub claim : Environment → Event → Moment → ℤ → String → LockStore → Bool × LockStore
claim env e moment now owner locks =
    if e.one_server
    then try_acquire now (claim_name env e moment) owner (some (pos 3600)) locks
    else (true, locks)

unfoldable pub take_overlap : Event → ℤ → String → LockStore → Bool × LockStore
take_overlap e now owner locks = elim e.overlap_expire [
  | none ↦ (true, locks)
  | some seconds ↦ try_acquire now (overlap_name e) owner (some seconds) locks
]

-- the end of `finally`: the overlap lock is given back
unfoldable pub give_back : Event → ℤ → String → LockStore → LockStore
give_back e later owner locks = elim e.overlap_expire [
  | none ↦ locks
  | some _ ↦ (release later (overlap_name e) owner locks).1
]

pub data Outcome : Type 0 where
  -- `run` returns False, or True, or an exception goes through it
  skipped ran failed : Outcome

-- What a run leaves: its outcome, the calls that it made, and the lock table.
pub record Run : Type 0 where
  pub outcome : Outcome
  pub made : List Task
  pub locks : LockStore

abbrev pub outcome_of : Bool → Outcome
outcome_of fine = if fine then ran else failed

-- How a run is placed: the tokens of its two locks, the times of its two ends, and what happens to
-- the lock table between them.
pub record Placed : Type 0 where
  pub claim_owner : String
  pub overlap_owner : String
  pub now : ℤ
  pub later : ℤ
  pub meanwhile : LockStore → LockStore

abbrev pub skip_run : LockStore → Run
skip_run locks = record { outcome = skipped; made = []; locks = locks }

-- past the locks: an `after` hook that raises ends the `finally` clause before the locks are released
unfoldable pub run_calls : Event → Placed → LockStore → Run
run_calls e p locks =
    let (made, fine) = calls e in
    let (_, after_fine) = fire e.after_hooks in
    record {
      outcome = outcome_of fine;
      made = made;
      locks =
          if after_fine
          then give_back e p.later p.overlap_owner (p.meanwhile locks)
          else p.meanwhile locks;
    }

-- the three returns of `run` before the callback: down for maintenance, claimed elsewhere, in flight
unfoldable pub pass : Bool → Bool → Bool → Run → Run → Run → Run → Run
pass true claimed taken sat_out lost overlapping through = sat_out
pass false false taken sat_out lost overlapping through = lost
pass false true false sat_out lost overlapping through = overlapping
pass false true true sat_out lost overlapping through = through

unfoldable pub run : Environment → Bool → Event → Moment → Placed → LockStore → Run
run env down e moment p locks =
    let (claimed, locks') = claim env e moment p.now p.claim_owner locks in
    let (taken, locks'') = take_overlap e p.now p.overlap_owner locks' in
    pass (not e.runs_in_maintenance && down) claimed taken (skip_run locks) (skip_run locks')
      (skip_run locks'') (run_calls e p locks'')

-- `_run_one`: a failure is logged, and counts as a run
unfoldable pub counts_as_run : Outcome → Bool
counts_as_run skipped = false
counts_as_run ran = true
counts_as_run failed = true
