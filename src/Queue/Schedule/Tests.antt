-- ===== src/Queue/Schedule/Tests.antt =====
-- Cron expressions at concrete moments, and an event on two servers.
use arvel.Common.{◌≡◌, refl, true, false, [], arith}
use arvel.Common.Int.{pos, ◌+ℤ◌}
use arvel.Common.Assoc.{lookup, insert}
use arvel.Common.Text.{codes}
use arvel.Cache.Locks.{try_acquire, live, has_expired}
use arvel.Cache.Locks.Exclusion.{run as run_calls_of}
use arvel.Cache.Locks.Spec.{holder, owned_by}
use arvel.Queue.Schedule.Cron.{Moment, cron_matches}
use arvel.Queue.Schedule.Event.{
  Event, Task, event, on_one_server, without_overlapping, after, daily_at, weekdays, weekends,
  hourly, daily, weekly, monthly, quarterly, yearly, twice_daily,
}
use arvel.Queue.Schedule.Cadence.{fires, fires_if, cadence_lem}
use arvel.Queue.Schedule.Due.{Environment}
use arvel.Queue.Schedule.Run.{
  Placed, skipped, run, claim, take_overlap, overlap_name, fire, counts_as_run, pass, run_calls,
  calls, claim_name,
}
use arvel.Queue.Schedule.Claims.{one_server_once}
use arvel.Queue.Schedule.Overlap.{overlap_given_back}

-- Friday the 12th of June 2026, 09:30
abbrev friday : Moment
friday = record { year = 2026; month = 6; day = 12; weekday = 4; hour = 9; minute = 30 }

weekdays_match : cron_matches (codes "*/15 9-17 * jun mon-fri") friday ≡ true
unfolding cron_matches
weekdays_match = refl

either_day_matches : cron_matches (codes "30 9 13 * 5") friday ≡ true
unfolding cron_matches
either_day_matches = refl

wrong_alias_never_matches : cron_matches (codes "30 9 * mon *") friday ≡ false
unfolding cron_matches
wrong_alias_never_matches = refl

zero_step_never_matches : cron_matches (codes "*/0 * * * *") friday ≡ false
unfolding cron_matches
zero_step_never_matches = refl

abbrev report : Task
report = record { module_name = "jobs"; qualname = "report"; raises = true }

abbrev tidy : Task
tidy = record { module_name = "jobs"; qualname = "tidy"; raises = false }

abbrev here : Environment
here = record { astimezone = λ tz moment. moment; app_env = "local"; truthy = λ gate. true }

abbrev first : Placed
first = record {
  claim_owner = "a";
  overlap_owner = "b";
  now = pos 100;
  later = pos 160;
  meanwhile = λ locks. locks;
}

abbrev second : Placed
second = record {
  claim_owner = "c";
  overlap_owner = "d";
  now = pos 130;
  later = pos 190;
  meanwhile = λ locks. locks;
}

abbrev guarded : Event
guarded = after tidy (without_overlapping (pos 600) (on_one_server (event report)))

one_server_once_example :
    (run here false guarded friday second (run here false guarded friday first []).locks).outcome
    ≡ skipped
unfolding run claim take_overlap try_acquire live claim_name overlap_name event on_one_server
    without_overlapping after lookup has_expired counts_as_run pass run_calls calls fire
    run_calls_of ◌+ℤ◌ insert
one_server_once_example =
    one_server_once here false false guarded friday friday first second [] [] refl refl (λ l. refl)
      tt refl refl refl refl refl

overlap_given_back_example :
    owned_by
      (holder (pos 160) (run here false guarded friday first []).locks (overlap_name guarded))
      "b"
    ≡ false
unfolding run claim take_overlap try_acquire live claim_name overlap_name event on_one_server
    without_overlapping after lookup has_expired counts_as_run pass run_calls calls fire insert
overlap_given_back_example = overlap_given_back here false guarded friday first [] refl refl

cadence_lem_example :
    (fires (hourly (event tidy)) friday ≡ false)
    × (fires (daily (event tidy)) friday ≡ false)
    × (fires (weekly (event tidy)) friday ≡ false)
    × (fires (monthly (event tidy)) friday ≡ false)
    × (fires (quarterly (event tidy)) friday ≡ false)
    × (fires (yearly (event tidy)) friday ≡ false)
    × (fires (twice_daily (pos 1) (pos 13) (event tidy)) friday ≡ false)
    × (fires_if (weekdays (daily (event tidy))) friday ≡ false)
    × (fires_if (weekends (daily (event tidy))) friday ≡ false)
cadence_lem_example = cadence_lem (event tidy) friday (omega arith)

-- `daily_at("9:30")` on that Friday
daily_at_fires : fires_if (daily_at (codes "9:30") (event tidy)) friday ≡ true
unfolding fires_if fires daily_at
daily_at_fires = refl
