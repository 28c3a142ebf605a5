-- ===== src/Queue/Schedule/Cadence.antt =====
-- src/arvel/queue/scheduler.py: the moments at which the cadence helpers' expressions match.
use arvel.Common.{◌≡◌, Bool, false, ◌&&◌, ◌||◌, ◌<◌, ◌==◌, Option, none, some, arith, ltb}
use arvel.Common.Int.{pos, ◌-ℤ◌}
use arvel.Queue.Schedule.Cron.{Moment, cron_matches}
use arvel.Queue.Schedule.Event.{
  Event, hourly, daily, weekly, monthly, quarterly, yearly, weekdays, weekends, twice_daily,
}

unfoldable pub fires : Event → Moment → Bool
unfolding cron_matches
fires e m = cron_matches e.expression m

-- where the helper raises no event fires
unfoldable pub fires_if : Option Event → Moment → Bool
unfolding fires
fires_if none m = false
fires_if (some e) m = fires e m

-- on the hour, at midnight, and at the midnight that begins a month
abbrev pub on_hour : Moment → Bool
on_hour m = m.minute == 0

abbrev pub midnight : Moment → Bool
midnight m = on_hour m && (m.hour == 0)

abbrev pub month_begins : Moment → Bool
month_begins m = midnight m && (m.day == 1)

-- The expressions of the cadence helpers match when their names say: hourly on the hour, daily at
-- midnight, weekly at midnight on Sundays, monthly, quarterly and yearly at the midnight that
-- begins a month, January, April, July or October, or January, twice a day at one and at thirteen
-- hours by default, and weekdays and weekends on a daily event at midnight from Monday to Friday, and
-- on Saturday and Sunday.
pub cadence_lem :
    (e : Event) (m : Moment)
    → m.weekday < 7
    → (fires (hourly e) m ≡ on_hour m)
      × (fires (daily e) m ≡ midnight m)
      × (fires (weekly e) m ≡ (midnight m && (m.weekday == 6)))
      × (fires (monthly e) m ≡ month_begins m)
      × (fires (quarterly e) m ≡ (
          month_begins m
          && ((m.month == 1) || (m.month == 4) || (m.month == 7) || (m.month == 10))))
      × (fires (yearly e) m ≡ (month_begins m && (m.month == 1)))
      × (fires (twice_daily (pos 1) (pos 13) e) m
          ≡ (on_hour m && ((m.hour == 1) || (m.hour == 13))))
      × (fires_if (weekdays (daily e)) m ≡ (midnight m && ltb m.weekday 5))
      × (fires_if (weekends (daily e)) m ≡ (midnight m && ((m.weekday == 5) || (m.weekday == 6))))
unfolding fires_if fires hourly daily weekly monthly quarterly yearly twice_daily weekdays weekends
    ◌-ℤ◌
cadence_lem e m h = (
  ground arith,
  ground arith,
  ground arith,
  ground arith,
  ground arith,
  ground arith,
  ground arith,
  ground arith,
  ground arith,
)
