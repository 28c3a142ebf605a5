-- ===== src/Queue/Schedule/Clock.antt =====
-- src/arvel/queue/scheduler.py: the texts that `between` compares, and the times of day.
use arvel.Common.{
  ℕ, ◌≡◌, ◌<◌, ◌+◌, ◌*◌, ◌/◌, ◌%◌, Bool, ◌&&◌, ◌||◌, if◌then◌else◌, arith, ltb, leb, ◌==◌,
}
use arvel.Common.Text.{leb_text}
use arvel.Queue.Schedule.Cron.{Moment}
use arvel.Queue.Schedule.Due.{clock, within, within_time_range}

digits_order :
    (a b : ℕ)
    → a < 60
    → b < 60
    → (ltb (a / 10) (b / 10) || ((a / 10 == b / 10) && ltb (a % 10) (b % 10))) ≡ ltb a b
digits_order a b p q = ground arith

clock_order :
    (h m h' m' : ℕ)
    → h < 24
    → m < 60
    → h' < 24
    → m' < 60
    → leb_text (clock h m) (clock h' m') ≡ leb (h * 60 + m) (h' * 60 + m')
unfolding clock
clock_order h m h' m' a b c d = ground arith

-- the minutes of the day between two times, past midnight where the first is the later one
abbrev pub in_day_range : ℕ → ℕ → ℕ → Bool
in_day_range t start end =
    if leb start end then leb start t && leb t end else leb start t || leb t end

-- Between two times "HH:MM", on the texts, is between them on the minutes of the day.
pub within_time_range_lem :
    (moment : Moment) (h m h' m' : ℕ)
    → moment.hour < 24
    → moment.minute < 60
    → h < 24
    → m < 60
    → h' < 24
    → m' < 60
    → within_time_range moment (clock h m) (clock h' m')
      ≡ in_day_range (moment.hour * 60 + moment.minute) (h * 60 + m) (h' * 60 + m')
unfolding within_time_range within
within_time_range_lem moment h m h' m' a b c d c' d' = cc (
  clock_order h m h' m' c d c' d',
  clock_order h m moment.hour moment.minute c d a b,
  clock_order moment.hour moment.minute h' m' a b c' d',
)
