-- ===== src/Queue/Schedule/Event.antt =====
-- src/arvel/queue/scheduler.py: `ScheduledEvent` and its fluent methods. A gate and a hook go by
-- their names; what a gate returns is the environment's to say.
use Prim.Native.String.{◌++◌ as ◌+++◌}
use arvel.Common.{
  ℕ, zero, suc, String, Bool, true, false, Option, none, some, List, [], ◌∷◌, ◌++◌, ◌+◌, ◌/◌, ◌%◌,
  ltb,
}
use arvel.Common.Int.{ℤ, pos, negsuc}
use arvel.Common.Text.{codes, words, split_on}
use arvel.Queue.Schedule.Cron.{int_of}

-- a callback or a hook: its module, its qualified name, and whether a call of it raises
pub record Task : Type 0 where
  pub module_name : String
  pub qualname : String
  pub raises : Bool

pub record Event : Type 0 where
  pub callback : Task
  pub expression : List ℕ
  pub one_server : Bool
  pub overlap_expire : Option ℤ
  pub event_name : Option String
  pub tz : Option String
  pub before_hooks : List Task
  pub after_hooks : List Task
  pub success_hooks : List Task
  pub failure_hooks : List Task
  pub when_gate : Option String
  pub skip_gate : Option String
  pub allowed_environments : Option (List String)
  pub between_times : Option (List ℕ × List ℕ)
  pub runs_in_maintenance : Bool

unfoldable pub event : Task → Event
event callback = record {
  callback = callback;
  expression = codes "* * * * *";
  one_server = false;
  overlap_expire = none;
  event_name = none;
  tz = none;
  before_hooks = [];
  after_hooks = [];
  success_hooks = [];
  failure_hooks = [];
  when_gate = none;
  skip_gate = none;
  allowed_environments = none;
  between_times = none;
  runs_in_maintenance = false;
}

-- the digits of a number, with the number itself as enough fuel
abbrev decimal_from : ℕ → ℕ → List ℕ
decimal_from zero n = (b'0' + n % 10) ∷ []
decimal_from (suc fuel) n = elim (ltb n 10) [
  | true ↦ (b'0' + n) ∷ []
  | false ↦ decimal_from fuel (n / 10) ++ (b'0' + n % 10) ∷ []
]

unfoldable pub decimal : ℕ → List ℕ
decimal n = decimal_from n n

-- `f"{n}"`
unfoldable pub show_int : ℤ → List ℕ
unfolding decimal
show_int (pos n) = decimal n
show_int (negsuc n) = b'-' ∷ decimal (suc n)

unfoldable pub cron : List ℕ → Event → Event
cron expression e = record e { expression = expression }

unfoldable pub every_minute : Event → Event
unfolding cron
every_minute = cron (codes "* * * * *")

unfoldable pub hourly : Event → Event
unfolding cron
hourly = cron (codes "0 * * * *")

unfoldable pub daily : Event → Event
unfolding cron
daily = cron (codes "0 0 * * *")

-- `daily_at`: two numbers, or a ValueError
unfoldable pub daily_at : List ℕ → Event → Option Event
unfolding int_of show_int cron
daily_at time e = elim (split_on b':' [] time) [
  | [] ↦ none
  | h ∷ [] ↦ none
  | h ∷ m ∷ [] ↦ at (int_of h) (int_of m)
  | h ∷ m ∷ more ∷ rest ↦ none
]
  where
    at : Option ℤ → Option ℤ → Option Event
    at none m = none
    at (some h) none = none
    at (some h) (some m) = some (cron (show_int m ++ codes " " ++ show_int h ++ codes " * * *") e)

unfoldable pub twice_daily : ℤ → ℤ → Event → Event
unfolding show_int cron
twice_daily first second =
    cron (codes "0 " ++ show_int first ++ codes "," ++ show_int second ++ codes " * * *")

unfoldable pub weekly : Event → Event
unfolding cron
weekly = cron (codes "0 0 * * 0")

unfoldable pub monthly : Event → Event
unfolding cron
monthly = cron (codes "0 0 1 * *")

unfoldable pub quarterly : Event → Event
unfolding cron
quarterly = cron (codes "0 0 1 1,4,7,10 *")

unfoldable pub yearly : Event → Event
unfolding cron
yearly = cron (codes "0 0 1 1 *")

-- `_with_dow`: five fields, or a ValueError
unfoldable pub with_dow : List ℕ → Event → Option Event
unfolding cron
with_dow dow e = elim (words [] e.expression) [
  | [] ↦ none
  | a ∷ [] ↦ none
  | a ∷ b ∷ [] ↦ none
  | a ∷ b ∷ c ∷ [] ↦ none
  | a ∷ b ∷ c ∷ d ∷ [] ↦ none
  | a ∷ b ∷ c ∷ d ∷ _ ∷ [] ↦
      some (cron (a ++ codes " " ++ b ++ codes " " ++ c ++ codes " " ++ d ++ codes " " ++ dow) e)
  | a ∷ b ∷ c ∷ d ∷ _ ∷ more ∷ rest ↦ none
]

unfoldable pub weekdays : Event → Option Event
unfolding with_dow
weekdays = with_dow (codes "1-5")

unfoldable pub weekends : Event → Option Event
unfolding with_dow
weekends = with_dow (codes "0,6")

unfoldable pub between : List ℕ → List ℕ → Event → Event
between start end e = record e { between_times = some (start, end) }

unfoldable pub when : String → Event → Event
when callback e = record e { when_gate = some callback }

unfoldable pub skip : String → Event → Event
skip callback e = record e { skip_gate = some callback }

unfoldable pub environments : List String → Event → Event
environments envs e = record e { allowed_environments = some envs }

unfoldable pub timezone : String → Event → Event
timezone tz e = record e { tz = some tz }

unfoldable pub name : String → Event → Event
name n e = record e { event_name = some n }

unfoldable pub even_in_maintenance_mode : Event → Event
even_in_maintenance_mode e = record e { runs_in_maintenance = true }

unfoldable pub on_one_server : Event → Event
on_one_server e = record e { one_server = true }

unfoldable pub without_overlapping : ℤ → Event → Event
without_overlapping expires e = record e { overlap_expire = some expires }

unfoldable pub before : Task → Event → Event
before hook e = record e { before_hooks = e.before_hooks ++ hook ∷ [] }

unfoldable pub after : Task → Event → Event
after hook e = record e { after_hooks = e.after_hooks ++ hook ∷ [] }

unfoldable pub on_success : Task → Event → Event
on_success hook e = record e { success_hooks = e.success_hooks ++ hook ∷ [] }

unfoldable pub on_failure : Task → Event → Event
on_failure hook e = record e { failure_hooks = e.failure_hooks ++ hook ∷ [] }

-- `_identity`
unfoldable pub identity : Event → String
identity e = elim e.event_name [
  | some n ↦ n
  | none ↦ e.callback.module_name +++ "." +++ e.callback.qualname
]
