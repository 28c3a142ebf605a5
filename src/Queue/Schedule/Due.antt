-- ===== src/Queue/Schedule/Due.antt =====
-- src/arvel/queue/scheduler.py: `is_due` and its gates.
use arvel.Common.{
  ℕ, String, Bool, true, not, ◌&&◌, ◌||◌, none, some, List, [], ◌∷◌, ◌++◌, if◌then◌else◌, ◌+◌, ◌/◌,
  ◌%◌, str_eq,
}
use arvel.Common.Lists.{any}
use arvel.Common.Text.{leb_text}
use arvel.Queue.Schedule.Cron.{Moment, cron_matches}
use arvel.Queue.Schedule.Event.{Event}

-- What the event's checks ask of the rest of the program: the zone database, the configured
-- environment, and what a gate returns now.
pub record Environment : Type 0 where
  pub astimezone : String → Moment → Moment
  pub app_env : String
  pub truthy : String → Bool

-- `_localized`
unfoldable pub localized : Environment → Event → Moment → Moment
localized env e moment = elim e.tz [ none ↦ moment | some tz ↦ env.astimezone tz moment ]

-- two digits
abbrev pub two : ℕ → List ℕ
two n = (b'0' + n / 10) ∷ (b'0' + n % 10) ∷ []

-- `strftime("%H:%M")`
unfoldable pub clock : ℕ → ℕ → List ℕ
clock hour minute = two hour ++ b':' ∷ two minute

unfoldable pub within : List ℕ → List ℕ → List ℕ → Bool
within current start end =
    if leb_text start end
    then leb_text start current && leb_text current end
    else leb_text start current || leb_text current end

-- `_within_time_range`
unfoldable pub within_time_range : Moment → List ℕ → List ℕ → Bool
unfolding within clock
within_time_range moment start end = within (clock moment.hour moment.minute) start end

-- `_environment_matches`
unfoldable pub environment_matches : Environment → List String → Bool
environment_matches env envs = any envs (str_eq env.app_env)

-- each check of `is_due`, passed where the event has no such gate
abbrev pub in_between : Event → Moment → Bool
unfolding within_time_range
in_between e moment = elim e.between_times [
  | none ↦ true
  | some (start, end) ↦ within_time_range moment start end
]

abbrev pub in_environment : Environment → Event → Bool
unfolding environment_matches
in_environment env e = elim e.allowed_environments [
  | none ↦ true
  | some envs ↦ environment_matches env envs
]

abbrev pub not_skipped : Environment → Event → Bool
not_skipped env e = elim e.skip_gate [ none ↦ true | some gate ↦ not (env.truthy gate) ]

abbrev pub wanted : Environment → Event → Bool
wanted env e = elim e.when_gate [ none ↦ true | some gate ↦ env.truthy gate ]

unfoldable pub is_due : Environment → Event → Moment → Bool
unfolding localized cron_matches in_between in_environment
is_due env e moment =
    let local_moment = localized env e moment in
    cron_matches e.expression local_moment
    && in_between e local_moment
    && in_environment env e
    && not_skipped env e
    && wanted env e

-- `Schedule.due_events`
unfoldable pub due_events : Environment → List Event → Moment → List Event
unfolding is_due
due_events env [] moment = []
due_events env (e ∷ events) moment =
    let rest = due_events env events moment in if is_due env e moment then e ∷ rest else rest
