-- ===== src/Queue/Schedule/Cron.antt =====
-- src/arvel/queue/scheduler.py: the matching of cron expressions. `none` stands for the ValueError
-- that a malformed field raises.
use arvel.Common.{
  ℕ, zero, suc, Bool, true, false, not, ◌&&◌, ◌||◌, Option, none, some, List, [], ◌∷◌, ◌==◌,
  if◌then◌else◌, ◌+◌, ◌%◌,
}
use arvel.Common.Int.{ℤ, pos, negsuc, ◌-ℤ◌, leb_ℤ, int_eq, floor_mod}
use arvel.Common.Text.{
  codes, same, starts_with, words, split_on, partition, strip, lower, digits_of,
}

-- a `datetime`, to the minute; `weekday` is 0 on Mondays
pub record Moment : Type 0 where
  pub year : ℕ
  pub month : ℕ
  pub day : ℕ
  pub weekday : ℕ
  pub hour : ℕ
  pub minute : ℕ

abbrev pub positive : Option ℕ → Option ℤ
positive none = none
positive (some n) = some (pos n)

abbrev pub negated : Option ℕ → Option ℤ
negated none = none
negated (some zero) = some (pos 0)
negated (some (suc n)) = some (negsuc n)

-- `int(s)` on a text with no space around it
abbrev pub int_stripped : List ℕ → Option ℤ
int_stripped [] = none
int_stripped (c ∷ s) =
    if c == b'-'
    then negated (digits_of 0 false s)
    else (if c == b'+'
        then positive (digits_of 0 false s)
        else positive (digits_of 0 false (c ∷ s)))

-- `int(s)`
unfoldable pub int_of : List ℕ → Option ℤ
int_of s = int_stripped (strip s)

abbrev pub Names : Type 0
Names = List (List ℕ × ℕ)

abbrev pub find_name : Names → List ℕ → Option ℕ
find_name [] t = none
find_name ((name, n) ∷ names) t = if same name t then some n else find_name names t

-- `_CRON_MONTHS` and `_CRON_DOWS`
abbrev pub cron_months : Names
cron_months =
    (codes "jan", 1)
    ∷ (codes "feb", 2)
    ∷ (codes "mar", 3)
    ∷ (codes "apr", 4)
    ∷ (codes "may", 5)
    ∷ (codes "jun", 6)
    ∷ (codes "jul", 7)
    ∷ (codes "aug", 8)
    ∷ (codes "sep", 9)
    ∷ (codes "oct", 10)
    ∷ (codes "nov", 11)
    ∷ (codes "dec", 12)
    ∷ []

abbrev pub cron_dows : Names
cron_dows =
    (codes "sun", 0)
    ∷ (codes "mon", 1)
    ∷ (codes "tue", 2)
    ∷ (codes "wed", 3)
    ∷ (codes "thu", 4)
    ∷ (codes "fri", 5)
    ∷ (codes "sat", 6)
    ∷ []

abbrev pub cron_int_named : Option ℕ → List ℕ → Option ℤ
cron_int_named (some n) t = some (pos n)
cron_int_named none t = int_of t

-- `_cron_int`; no names are the empty list
unfoldable pub cron_int : List ℕ → Names → Option ℤ
unfolding int_of
cron_int token names = let t = lower (strip token) in cron_int_named (find_name names t) t

-- `(value - low) % step == 0`, for a step that is positive
abbrev pub on_step : ℕ → ℤ → ℕ → Bool
on_step value low step = floor_mod (pos value -ℤ low) step == 0

-- a range "low-high", stepped
abbrev pub range_matches : Option ℤ → Option ℤ → ℕ → ℕ → Option Bool
range_matches none high step value = none
range_matches (some low) none step value = none
range_matches (some low) (some high) step value =
    some (leb_ℤ low (pos value) && leb_ℤ (pos value) high && on_step value low step)

-- a single value, or an open-ended step from it
abbrev pub single_matches : Option ℤ → Bool → ℕ → ℕ → Option Bool
single_matches none stepped step value = none
single_matches (some start) stepped step value = some (
    if stepped
    then leb_ℤ start (pos value) && on_step value start step
    else int_eq start (pos value))

-- the part of a field before its step
unfoldable pub range_part : List ℕ → Bool → ℕ → ℕ → Names → Option Bool
unfolding cron_int ◌-ℤ◌ floor_mod
range_part rng stepped step value names =
    let (low, dashed, high) = partition b'-' rng in
    if same rng (codes "*")
    then some (value % step == 0)
    else (if dashed
        then range_matches (cron_int low names) (cron_int high names) step value
        else single_matches (cron_int rng names) stepped step value)

-- a step that is not positive matches nothing
abbrev pub stepped_part : List ℕ → Bool → Option ℤ → ℕ → Names → Option Bool
stepped_part rng stepped none value names = none
stepped_part rng stepped (some (negsuc n)) value names = some false
stepped_part rng stepped (some (pos zero)) value names = some false
stepped_part rng stepped (some (pos (suc n))) value names =
    range_part rng stepped (suc n) value names

-- `int(step_str) if step_str else 1`
abbrev pub step_of : List ℕ → Option ℤ
step_of [] = some (pos 1)
step_of (c ∷ s) = int_of (c ∷ s)

abbrev pub is_empty : List ℕ → Bool
is_empty [] = true
is_empty (c ∷ s) = false

unfoldable pub part_matches : List ℕ → ℕ → Names → Option Bool
unfolding range_part int_of
part_matches part value names =
    let (rng, _, step) = partition b'/' part in
    stepped_part rng (not (is_empty step)) (step_of step) value names

-- the parts in turn, up to one that matches or is malformed
unfoldable pub parts_match : List (List ℕ) → ℕ → Names → Option Bool
unfolding part_matches
parts_match [] value names = some false
parts_match (part ∷ parts) value names = elim (part_matches part value names) [
  | none ↦ none
  | some true ↦ some true
  | some false ↦ parts_match parts value names
]

unfoldable pub field_matches : List ℕ → ℕ → Names → Option Bool
unfolding parts_match
field_matches field value names =
    if same field (codes "*") then some true else parts_match (split_on b',' [] field) value names

-- `a and b` and `a or b`, where each may raise
abbrev pub and_then : Option Bool → Option Bool → Option Bool
and_then none b = none
and_then (some false) b = some false
and_then (some true) b = b

abbrev pub or_then : Option Bool → Option Bool → Option Bool
or_then none b = none
or_then (some true) b = some true
or_then (some false) b = b

unfoldable pub dow_matches : List ℕ → ℕ → Option Bool
unfolding field_matches
dow_matches dow cron_dow =
    or_then (field_matches dow cron_dow cron_dows)
      (and_then (some (cron_dow == 0)) (field_matches dow 7 cron_dows))

-- both days restricted: either matches; else both must
abbrev pub day_matches : List ℕ → List ℕ → Option Bool → Option Bool → Option Bool
day_matches dom dow (some dom_ok) (some dow_ok) = some (
    if not (starts_with (codes "*") dom) && not (starts_with (codes "*") dow)
    then dom_ok || dow_ok
    else dom_ok && dow_ok)
day_matches dom dow none dow_ok = none
day_matches dom dow (some dom_ok) none = none

unfoldable pub fields_match : List ℕ → List ℕ → List ℕ → List ℕ → List ℕ → Moment → Option Bool
unfolding dow_matches field_matches
fields_match minute hour dom month dow moment =
    let day_ok =
      day_matches dom dow (field_matches dom moment.day [])
        (dow_matches dow ((moment.weekday + 1) % 7)) in
    elim day_ok [
      | none ↦ none
      | some ok ↦ and_then (field_matches minute moment.minute []) (
          and_then (field_matches hour moment.hour [])
            (and_then (field_matches month moment.month cron_months) (some ok)))
    ]

-- a ValueError counts as no match
abbrev pub or_false : Option Bool → Bool
or_false none = false
or_false (some b) = b

unfoldable pub cron_matches : List ℕ → Moment → Bool
unfolding fields_match
cron_matches expression moment = elim (words [] expression) [
  | [] ↦ false
  | minute ∷ [] ↦ false
  | minute ∷ hour ∷ [] ↦ false
  | minute ∷ hour ∷ dom ∷ [] ↦ false
  | minute ∷ hour ∷ dom ∷ month ∷ [] ↦ false
  | minute ∷ hour ∷ dom ∷ month ∷ dow ∷ [] ↦
      or_false (fields_match minute hour dom month dow moment)
  | minute ∷ hour ∷ dom ∷ month ∷ dow ∷ more ∷ rest ↦ false
]
