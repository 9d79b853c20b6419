-- ===== src/Launchd/Schedule.antt =====
-- `render_launchd_schedule` and `parse_every_seconds` of adapters/launchd.py: the keys that say
-- when launchd runs a job.
pub mod Words
pub mod Product
pub mod Printed
pub mod Expression
use xcron.Base.{
  Bool, true, false, ◌&&◌, if◌then◌else◌, leb, all, ℕ, ◌+◌, ◌*◌, Option, none, some, List, [], ◌∷◌,
  ◌++◌, map, length, Text, codes, text_Eq, ◌==◌, nat_eq, strip_prefix, split, is_digit, int_of,
  Dict, from_list, Result, ok, err, ◌>>=◌,
}
use xcron.Contracts.{ScheduleKind, NormalizedJob}
use xcron.Planner.{NativeError, value_error, key_error}
use xcron.Cron.Schedule.{parse_int, last_char, but_last}
use xcron.Launchd.Calendar.{
  star, minute_bounds, hour_bounds, day_bounds, month_bounds, weekday_bounds, parse_calendar_field,
}

-- `multiplier`: a suffix that is not a key raises.
unfoldable pub multiplier : ℕ → Result NativeError ℕ
multiplier suffix =
    if nat_eq suffix b's'
    then ok 1
    else if nat_eq suffix b'm'
    then ok 60
    else if nat_eq suffix b'h'
    then ok 3600
    else if nat_eq suffix b'd'
    then ok 86400
    else if nat_eq suffix b'w'
    then ok 604800
    else err (key_error (suffix ∷ []))

unfoldable pub parse_every_seconds : Text → Result NativeError ℕ
parse_every_seconds value = do
  amount ← parse_int (but_last value)
  suffix ← last_char value
  seconds ← multiplier suffix
  ok (amount * seconds)

-- `^\*/([1-9][0-9]*)$`, with the number that the group reads.
abbrev positive : Text → Option ℕ
positive [] = none
positive (c ∷ s) = if leb b'1' c && leb c b'9' && all is_digit s then int_of (c ∷ s) else none

unfoldable pub minute_step : Text → Option ℕ
minute_step minute = elim (strip_prefix (codes "*/") minute) [ none ↦ none | some s ↦ positive s ]

-- `StartInterval`, or `StartCalendarInterval` with one dictionary or with a list of them.
pub data LaunchdSchedule : Type 0 where
  start_interval : ℕ → LaunchdSchedule
  start_calendar : Dict ℕ → LaunchdSchedule
  start_calendars : List (Dict ℕ) → LaunchdSchedule

abbrev with_each : List ℕ → List (List ℕ) → List (List ℕ)
with_each [] rests = []
with_each (x ∷ xs) rests = map (λ rest. x ∷ rest) rests ++ with_each xs rests

-- `itertools.product(*values)`
unfoldable pub product : List (List ℕ) → List (List ℕ)
product [] = [] ∷ []
product (values ∷ rest) = with_each values (product rest)

abbrev cons_specified : Text → Option (List ℕ) → List (Text × List ℕ) → List (Text × List ℕ)
cons_specified key none rest = rest
cons_specified key (some values) rest = (key, values) ∷ rest

-- `[(key, values) for key, values in keys_and_values if values is not None]`
unfoldable pub specified : List (Text × Option (List ℕ)) → List (Text × List ℕ)
specified [] = []
specified ((key, values) ∷ fields) = cons_specified key values (specified fields)

abbrev zip : List (Text × List ℕ) → List ℕ → List (Text × ℕ)
zip [] combo = []
zip (field ∷ fields) [] = []
zip (field ∷ fields) (value ∷ combo) = (field.0, value) ∷ zip fields combo

-- One combination as a dictionary.
unfoldable pub interval_of : List (Text × List ℕ) → List ℕ → Dict ℕ
interval_of fields combo =
    from_list (λ (e : Text × ℕ). e.0) (λ (e : Text × ℕ). e.1) (zip fields combo)

abbrev one_or_all : List (Dict ℕ) → LaunchdSchedule
one_or_all (interval ∷ []) = start_calendar interval
one_or_all intervals = start_calendars intervals

unfoldable pub calendar_of : List (Text × List ℕ) → LaunchdSchedule
calendar_of [] = start_interval 60
calendar_of (field ∷ fields) = one_or_all (
    map (interval_of (field ∷ fields))
      (product (map (λ (e : Text × List ℕ). e.1) (field ∷ fields))))

-- What is rendered of the five fields, unless it is a minute step alone.
unfoldable pub render_fields : Text → Text → Text → Text → Text → Result NativeError LaunchdSchedule
render_fields minute hour day month weekday = do
  minute_values ← parse_calendar_field minute minute_bounds
  hour_values ← parse_calendar_field hour hour_bounds
  day_values ← parse_calendar_field day day_bounds
  month_values ← parse_calendar_field month month_bounds
  weekday_values ← parse_calendar_field weekday weekday_bounds
  ok (
      calendar_of (
        specified (
          (codes "Minute", minute_values)
          ∷ (codes "Hour", hour_values)
          ∷ (codes "Day", day_values)
          ∷ (codes "Month", month_values)
          ∷ (codes "Weekday", weekday_values)
          ∷ [])))

abbrev is_star : Text → Bool
is_star field = field == star ∷ []

unfoldable pub render_expression : List Text → Result NativeError LaunchdSchedule
render_expression (minute ∷ hour ∷ day ∷ month ∷ weekday ∷ []) = elim (minute_step minute) [
  | none ↦ render_fields minute hour day month weekday
  | some n ↦
      if is_star hour && is_star day && is_star month && is_star weekday
      then ok (start_interval (n * 60))
      else render_fields minute hour day month weekday
]
render_expression _ = err (value_error [])

abbrev by_kind : ScheduleKind → Text → Result NativeError LaunchdSchedule
by_kind ScheduleKind.every value = do
  seconds ← parse_every_seconds value
  ok (start_interval seconds)
by_kind ScheduleKind.cron value = render_expression (split value)

unfoldable pub render_launchd_schedule : NormalizedJob → Result NativeError LaunchdSchedule
render_launchd_schedule job = by_kind job.schedule.kind job.schedule.value
