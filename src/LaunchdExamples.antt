-- ===== src/LaunchdExamples.antt =====
-- Fields of cron and what launchd is given for them, on concrete expressions.
use xcron.Base.{
  ◌↔◌, ◌++◌, not, Bool, false, Dict, Option, starts_with, rstrip, split, ◌≡◌, refl, true, ℕ, none,
  some, List, [], ◌∷◌, Text, codes, ok, sort, text_eq, lstrip, take_word, drop_word, strip_prefix,
  is_space, split_max, int_of, put, put_all, arith, ◌≤◌, IsSorted, ltb, any,
}
use xcron.Contracts.{ScheduleKind, NormalizedJob, OverlapPolicy, PlanChangeKind, PlistValue}
use xcron.Planner.{compare_job}
use xcron.Layout.{Pathlib}
use xcron.Launchd.Plist.{
  launchd_name, build_launchd_label, is_listed, inspect_plist, launchd_deployed, disabled_labels,
  partition,
}
use xcron.Launchd.Plist.Recovered.{plist, recovered, inspect_plist-recovered, compare_job-recovered}
use xcron.Launchd.Calendar.{
  hour_bounds, minute_bounds, parse_calendar_field, holds, parse_parts, split_commas, parse_part,
  has_char, after_char, parse_range, before_char, range, range_from, range_down, parse_signed,
  unique,
}
use xcron.Cron.Schedule.{parse_int, but_last, last_char}
use xcron.Launchd.Calendar.Fields.{
  number, span, every_step, step_from, step_span, print_field, parse_calendar_field-print, lets,
}
use xcron.Launchd.Calendar.Within.{parse_calendar_field-within}
use xcron.Launchd.Schedule.{
  LaunchdSchedule, start_interval, start_calendar, start_calendars, parse_every_seconds,
  render_launchd_schedule, render_expression, minute_step, render_fields, specified, calendar_of,
  product, interval_of, multiplier,
}
use xcron.Launchd.Schedule.Printed.{Field, wild, listed}
use xcron.Launchd.Schedule.Expression.{
  print_expression, some_agrees, expression_lets, render_launchd_schedule-some_agrees,
}

abbrev job_at : ScheduleKind → Text → NormalizedJob
job_at kind value = record {
  project_id = codes "demo";
  job_id = codes "backup";
  qualified_id = codes "demo.backup";
  artifact_id = codes "demo.backup";
  enabled = true;
  schedule = record { kind = kind; value = value };
  execution = record {
    command = codes "true";
    working_dir = codes "/srv";
    shell = codes "/bin/sh";
    timezone = none;
    env = [];
    overlap = OverlapPolicy.allow;
  };
  description = none;
}

hours : parse_calendar_field (codes "9-17/4,3") hour_bounds ≡ ok (some (3 ∷ 9 ∷ 13 ∷ 17 ∷ []))
unfolding codes parse_calendar_field text_eq parse_parts split_commas parse_part has_char parse_int
    int_of after_char parse_range before_char range sort unique range_from parse_signed
hours = refl

-- An end or a step may be below 0: the list is empty, or is counted down.
end_below : parse_calendar_field (codes "5--3") minute_bounds ≡ ok (some [])
unfolding codes parse_calendar_field text_eq parse_parts split_commas parse_part has_char parse_int
    int_of after_char parse_range before_char range sort unique parse_signed
end_below = refl

step_below : parse_calendar_field (codes "*/-5") minute_bounds ≡ ok (some [])
unfolding codes parse_calendar_field text_eq parse_parts split_commas parse_part has_char parse_int
    int_of after_char parse_range before_char range range_down sort unique parse_signed
step_below = refl

counted_down :
    parse_calendar_field (codes "59-2/-20,6--2/-2") minute_bounds
    ≡ ok (some (0 ∷ 2 ∷ 4 ∷ 6 ∷ 19 ∷ 39 ∷ 59 ∷ []))
unfolding codes parse_calendar_field text_eq parse_parts split_commas parse_part has_char parse_int
    int_of after_char parse_range before_char range range_down sort unique parse_signed
counted_down = refl

ninety_minutes : parse_every_seconds (codes "90m") ≡ ok 5400
unfolding codes parse_every_seconds parse_int int_of but_last last_char multiplier
ninety_minutes = refl

-- Every seven minutes is 420 seconds, not the minutes 0, 7, ..., 56 of cron.
seven_minutes :
    render_launchd_schedule (job_at ScheduleKind.cron (codes "*/7 * * * *"))
    ≡ ok (start_interval 420)
unfolding codes render_launchd_schedule render_expression split split_max lstrip drop_word
    minute_step strip_prefix take_word int_of text_eq
seven_minutes = refl

-- A range whose end stands before its start gives no interval at all.
backwards :
    render_launchd_schedule (job_at ScheduleKind.cron (codes "5-3 * * * *"))
    ≡ ok (start_calendars [])
unfolding codes text_eq lstrip take_word drop_word strip_prefix is_space split split_max int_of sort
    parse_int parse_calendar_field parse_parts split_commas parse_part has_char after_char
    parse_range before_char range range_from unique render_launchd_schedule render_expression
    minute_step render_fields specified calendar_of product interval_of put put_all parse_signed
backwards = refl

-- A minute that no hour has is not refused.
minute_sixty_one :
    render_launchd_schedule (job_at ScheduleKind.cron (codes "61 * * * *"))
    ≡ ok (start_calendar ((codes "Minute", 61) ∷ []))
unfolding codes text_eq lstrip take_word drop_word strip_prefix is_space split split_max int_of sort
    parse_int parse_calendar_field parse_parts split_commas parse_part has_char after_char
    parse_range before_char range range_from unique render_launchd_schedule render_expression
    minute_step render_fields specified calendar_of product interval_of put put_all
minute_sixty_one = refl

parse_calendar_field-print_example :
    (values : List ℕ) × (parse_calendar_field
        (print_field (step_span 9 17 4) (number 3 ∷ []))
        hour_bounds
      ≡ ok (some values))
    × ((v : ℕ) → holds v values ≡ any (lets hour_bounds v) (step_span 9 17 4 ∷ number 3 ∷ []))
    × IsSorted ltb values
parse_calendar_field-print_example =
    parse_calendar_field-print hour_bounds (step_span 9 17 4) (number 3 ∷ [])
      (omega arith, (tt, tt))

parse_calendar_field-within_example :
    (values : List ℕ) × (parse_calendar_field
        (print_field (step_from 10 15) (number 3 ∷ []))
        minute_bounds
      ≡ ok (some values))
    × ((v : ℕ) → holds v values ≡ true → (0 ≤ v) × (v ≤ 59))
parse_calendar_field-within_example =
    parse_calendar_field-within minute_bounds (step_from 10 15) (number 3 ∷ [])
      (omega arith, (tt, tt)) (refl, (refl, tt))

abbrev quarters : Field
quarters = listed (every_step 15) []

abbrev office : Field
office = listed (span 9 17) []

abbrev workdays : Field
workdays = listed (span 1 5) []

render_launchd_schedule-some_agrees_example :
    (schedule : LaunchdSchedule) × (render_launchd_schedule
        (job_at ScheduleKind.cron (print_expression quarters office wild wild workdays))
      ≡ ok schedule)
    × ((time : Text → ℕ)
        → some_agrees time schedule ≡ expression_lets quarters office wild wild workdays time)
render_launchd_schedule-some_agrees_example =
    render_launchd_schedule-some_agrees quarters office wild wild workdays
      (job_at ScheduleKind.cron (print_expression quarters office wild wild workdays)) refl refl
      (omega arith, tt) (tt, tt) tt tt (tt, tt) refl

abbrev posix : Pathlib
posix = record {
  of_text = λ t. t;
  resolve = λ t. t;
  parent = λ t. t;
  stem = λ t. t;
  join = λ t u. t ++ codes "/" ++ u;
}

abbrev every_minute : NormalizedJob
every_minute = job_at ScheduleKind.cron (codes "* * * * *")

abbrev minute_plist : Dict PlistValue
minute_plist =
    plist every_minute (codes "abc") (codes "def") (codes "/w/backup.sh") (start_interval 60)

abbrev not_loaded : Text → Bool × Option Text
not_loaded label = (false, none)

-- What `launchctl print-disabled` says.
labels :
    disabled_labels (
      codes "disabled services = {"
      ∷ codes "  \"com.xcron.demo.backup\" => disabled"
      ∷ codes "  \"com.xcron.demo.sync\" => enabled"
      ∷ codes "}"
      ∷ [])
    ≡ codes "com.xcron.demo.backup" ∷ []
unfolding codes disabled_labels starts_with rstrip lstrip text_eq partition strip_prefix
labels = refl

inspect_plist-recovered_example :
    inspect_plist posix [] not_loaded (codes "/a.plist") minute_plist
    ≡ ok (
        recovered every_minute
          (codes "abc")
          (codes "def")
          (codes "/w/backup.sh")
          posix
          []
          not_loaded
          (codes "/a.plist")
          minute_plist)
inspect_plist-recovered_example =
    inspect_plist-recovered every_minute (codes "abc") (codes "def") (codes "/w/backup.sh") posix []
      not_loaded (codes "/a.plist") minute_plist (start_interval 60) (λ k. refl)

compare_job-recovered_example :
    ((compare_job launchd_name (codes "abc") (codes "def") every_minute (
        some (
          launchd_deployed (
            recovered every_minute
              (codes "abc")
              (codes "def")
              (codes "/w/backup.sh")
              posix
              []
              not_loaded
              (codes "/a.plist")
              minute_plist)))).kind
      ≡ PlanChangeKind.noop)
    ↔ (is_listed (build_launchd_label every_minute) [] ≡ not every_minute.enabled)
unfolding codes
compare_job-recovered_example =
    compare_job-recovered every_minute (codes "abc") (codes "def") (codes "/w/backup.sh") posix []
      not_loaded (codes "/a.plist") minute_plist (λ e. cc)
