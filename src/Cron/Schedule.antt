-- ===== src/Cron/Schedule.antt =====
-- `render_cron_schedule` of adapters/cron.py, and cron_policy.py, which says beforehand what it
-- cannot render.
pub mod Policy
use xcron.Base.{
  Bool, true, false, ◌&&◌, if◌then◌else◌, ltb, nat_eq, nat_Eq, ℕ, Option, none, some, List, [], ◌∷◌,
  ◌++◌, Text, codes, ◌==◌, int_of, show_int, Result, ok, err, ◌>>=◌,
}
use xcron.Contracts.{
  ScheduleKind, cron, every, NormalizedJob, PlanChangeKind, PlanChange, ScheduleDefinition,
}
use xcron.Planner.{NativeError, value_error, index_error}

-- `value[-1]`
unfoldable pub last_char : Text → Result NativeError ℕ
last_char [] = err index_error
last_char (c ∷ []) = ok c
last_char (c ∷ d ∷ s) = last_char (d ∷ s)

-- `value[:-1]`
unfoldable pub but_last : Text → Text
but_last [] = []
but_last (c ∷ []) = []
but_last (c ∷ d ∷ s) = c ∷ but_last (d ∷ s)

-- `int(value)`
unfoldable pub parse_int : Text → Result NativeError ℕ
parse_int s = elim (int_of s) [ none ↦ err (value_error s) | some n ↦ ok n ]

abbrev every_schedule : Text → ℕ → ℕ → Result NativeError Text
every_schedule value amount suffix =
    if suffix == b'm'
    then ok (codes "*/" ++ show_int amount ++ codes " * * * *")
    else if suffix == b'h'
    then ok (codes "0 */" ++ show_int amount ++ codes " * * *")
    else if suffix == b'd'
    then ok (codes "0 0 */" ++ show_int amount ++ codes " * *")
    else if suffix == b'w' && amount == 1
    then ok (codes "0 0 * * 0")
    else err (value_error (codes "cannot translate portable every schedule to cron: " ++ value))

abbrev render_by_kind : ScheduleKind → Text → Result NativeError Text
render_by_kind cron value = ok value
render_by_kind every value = do
  amount ← parse_int (but_last value)
  suffix ← last_char value
  every_schedule value amount suffix

unfoldable pub render_cron_schedule : NormalizedJob → Result NativeError Text
render_cron_schedule job = render_by_kind job.schedule.kind job.schedule.value

abbrev every_reason : Text → ℕ → ℕ → Option Text
every_reason value suffix amount =
    if suffix == b's'
    then some (
        codes "cron cannot schedule sub-minute intervals (every="
        ++ value
        ++ codes "); use a minute-or-longer interval or switch to the launchd backend")
    else if suffix == b'w' && ltb 1 amount
    then some (
        codes "cron cannot express multi-week intervals (every="
        ++ value
        ++ codes "); use a cron expression instead")
    else none

abbrev reason_by_kind : ScheduleKind → Text → Result NativeError (Option Text)
reason_by_kind cron value = ok none
reason_by_kind every value = do
  suffix ← last_char value
  amount ← parse_int (but_last value)
  ok (every_reason value suffix amount)

unfoldable pub cron_incompatible_reason : NormalizedJob → Result NativeError (Option Text)
cron_incompatible_reason job = reason_by_kind job.schedule.kind job.schedule.value

abbrev error_change : NormalizedJob → Text → PlanChange
error_change job reason = record {
  kind = PlanChangeKind.error;
  qualified_id = job.qualified_id;
  reason = reason;
  desired_job = some job;
  deployed_job = none;
  desired_hash = none;
  deployed_hash = none;
}

abbrev add_error : NormalizedJob → Option Text → List PlanChange → List PlanChange
add_error job none rest = rest
add_error job (some reason) rest = error_change job reason ∷ rest

unfoldable pub cron_schedule_errors : List NormalizedJob → Result NativeError (List PlanChange)
cron_schedule_errors [] = ok []
cron_schedule_errors (job ∷ jobs) = do
  reason ← cron_incompatible_reason job
  rest ← cron_schedule_errors jobs
  ok (add_error job reason rest)
