-- ===== src/Launchd/Schedule/Expression.antt =====
-- The calendar intervals of a job whose schedule is an expression of cron.
use xcron.Base.{
  Bool, true, false, not, ◌&&◌, ◌||◌, ◌≡◌, ◌≢◌, refl, ◌∙◌, inl, inr, ℕ, Option, none, some, List,
  [], ◌∷◌, map, Text, codes, text_Eq, text_eq, text_eq_iff, any, all, Distinct, Dict, arith,
  Bool-cases, Option-cases, ok,
}
use xcron.Contracts.{ScheduleKind, NormalizedJob}
use xcron.Launchd.Calendar.{
  Bounds, minute_bounds, hour_bounds, day_bounds, month_bounds, weekday_bounds,
  parse_calendar_field, holds,
}
use xcron.Launchd.Calendar.Fields.{parse_calendar_field-print}
use xcron.Launchd.Schedule.{
  LaunchdSchedule, start_interval, start_calendar, start_calendars, specified, calendar_of,
  one_or_all, product, interval_of, render_fields, render_expression, render_launchd_schedule,
  minute_step,
}
use xcron.Launchd.Schedule.Words.{join_spaces, split-join_spaces}
use xcron.Launchd.Schedule.Product.{
  agrees, admits, any-intervals, all-specified, Distinct-specified,
}
use xcron.Launchd.Schedule.Printed.{
  Field, wild, listed, print, AllStepped, field_lets, is_wild, is_calendar, minute_step-calendar,
  is_star-print, IsWord-print, is_calendar-of_wild,
}

field-read :
    (bounds : Bounds) (f : Field)
    → AllStepped f
    → (o : Option (List ℕ)) × (parse_calendar_field (print f) bounds ≡ ok o)
      × ((v : ℕ) → admits v o ≡ field_lets bounds v f)
      × (o ≡ none → is_wild f ≡ true)
unfolding parse_calendar_field text_eq
field-read bounds wild h = (none, refl, λ v. refl, λ e. refl)
field-read bounds (listed p parts) h =
    let (values, e, held, sorted) = parse_calendar_field-print bounds p parts h in
    (some values, e, held, λ g. cc)

-- Whether some interval has, at each of its keys, the value of the time. This is not launchd's own
-- rule: of an interval with Day and Weekday launchd lets either one be enough, and it takes a
-- Weekday of 7 for 0.
abbrev pub some_agrees : (Text → ℕ) → LaunchdSchedule → Bool
some_agrees time (start_interval seconds) = false
some_agrees time (start_calendar interval) = agrees time interval
some_agrees time (start_calendars intervals) = any (agrees time) intervals

some_agrees-one_or_all :
    (time : Text → ℕ) (intervals : List (Dict ℕ))
    → some_agrees time (one_or_all intervals) ≡ any (agrees time) intervals
some_agrees-one_or_all time [] = refl
some_agrees-one_or_all time (i ∷ []) = ground arith
some_agrees-one_or_all time (i ∷ j ∷ rest) = refl

some_agrees-calendar_of :
    (time : Text → ℕ) (fields : List (Text × List ℕ))
    → fields ≢ []
    → Distinct (λ (e : Text × List ℕ). e.0) fields
    → some_agrees time (calendar_of fields)
      ≡ all (λ (e : Text × List ℕ). holds (time e.0) e.1) fields
unfolding calendar_of
some_agrees-calendar_of time [] h k = absurd (h refl)
some_agrees-calendar_of time (field ∷ fields) h k =
    some_agrees-one_or_all time (
      map (interval_of (field ∷ fields))
        (product (map (λ (e : Text × List ℕ). e.1) (field ∷ fields))))
    ∙ any-intervals time (field ∷ fields) k

abbrev five :
    Option (List ℕ)
    → Option (List ℕ)
    → Option (List ℕ)
    → Option (List ℕ)
    → Option (List ℕ)
    → List (Text × Option (List ℕ))
five minute hour day month weekday =
    (codes "Minute", minute)
    ∷ (codes "Hour", hour)
    ∷ (codes "Day", day)
    ∷ (codes "Month", month)
    ∷ (codes "Weekday", weekday)
    ∷ []

differ : (s t : Text) → text_eq s t ≡ false → s ≢ t
differ s t h e = absurd (cc ((text_eq_iff s t).1 e, h))

Distinct-five :
    (a b c d e : Option (List ℕ)) → Distinct (λ (e : Text × Option (List ℕ)). e.0) (five a b c d e)
unfolding codes text_eq
Distinct-five a b c d e = (
  (differ _ _ refl, (differ _ _ refl, (differ _ _ refl, (differ _ _ refl, tt)))),
  (
    (differ _ _ refl, (differ _ _ refl, (differ _ _ refl, tt))),
    ((differ _ _ refl, (differ _ _ refl, tt)), ((differ _ _ refl, tt), (tt, tt))),
  ),
)

module _ (minute hour day month weekday : Field) where
  -- Whether the expression lets a time through.
  abbrev pub expression_lets : (Text → ℕ) → Bool
  expression_lets time =
      field_lets minute_bounds (time (codes "Minute")) minute
      && field_lets hour_bounds (time (codes "Hour")) hour
      && field_lets day_bounds (time (codes "Day")) day
      && field_lets month_bounds (time (codes "Month")) month
      && field_lets weekday_bounds (time (codes "Weekday")) weekday

  abbrev pub others_wild : Bool
  others_wild = is_wild hour && is_wild day && is_wild month && is_wild weekday

  specified-filled :
      (a b c d e : Option (List ℕ))
      → (a ≡ none → is_wild minute ≡ true)
      → (b ≡ none → is_wild hour ≡ true)
      → (c ≡ none → is_wild day ≡ true)
      → (d ≡ none → is_wild month ≡ true)
      → (e ≡ none → is_wild weekday ≡ true)
      → is_wild minute && others_wild ≡ false
      → specified (five a b c d e) ≢ []
  unfolding specified
  specified-filled (some v) b c d e p q r s t h g = cc
  specified-filled none (some v) c d e p q r s t h g = cc
  specified-filled none none (some v) d e p q r s t h g = cc
  specified-filled none none none (some v) e p q r s t h g = cc
  specified-filled none none none none (some v) p q r s t h g = cc
  specified-filled none none none none none p q r s t h g =
      ground (arith, p refl, q refl, r refl, s refl, t refl)

  render_fields-some_agrees :
      AllStepped minute
      → AllStepped hour
      → AllStepped day
      → AllStepped month
      → AllStepped weekday
      → is_wild minute && others_wild ≡ false
      → (schedule : LaunchdSchedule) × (render_fields
            (print minute)
            (print hour)
            (print day)
            (print month)
            (print weekday)
          ≡ ok schedule)
        × ((time : Text → ℕ) → some_agrees time schedule ≡ expression_lets time)
  unfolding render_fields
  render_fields-some_agrees p q r s t h =
      let (a, ea, la, fa) = field-read minute_bounds minute p in
      let (b, eb, lb, fb) = field-read hour_bounds hour q in
      let (c, ec, lc, fc) = field-read day_bounds day r in
      let (d, ed, ld, fd) = field-read month_bounds month s in
      let (e, ee, le, fe) = field-read weekday_bounds weekday t in
      let fields = specified (five a b c d e) in
      (
        calendar_of fields,
        rw (ea, eb, ec, ed, ee) refl,
        λ time.
            some_agrees-calendar_of time fields (specified-filled a b c d e fa fb fc fd fe h)
              (Distinct-specified (five a b c d e) (Distinct-five a b c d e))
            ∙ all-specified time (five a b c d e)
            ∙ ground (
              arith,
              la (time (codes "Minute")),
              lb (time (codes "Hour")),
              lc (time (codes "Day")),
              ld (time (codes "Month")),
              le (time (codes "Weekday")),
            ),
      )

module _ (minute hour day month weekday : Field) where
  -- The expression is about the calendar: it is not `*`, nor a step of minutes alone.
  abbrev pub is_calendar_expression : Bool
  is_calendar_expression = is_calendar minute || not (others_wild minute hour day month weekday)

  abbrev pub print_expression : Text
  print_expression =
      join_spaces (print minute ∷ print hour ∷ print day ∷ print month ∷ print weekday ∷ [])

  render_expression-fields :
      is_calendar_expression ≡ true
      → render_expression (print minute ∷ print hour ∷ print day ∷ print month ∷ print weekday ∷ [])
        ≡ render_fields (print minute) (print hour) (print day) (print month) (print weekday)
  unfolding render_expression
  render_expression-fields h = elim (Bool-cases (is_calendar minute)) [
    | inl e ↦ rw (render_expression, minute_step-calendar minute e) refl
    | inr e ↦ elim (Option-cases (minute_step (print minute))) [
      | inl none_read ↦ rw (render_expression, none_read) refl
      | inr (n, read) ↦
          rw
            (
              render_expression,
              read,
              is_star-print hour,
              is_star-print day,
              is_star-print month,
              is_star-print weekday,
            )
            (ground arith)
    ]
  ]

  not_all_wild :
      is_calendar_expression ≡ true
      → is_wild minute && others_wild minute hour day month weekday ≡ false
  not_all_wild h = elim (Bool-cases (is_wild minute)) [
    | inl e ↦ rw e (ground (arith, is_calendar-of_wild minute e))
    | inr e ↦ rw e refl
  ]

  -- A job whose schedule is an expression of cron whose fields are `*` or parts joined by commas,
  -- each step at least 1, and that is neither `* * * * *` nor `*/n * * * *`, is given calendar
  -- intervals, and at any time one of them has the values of the time at all its keys exactly when
  -- each field lets the value of the time through.
  pub render_launchd_schedule-some_agrees :
      (job : NormalizedJob)
      → job.schedule.kind ≡ ScheduleKind.cron
      → job.schedule.value ≡ print_expression
      → AllStepped minute
      → AllStepped hour
      → AllStepped day
      → AllStepped month
      → AllStepped weekday
      → is_calendar_expression ≡ true
      → (schedule : LaunchdSchedule) × (render_launchd_schedule job ≡ ok schedule)
        × ((time : Text → ℕ)
            → some_agrees time schedule ≡ expression_lets minute hour day month weekday time)
  unfolding render_launchd_schedule
  render_launchd_schedule-some_agrees job k v p q r s t h =
      let (schedule, rendered, runs) =
        render_fields-some_agrees minute hour day month weekday p q r s t (not_all_wild h) in
      (
        schedule,
        rw
            (
              k,
              v,
              split-join_spaces
                  (print minute ∷ print hour ∷ print day ∷ print month ∷ print weekday ∷ [])
                  (
                    IsWord-print minute,
                    (
                      IsWord-print hour,
                      (IsWord-print day, (IsWord-print month, (IsWord-print weekday, tt))),
                    ),
                  ),
              render_expression-fields h,
            )
            rendered,
        runs,
      )
