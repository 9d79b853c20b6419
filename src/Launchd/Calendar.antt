-- ===== src/Launchd/Calendar.antt =====
-- `parse_calendar_field` of adapters/launchd.py: the values that one field of a cron expression
-- stands for.
pub mod Split
pub mod Values
pub mod Fields
pub mod Within
use xcron.Base.{
  Bool, true, false, ◌||◌, if◌then◌else◌, nat_eq, ltb, leb, ℕ, zero, suc, ◌+◌, ◌-◌, ◌%◌, Option,
  none, some, List, [], ◌∷◌, ◌++◌, Text, sort, text_Eq, ◌==◌, is_empty, int_of, Result, ok, err,
  ◌>>=◌,
}
use xcron.Planner.{NativeError, value_error}
use xcron.Cron.Schedule.{parse_int}

abbrev pub star : ℕ
star = b'*'

abbrev pub slash : ℕ
slash = b'/'

abbrev pub dash : ℕ
dash = b'-'

abbrev pub comma : ℕ
comma = b','

-- `c in s`
unfoldable pub has_char : ℕ → Text → Bool
has_char c [] = false
has_char c (d ∷ s) = nat_eq d c || has_char c s

-- `s.partition(c)`, without the separator
unfoldable pub before_char : ℕ → Text → Text
before_char c [] = []
before_char c (d ∷ s) = let rest = before_char c s in if nat_eq d c then [] else d ∷ rest

unfoldable pub after_char : ℕ → Text → Text
after_char c [] = []
after_char c (d ∷ s) = let rest = after_char c s in if nat_eq d c then s else rest

abbrev pub cons_part : ℕ → List Text → List Text
cons_part c [] = (c ∷ []) ∷ []
cons_part c (l ∷ ls) = (c ∷ l) ∷ ls

-- `s.split(",")`
unfoldable pub split_commas : Text → List Text
split_commas [] = [] ∷ []
split_commas (c ∷ s) =
    let rest = split_commas s in if nat_eq c comma then [] ∷ rest else cons_part c rest

-- `range(first, stop, step)` for a step that is not 0; `count` rounds are enough for
-- `count` values.
unfoldable pub range_from : ℕ → ℕ → ℕ → ℕ → List ℕ
range_from zero first stop step = []
range_from (suc count) first stop step =
    let rest = range_from count (first + step) stop step in
    if ltb first stop then first ∷ rest else []

-- The numbers from `first` down to `least`, each `step` below the one before; `count` rounds are
-- enough for `count` numbers.
unfoldable pub range_down : ℕ → ℕ → ℕ → ℕ → List ℕ
range_down zero first least step = []
range_down (suc count) first least step =
    let rest = range_down count (first - step) least step in
    if leb (least + step) first then first ∷ rest else if leb least first then first ∷ [] else []

-- `negsuc n` is the number below 0 that lies `n` below -1.
pub data ℤ : Type 0 where
  pos : ℕ → ℤ
  negsuc : ℕ → ℤ

abbrev negative : ℕ → ℤ
negative zero = pos 0
negative (suc n) = negsuc n

-- `int(s)` of digits that may have a minus sign in front
unfoldable pub parse_signed : Text → Result NativeError ℤ
parse_signed [] = err (value_error [])
parse_signed (c ∷ s) =
    if nat_eq c dash
    then elim (int_of s) [ none ↦ err (value_error (c ∷ s)) | some n ↦ ok (negative n) ]
    else elim (int_of (c ∷ s)) [ none ↦ err (value_error (c ∷ s)) | some n ↦ ok (pos n) ]

-- `range(first, last + 1, step)`, which raises on a step of 0. Where it has a number below 0, the
-- model raises too: it has no such values. That takes an end below -2 and a step below 0.
unfoldable pub range : ℕ → ℤ → ℤ → Result NativeError (List ℕ)
range first last (pos zero) = err (value_error [])
range first (pos last) (pos (suc step)) =
    ok (range_from (last + 1 - first) first (last + 1) (suc step))
range first (negsuc n) (pos (suc step)) = ok []
range first (pos last) (negsuc step) = ok (range_down (first + 1) first (last + 2) (suc step))
range first (negsuc zero) (negsuc step) = ok (range_down (first + 1) first 1 (suc step))
range first (negsuc (suc n)) (negsuc step) =
    if ltb (suc step - first % suc step) (suc n)
    then err (value_error [])
    else ok (range_down (first + 1) first 0 (suc step))

-- `_CALENDAR_FIELD_BOUNDS`
pub record Bounds : Type 0 where
  pub least : ℕ
  pub most : ℕ

abbrev pub minute_bounds : Bounds
minute_bounds = record { least = 0; most = 59 }

abbrev pub hour_bounds : Bounds
hour_bounds = record { least = 0; most = 23 }

abbrev pub day_bounds : Bounds
day_bounds = record { least = 1; most = 31 }

abbrev pub month_bounds : Bounds
month_bounds = record { least = 1; most = 12 }

abbrev pub weekday_bounds : Bounds
weekday_bounds = record { least = 0; most = 7 }

module _ (bounds : Bounds) where
  -- `start, end`
  unfoldable pub parse_range : Text → Result NativeError (ℕ × ℤ)
  parse_range range_part =
      if range_part == star ∷ []
      then ok (bounds.least, pos bounds.most)
      else if has_char dash range_part
      then (do
        low ← parse_int (before_char dash range_part)
        high ← parse_signed (after_char dash range_part)
        ok (low, high))
      else (do low ← parse_int range_part; ok (low, pos bounds.most))

  -- The values that one part adds.
  unfoldable pub parse_part : Text → Result NativeError (List ℕ)
  parse_part part =
      if has_char slash part
      then (do
        step ← parse_signed (after_char slash part)
        (first, last) ← parse_range (before_char slash part)
        range first last step)
      else if has_char dash part
      then (do
        low ← parse_int (before_char dash part)
        high ← parse_signed (after_char dash part)
        range low high (pos 1))
      else (do value ← parse_int part; ok (value ∷ []))

  unfoldable pub parse_parts : List Text → Result NativeError (List ℕ)
  parse_parts [] = ok []
  parse_parts (part ∷ parts) = do
    values ← parse_part part
    rest ← parse_parts parts
    ok (values ++ rest)

-- `x in values`
abbrev pub holds : ℕ → List ℕ → Bool
holds x [] = false
holds x (y ∷ ys) = nat_eq y x || holds x ys

-- `set(values)`
unfoldable pub unique : List ℕ → List ℕ
unique [] = []
unique (x ∷ xs) = let rest = unique xs in if holds x rest then rest else x ∷ rest

unfoldable pub parse_calendar_field : Text → Bounds → Result NativeError (Option (List ℕ))
parse_calendar_field field bounds =
    if field == star ∷ []
    then ok none
    else (do values ← parse_parts bounds (split_commas field); ok (some (sort leb (unique values))))
