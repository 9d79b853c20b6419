-- ===== src/Launchd/Calendar/Fields.antt =====
-- What `parse_calendar_field` reads in a field of cron's grammar.
use xcron.Base.{
  Bool, true, false, ◌&&◌, nat_eq, ltb, leb, ℕ, zero, suc, ◌+◌, ◌-◌, ◌≤◌, ◌≡◌, refl, ◌∙◌, some,
  List, [], ◌∷◌, ◌++◌, map, Text, text_Eq, text_eq, ◌==◌, arith, All, All-map, All-of_forall, any,
  sort, IsSorted, is_digit, show_int, ok,
}
use xcron.Launchd.Calendar.{
  star, slash, dash, comma, has_char, Bounds, parse_range, parse_part, parse_parts, holds, unique,
  range, range_from, pos, parse_calendar_field,
}
use xcron.Launchd.Calendar.Values.{
  in_range, holds-append, holds-sort-unique, holds-range_from, sort-unique-IsSorted,
}
use xcron.Launchd.Calendar.Split.{
  has_char-append, before_char-append, after_char-append, has_char-show_int, parse_int-show_int,
  parse_signed-show_int, join_commas, split_commas-join_commas,
}

-- The parts of a field: a number, `lo-hi`, `*/step`, `lo/step` and `lo-hi/step`.
pub data Part : Type 0 where
  number : ℕ → Part
  span : ℕ → ℕ → Part
  every_step : ℕ → Part
  step_from : ℕ → ℕ → Part
  step_span : ℕ → ℕ → ℕ → Part

abbrev pub print_part : Part → Text
print_part (number n) = show_int n
print_part (span lo hi) = show_int lo ++ dash ∷ show_int hi
print_part (every_step step) = (star ∷ []) ++ slash ∷ show_int step
print_part (step_from lo step) = show_int lo ++ slash ∷ show_int step
print_part (step_span lo hi step) = (show_int lo ++ dash ∷ show_int hi) ++ slash ∷ show_int step

-- A step is at least 1.
abbrev pub IsStepped : Part → Type 0
IsStepped (number n) = Unit
IsStepped (span lo hi) = Unit
IsStepped (every_step step) = 1 ≤ step
IsStepped (step_from lo step) = 1 ≤ step
IsStepped (step_span lo hi step) = 1 ≤ step

-- Whether a part lets a value through.
abbrev pub lets : Bounds → ℕ → Part → Bool
lets bounds v (number n) = nat_eq n v
lets bounds v (span lo hi) = leb lo v && leb v hi
lets bounds v (every_step step) = in_range bounds.least (bounds.most + 1) step v
lets bounds v (step_from lo step) = in_range lo (bounds.most + 1) step v
lets bounds v (step_span lo hi step) = in_range lo (hi + 1) step v

-- A printed part is some list of values that holds what the part lets through.
abbrev IsRead : Bounds → Part → Type 0
IsRead bounds p =
    (values : List ℕ) × (parse_part bounds (print_part p) ≡ ok values)
    × ((v : ℕ) → holds v values ≡ lets bounds v p)

has_char-span :
    (c lo hi : ℕ)
    → is_digit c ≡ false
    → nat_eq dash c ≡ false
    → has_char c (show_int lo ++ dash ∷ show_int hi) ≡ false
has_char-span c lo hi h k =
    rw (has_char-append c (show_int lo) (dash ∷ show_int hi), has_char-show_int c lo h)
      (unfold has_char in rw (k, has_char-show_int c hi h))

no_star : (s : Text) → has_char star s ≡ false → s == star ∷ [] ≡ false
unfolding has_char text_eq
no_star [] h = refl
no_star (c ∷ []) h = ground (arith, h)
no_star (c ∷ d ∷ s) h = ground arith

range-holds :
    (lo hi step : ℕ)
    → 1 ≤ step
    → (values : List ℕ) × (range lo (pos hi) (pos step) ≡ ok values)
      × ((v : ℕ) → holds v values ≡ in_range lo (hi + 1) step v)
unfolding range
range-holds lo hi zero h = ground arith
range-holds lo hi (suc step) h = (
  range_from (hi + 1 - lo) lo (hi + 1) (suc step),
  refl,
  λ v. holds-range_from (hi + 1 - lo) lo (hi + 1) (suc step) v h (omega arith),
)

module _ (bounds : Bounds) where
  number-IsRead : (n : ℕ) → IsRead bounds (number n)
  unfolding parse_part
  number-IsRead n =
      rw
        (
          has_char-show_int slash n (unfold is_digit in refl),
          has_char-show_int dash n (unfold is_digit in refl),
          parse_int-show_int n,
        )
        (n ∷ [], refl, λ v. ground arith)

  span-IsRead : (lo hi : ℕ) → IsRead bounds (span lo hi)
  unfolding parse_part has_char
  span-IsRead lo hi =
      let plain = has_char-show_int dash lo (unfold is_digit in refl) in
      let (values, e, held) = range-holds lo hi 1 (omega arith) in
      rw
        (
          has_char-span slash lo hi (unfold is_digit in refl) refl,
          has_char-append dash (show_int lo) (dash ∷ show_int hi),
          plain,
          has_char,
          before_char-append dash (show_int lo) (show_int hi) plain,
          after_char-append dash (show_int lo) (show_int hi) plain,
          parse_int-show_int lo,
          parse_signed-show_int hi,
          e,
        )
        (values, refl, λ v. ground (arith, held v))

  -- What follows the slash is the step of the range before it.
  step-read :
      (s : Text) (lo hi step : ℕ)
      → has_char slash s ≡ false
      → parse_range bounds s ≡ ok (lo, pos hi)
      → 1 ≤ step
      → (values : List ℕ) × (parse_part bounds (s ++ slash ∷ show_int step) ≡ ok values)
        × ((v : ℕ) → holds v values ≡ in_range lo (hi + 1) step v)
  unfolding parse_part has_char
  step-read s lo hi step plain parsed h =
      let (values, e, held) = range-holds lo hi step h in
      rw
        (
          has_char-append slash s (slash ∷ show_int step),
          plain,
          has_char,
          after_char-append slash s (show_int step) plain,
          before_char-append slash s (show_int step) plain,
          parse_signed-show_int step,
          parsed,
          e,
        )
        (values, refl, held)

  parse_range-number : (n : ℕ) → parse_range bounds (show_int n) ≡ ok (n, pos bounds.most)
  unfolding parse_range
  parse_range-number n =
      rw
        (
          no_star (show_int n) (has_char-show_int star n (unfold is_digit in refl)),
          has_char-show_int dash n (unfold is_digit in refl),
          parse_int-show_int n,
        )
        refl

  parse_range-span :
      (lo hi : ℕ) → parse_range bounds (show_int lo ++ dash ∷ show_int hi) ≡ ok (lo, pos hi)
  unfolding parse_range has_char
  parse_range-span lo hi =
      let plain = has_char-show_int dash lo (unfold is_digit in refl) in
      rw
        (
          no_star (show_int lo ++ dash ∷ show_int hi)
              (has_char-span star lo hi (unfold is_digit in refl) refl),
          has_char-append dash (show_int lo) (dash ∷ show_int hi),
          plain,
          has_char,
          before_char-append dash (show_int lo) (show_int hi) plain,
          after_char-append dash (show_int lo) (show_int hi) plain,
          parse_int-show_int lo,
          parse_signed-show_int hi,
        )
        refl

  every_step-IsRead : (step : ℕ) → 1 ≤ step → IsRead bounds (every_step step)
  unfolding text_eq
  every_step-IsRead step h =
      step-read (star ∷ []) bounds.least bounds.most step (unfold has_char in refl)
        (unfold parse_range in refl) h

  step_from-IsRead : (lo step : ℕ) → 1 ≤ step → IsRead bounds (step_from lo step)
  step_from-IsRead lo step h =
      step-read (show_int lo) lo bounds.most step
        (has_char-show_int slash lo (unfold is_digit in refl)) (parse_range-number lo) h

  step_span-IsRead : (lo hi step : ℕ) → 1 ≤ step → IsRead bounds (step_span lo hi step)
  step_span-IsRead lo hi step h =
      step-read (show_int lo ++ dash ∷ show_int hi) lo hi step
        (has_char-span slash lo hi (unfold is_digit in refl) refl) (parse_range-span lo hi) h

  part-IsRead : (p : Part) → IsStepped p → IsRead bounds p
  part-IsRead (number n) h = number-IsRead n
  part-IsRead (span lo hi) h = span-IsRead lo hi
  part-IsRead (every_step step) h = every_step-IsRead step h
  part-IsRead (step_from lo step) h = step_from-IsRead lo step h
  part-IsRead (step_span lo hi step) h = step_span-IsRead lo hi step h

  parts-read :
      (parts : List Part)
      → All IsStepped parts
      → (values : List ℕ) × (parse_parts bounds (map print_part parts) ≡ ok values)
        × ((v : ℕ) → holds v values ≡ any (lets bounds v) parts)
  unfolding parse_parts
  parts-read [] h = ([], refl, λ v. refl)
  parts-read (p ∷ parts) h =
      let (values, e, held) = part-IsRead p h.0 in
      let (rest, f, holding) = parts-read parts h.1 in
      (values ++ rest, rw (e, f) refl, λ v. rw (holds-append v values rest, held v, holding v) refl)

print_part-comma : (p : Part) → has_char comma (print_part p) ≡ false
unfolding has_char is_digit
print_part-comma (number n) = has_char-show_int comma n refl
print_part-comma (span lo hi) = has_char-span comma lo hi refl refl
print_part-comma (every_step step) = has_char-show_int comma step refl
print_part-comma (step_from lo step) =
    rw
      (has_char-append comma (show_int lo) (slash ∷ show_int step), has_char-show_int comma lo refl)
      (has_char-show_int comma step refl)
print_part-comma (step_span lo hi step) =
    rw
      (
        has_char-append comma (show_int lo ++ dash ∷ show_int hi) (slash ∷ show_int step),
        has_char-span comma lo hi refl refl,
      )
      (has_char-show_int comma step refl)

-- A text that has another character is not `*`.
no_star_of_char :
    (c : ℕ) (s : Text) → nat_eq star c ≡ false → has_char c s ≡ true → s == star ∷ [] ≡ false
unfolding text_eq has_char
no_star_of_char c [] h k = cc
no_star_of_char c (d ∷ []) h k = ground (arith, k)
no_star_of_char c (d ∷ e ∷ s) h k = ground arith

has_char-joint : (c : ℕ) (s t : Text) → has_char c (s ++ c ∷ t) ≡ true
unfolding has_char
has_char-joint c [] t = ground arith
has_char-joint c (d ∷ s) t = ground (arith, has_char-joint c s t)

print_part-star : (p : Part) → print_part p == star ∷ [] ≡ false
unfolding is_digit
print_part-star (number n) = no_star (show_int n) (has_char-show_int star n refl)
print_part-star (span lo hi) = no_star _ (has_char-span star lo hi refl refl)
print_part-star (every_step step) =
    no_star_of_char slash _ refl (has_char-joint slash (star ∷ []) (show_int step))
print_part-star (step_from lo step) =
    no_star_of_char slash _ refl (has_char-joint slash (show_int lo) (show_int step))
print_part-star (step_span lo hi step) =
    no_star_of_char slash _ refl
      (has_char-joint slash (show_int lo ++ dash ∷ show_int hi) (show_int step))

-- `",".join` of the printed parts
abbrev pub print_field : Part → List Part → Text
print_field p parts = join_commas (print_part p) (map print_part parts)

pub print_field-star : (p : Part) (parts : List Part) → print_field p parts == star ∷ [] ≡ false
print_field-star p [] = print_part-star p
print_field-star p (next ∷ parts) =
    no_star_of_char comma _ refl (has_char-joint comma (print_part p) (print_field next parts))

-- A field of parts joined by commas, each step at least 1, is read as a list of values that holds
-- a value exactly when some part lets it through, in strict order.
pub parse_calendar_field-print :
    (bounds : Bounds) (p : Part) (parts : List Part)
    → All IsStepped (p ∷ parts)
    → (values : List ℕ) × (parse_calendar_field (print_field p parts) bounds ≡ ok (some values))
      × ((v : ℕ) → holds v values ≡ any (lets bounds v) (p ∷ parts))
      × IsSorted ltb values
unfolding parse_calendar_field
parse_calendar_field-print bounds p parts h =
    let pieces =
      split_commas-join_commas (print_part p) (map print_part parts)
        (print_part-comma p, All-map _ print_part parts (All-of_forall _ parts print_part-comma)) in
    let (values, e, held) = parts-read bounds (p ∷ parts) h in
    (
      sort leb (unique values),
      rw (print_field-star p parts, pieces, e) refl,
      λ v. holds-sort-unique v values ∙ held v,
      sort-unique-IsSorted values,
    )
