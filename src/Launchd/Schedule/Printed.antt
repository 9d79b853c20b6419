-- ===== src/Launchd/Schedule/Printed.antt =====
-- The fields of an expression of cron as they are printed: words, which no minute step is read in
-- but where they are one.
use xcron.Base.{
  Bool, true, false, ◌≡◌, ◌≢◌, append-nil, append_assoc, List-cases, refl, sym, ap, ◌∙◌, inl, inr,
  ℕ, none, List, [], ◌∷◌, ◌++◌, Text, codes, text_Eq, text_eq, strip_prefix, is_space, is_digit,
  show_int, show_int-digits, show_int-filled, any, all, All, All-append, All-imp, arith,
}
use xcron.Base.Lines.Words.{IsWord}
use xcron.Launchd.Calendar.{star, slash, dash, comma, Bounds}
use xcron.Launchd.Calendar.Fields.{
  Part, number, span, every_step, step_from, step_span, print_part, IsStepped, lets, print_field,
  print_field-star,
}
use xcron.Launchd.Schedule.{minute_step, is_star}

-- A field of an expression: `*`, or parts joined by commas.
pub data Field : Type 0 where
  wild : Field
  listed : Part → List Part → Field

abbrev pub print : Field → Text
print wild = star ∷ []
print (listed p parts) = print_field p parts

abbrev pub AllStepped : Field → Type 0
AllStepped wild = Unit
AllStepped (listed p parts) = All IsStepped (p ∷ parts)

abbrev pub field_lets : Bounds → ℕ → Field → Bool
field_lets bounds v wild = true
field_lets bounds v (listed p parts) = any (lets bounds v) (p ∷ parts)

abbrev pub is_wild : Field → Bool
is_wild wild = true
is_wild (listed p parts) = false

-- A minute field that alone does not make an interval of seconds.
abbrev pub is_calendar : Field → Bool
is_calendar wild = false
is_calendar (listed (every_step step) []) = false
is_calendar (listed _ _) = true

-- No minute step is read where the field does not begin with `*`.
strip_prefix-digits :
    (s t : Text)
    → All (λ c. is_digit c ≡ true) s
    → s ≢ []
    → strip_prefix (codes "*/") (s ++ t) ≡ none
unfolding strip_prefix codes is_digit
strip_prefix-digits [] t h k = absurd (k refl)
strip_prefix-digits (c ∷ s) t h k = ground (arith, h.0)

minute_step-digits : (n : ℕ) (t : Text) → minute_step (show_int n ++ t) ≡ none
unfolding minute_step
minute_step-digits n t =
    rw (minute_step, strip_prefix-digits (show_int n) t (show_int-digits n) (show_int-filled n))
      refl

all-digits_comma : (s t : Text) → all is_digit (s ++ comma ∷ t) ≡ false
all-digits_comma [] t = unfold is_digit in refl
all-digits_comma (c ∷ s) t = ground (arith, all-digits_comma s t)

-- A part that is no step of every value begins with a number.
abbrev is_every_step : Part → Bool
is_every_step (every_step step) = true
is_every_step _ = false

part-head :
    (p : Part) → is_every_step p ≡ false → (n : ℕ) × (t : Text) × (print_part p ≡ show_int n ++ t)
part-head (number n) h = (n, [], sym (append-nil (show_int n)))
part-head (span lo hi) h = (lo, dash ∷ show_int hi, refl)
part-head (every_step step) h = absurd (cc)
part-head (step_from lo step) h = (lo, slash ∷ show_int step, refl)
part-head (step_span lo hi step) h =
    (lo, dash ∷ (show_int hi ++ slash ∷ show_int step), append_assoc (show_int lo) _ _)

minute_step-number :
    (p : Part) (parts : List Part)
    → is_every_step p ≡ false
    → minute_step (print_field p parts) ≡ none
minute_step-number p [] h =
    let (n, t, e) = part-head p h in ap minute_step e ∙ minute_step-digits n t
minute_step-number p (q ∷ parts) h =
    let (n, t, e) = part-head p h in
    ap minute_step (ap (λ s. s ++ comma ∷ print_field q parts) e ∙ append_assoc (show_int n) t _)
    ∙ minute_step-digits n _

minute_step-steps :
    (step : ℕ) (q : Part) (parts : List Part)
    → minute_step (print_field (every_step step) (q ∷ parts)) ≡ none
unfolding minute_step strip_prefix codes
minute_step-steps step q parts = elim (List-cases (show_int step)) [
  | inl e ↦ absurd (show_int-filled step e)
  | inr (c, s, e) ↦ rw e (ground (arith, all-digits_comma s (print_field q parts)))
]

pub minute_step-calendar : (f : Field) → is_calendar f ≡ true → minute_step (print f) ≡ none
minute_step-calendar wild h = absurd (cc)
minute_step-calendar (listed (every_step step) []) h = absurd (cc)
minute_step-calendar (listed (every_step step) (q ∷ parts)) h = minute_step-steps step q parts
minute_step-calendar (listed (number n) parts) h = minute_step-number (number n) parts refl
minute_step-calendar (listed (span lo hi) parts) h = minute_step-number (span lo hi) parts refl
minute_step-calendar (listed (step_from lo step) parts) h =
    minute_step-number (step_from lo step) parts refl
minute_step-calendar (listed (step_span lo hi step) parts) h =
    minute_step-number (step_span lo hi step) parts refl

pub is_star-print : (f : Field) → is_star (print f) ≡ is_wild f
unfolding text_eq
is_star-print wild = refl
is_star-print (listed p parts) = print_field-star p parts

abbrev Solid : Text → Type 0
Solid = All (λ c. is_space c ≡ false)

show_int-Solid : (n : ℕ) → Solid (show_int n)
unfolding is_digit is_space
show_int-Solid n = All-imp _ _ (show_int n) (λ c h. ground arith) (show_int-digits n)

-- Two numbers with a character between them.
numbers-Solid : (a c b : ℕ) → is_space c ≡ false → Solid (show_int a ++ c ∷ show_int b)
numbers-Solid a c b h =
    All-append _ (show_int a) (c ∷ show_int b) (show_int-Solid a) (h, show_int-Solid b)

print_part-Solid : (p : Part) → Solid (print_part p)
unfolding is_space
print_part-Solid (number n) = show_int-Solid n
print_part-Solid (span lo hi) = numbers-Solid lo dash hi refl
print_part-Solid (every_step step) = (refl, (refl, show_int-Solid step))
print_part-Solid (step_from lo step) = numbers-Solid lo slash step refl
print_part-Solid (step_span lo hi step) =
    All-append _ (show_int lo ++ dash ∷ show_int hi) (slash ∷ show_int step)
      (numbers-Solid lo dash hi refl) (refl, show_int-Solid step)

print_field-Solid : (p : Part) (parts : List Part) → Solid (print_field p parts)
unfolding is_space
print_field-Solid p [] = print_part-Solid p
print_field-Solid p (q ∷ parts) =
    All-append _ (print_part p) _ (print_part-Solid p) (refl, print_field-Solid q parts)

filled_append : (s t : Text) → s ≢ [] → s ++ t ≢ []
filled_append [] t h = absurd (h refl)
filled_append (c ∷ s) t h = λ e. cc

print_part-filled : (p : Part) → print_part p ≢ []
print_part-filled (number n) = show_int-filled n
print_part-filled (span lo hi) = filled_append (show_int lo) _ (show_int-filled lo)
print_part-filled (every_step step) = λ e. cc
print_part-filled (step_from lo step) = filled_append (show_int lo) _ (show_int-filled lo)
print_part-filled (step_span lo hi step) =
    filled_append (show_int lo ++ dash ∷ show_int hi) _
      (filled_append (show_int lo) _ (show_int-filled lo))

print_field-filled : (p : Part) (parts : List Part) → print_field p parts ≢ []
print_field-filled p [] = print_part-filled p
print_field-filled p (q ∷ parts) = filled_append (print_part p) _ (print_part-filled p)

pub IsWord-print : (f : Field) → IsWord (print f)
unfolding is_space
IsWord-print wild = record { filled = λ e. cc; solid = (refl, tt) }
IsWord-print (listed p parts) = record {
  filled = print_field-filled p parts;
  solid = print_field-Solid p parts;
}

pub is_calendar-of_wild : (f : Field) → is_wild f ≡ true → is_calendar f ≡ false
is_calendar-of_wild wild h = refl
is_calendar-of_wild (listed p parts) h = absurd (cc)
