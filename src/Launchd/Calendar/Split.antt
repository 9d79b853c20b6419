-- ===== src/Launchd/Calendar/Split.antt =====
-- `in`, `partition` and `split(",")` on texts put together from pieces.
use xcron.Base.{
  true, false, ◌||◌, ℕ, ◌≡◌, ap, ◌∙◌, refl, List, [], ◌∷◌, ◌++◌, Text, arith, All, is_digit,
  show_int, show_int-digits, int_of, int_of-show_int, Option, none, some, nat_eq, ok,
}
use xcron.Cron.Schedule.{parse_int}
use xcron.Launchd.Calendar.{
  dash, pos, parse_signed, comma, has_char, before_char, after_char, split_commas,
}

pub has_char-append : (c : ℕ) (s t : Text) → has_char c (s ++ t) ≡ (has_char c s || has_char c t)
unfolding has_char
has_char-append c [] t = refl
has_char-append c (d ∷ s) t = ground (arith, has_char-append c s t)

pub before_char-append :
    (c : ℕ) (s t : Text) → has_char c s ≡ false → before_char c (s ++ c ∷ t) ≡ s
unfolding has_char before_char
before_char-append c [] t h = ground arith
before_char-append c (d ∷ s) t h = ground (arith, before_char-append c s t)

pub after_char-append : (c : ℕ) (s t : Text) → has_char c s ≡ false → after_char c (s ++ c ∷ t) ≡ t
unfolding has_char after_char
after_char-append c [] t h = ground arith
after_char-append c (d ∷ s) t h = ground (arith, after_char-append c s t)

has_char-of_digits :
    (c : ℕ) (s : Text) → is_digit c ≡ false → All (λ d. is_digit d ≡ true) s → has_char c s ≡ false
unfolding has_char is_digit
has_char-of_digits c [] h k = refl
has_char-of_digits c (d ∷ s) h k = ground (arith, has_char-of_digits c s h k.1, k.0)

-- No other character than a digit stands in a printed number.
pub has_char-show_int : (c n : ℕ) → is_digit c ≡ false → has_char c (show_int n) ≡ false
has_char-show_int c n h = has_char-of_digits c (show_int n) h (show_int-digits n)

pub parse_int-show_int : (n : ℕ) → parse_int (show_int n) ≡ ok n
unfolding parse_int
parse_int-show_int n = rw (parse_int, int_of-show_int n) refl

parse_signed-of_digits :
    (s : Text) (n : ℕ)
    → All (λ c. is_digit c ≡ true) s
    → int_of s ≡ some n
    → parse_signed s ≡ ok (pos n)
unfolding parse_signed is_digit
parse_signed-of_digits [] n h k =
    absurd (let e : ◌≡◌ {A = Option ℕ} none (some n) = unfold int_of in k in cc)
parse_signed-of_digits (c ∷ s) n h k =
    let plain : nat_eq c dash ≡ false = ground (arith, h.0) in rw (plain, k) refl

pub parse_signed-show_int : (n : ℕ) → parse_signed (show_int n) ≡ ok (pos n)
parse_signed-show_int n =
    parse_signed-of_digits (show_int n) n (show_int-digits n) (int_of-show_int n)

-- `",".join(parts)`
abbrev pub join_commas : Text → List Text → Text
join_commas part [] = part
join_commas part (next ∷ parts) = part ++ comma ∷ join_commas next parts

split_commas-part : (s : Text) → has_char comma s ≡ false → split_commas s ≡ s ∷ []
unfolding split_commas has_char
split_commas-part [] h = refl
split_commas-part (c ∷ s) h = ground (arith, split_commas-part s)

split_commas-append :
    (s t : Text) → has_char comma s ≡ false → split_commas (s ++ comma ∷ t) ≡ s ∷ split_commas t
unfolding split_commas has_char
split_commas-append [] t h = refl
split_commas-append (c ∷ s) t h = ground (arith, split_commas-append s t)

pub split_commas-join_commas :
    (part : Text) (parts : List Text)
    → All (λ s. has_char comma s ≡ false) (part ∷ parts)
    → split_commas (join_commas part parts) ≡ part ∷ parts
split_commas-join_commas part [] h = split_commas-part part h.0
split_commas-join_commas part (next ∷ parts) h =
    split_commas-append part (join_commas next parts) h.0
    ∙ ap (λ rest. part ∷ rest) (split_commas-join_commas next parts h.1)
