-- ===== src/Base/Decimal.antt =====
-- `int(s)` for a text of ASCII digits, and `str(n)`. Of what Python's `int` accepts beside digits
-- (a sign, `_`, surrounding space, other scripts) the manifest's schema lets nothing through.
use Prim.Native.Nat.{ℕ, zero, suc, ◌+◌, ◌-◌, ◌*◌, ◌/◌, ◌%◌, ◌≤◌}
use mathlib.Core.Path.{◌≡◌, refl, ap, ◌∙◌}
use mathlib.Core.Logic.{◌≢◌, inl, inr}
use mathlib.Core.Bool.{Bool, true, ◌&&◌}
use mathlib.Core.Option.{Option, none, some}
use mathlib.Core.List.{[], ◌∷◌, ◌++◌}
use native.Mathlib.Omega.{arith}
use xcron.Base.Tests.{ltb, leb, if◌then◌else◌, Bool-cases}
use xcron.Base.Strings.{Text}
use xcron.Base.Lists.{All, All-append}

unfoldable pub is_digit : ℕ → Bool
is_digit c = leb b'0' c && leb c b'9'

unfoldable pub digits_from : ℕ → Text → Option ℕ
unfolding is_digit
digits_from n [] = some n
digits_from n (c ∷ s) =
    let rest = digits_from (n * 10 + (c - b'0')) s in if is_digit c then rest else none

unfoldable pub int_of : Text → Option ℕ
unfolding digits_from
int_of [] = none
int_of (c ∷ s) = digits_from 0 (c ∷ s)

-- Each round prints the last digit; `n` rounds are enough for `n`.
unfoldable pub show_rounds : ℕ → ℕ → Text
show_rounds zero n = (n + b'0') ∷ []
show_rounds (suc rounds) n =
    let rest = show_rounds rounds (n / 10) in
    if ltb n 10 then (n + b'0') ∷ [] else rest ++ (n % 10 + b'0') ∷ []

unfoldable pub show_int : ℕ → Text
unfolding show_rounds
show_int n = show_rounds n n

digits_from-append :
    (n : ℕ) (s : Text) (c m : ℕ)
    → digits_from n s ≡ some m
    → is_digit c ≡ true
    → digits_from n (s ++ c ∷ []) ≡ some (m * 10 + (c - b'0'))
unfolding digits_from
digits_from-append n [] c m h k = ground arith
digits_from-append n (d ∷ s) c m h k =
    ground (arith, digits_from-append (n * 10 + (d - b'0')) s c m)

digits_from-show_rounds :
    (rounds n : ℕ) → n ≤ rounds → digits_from 0 (show_rounds rounds n) ≡ some n
unfolding show_rounds
digits_from-show_rounds zero n h = unfold digits_from is_digit in ground arith
digits_from-show_rounds (suc rounds) n h = elim (Bool-cases (ltb n 10)) [
  | inl e ↦ rw e (unfold digits_from is_digit in ground arith)
  | inr e ↦ rw e (
      digits_from-append 0 (show_rounds rounds (n / 10)) (n % 10 + b'0') (n / 10)
        (digits_from-show_rounds rounds (n / 10) (ground arith)) (unfold is_digit in ground arith)
      ∙ ap some (omega arith))
]

show_rounds-head :
    (rounds n : ℕ) → n ≤ rounds → (c : ℕ) × (s : Text) × (show_rounds rounds n ≡ c ∷ s)
unfolding show_rounds
show_rounds-head zero n h = (n + b'0', [], refl)
show_rounds-head (suc rounds) n h = elim (Bool-cases (ltb n 10)) [
  | inl e ↦ (n + b'0', [], rw e)
  | inr e ↦
      let (c, s, f) = show_rounds-head rounds (n / 10) (ground arith) in
      (c, s ++ (n % 10 + b'0') ∷ [], rw (e, f))
]

pub int_of-show_int : (n : ℕ) → int_of (show_int n) ≡ some n
unfolding int_of show_int
int_of-show_int n =
    let (c, s, e) = show_rounds-head n n (omega arith) in
    rw e (rw e at (digits_from-show_rounds n n (omega arith)))

-- Every character of a printed number is a digit.
show_rounds-digits :
    (rounds n : ℕ) → n ≤ rounds → All (λ c. is_digit c ≡ true) (show_rounds rounds n)
unfolding show_rounds is_digit
show_rounds-digits zero n h = (ground arith, tt)
show_rounds-digits (suc rounds) n h = elim (Bool-cases (ltb n 10)) [
  | inl e ↦ rw e (ground arith, tt)
  | inr e ↦ rw e (
      All-append _ (show_rounds rounds (n / 10)) _
        (show_rounds-digits rounds (n / 10) (ground arith)) (ground arith, tt))
]

pub show_int-digits : (n : ℕ) → All (λ c. is_digit c ≡ true) (show_int n)
unfolding show_int
show_int-digits n = show_rounds-digits n n (omega arith)

pub show_int-filled : (n : ℕ) → show_int n ≢ []
unfolding show_int
show_int-filled n e =
    let (c, s, shape) = show_rounds-head n n (omega arith) in absurd (cc (e, shape))
