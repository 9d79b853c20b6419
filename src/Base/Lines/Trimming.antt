-- ===== src/Base/Lines/Trimming.antt =====
-- `rstrip` on a text of lines: it drops the blank lines at the end, and what is blank at the end of
-- the last line that stays.
use Prim.Native.Nat.{ℕ}
use mathlib.Core.Path.{◌≡◌, refl, ap, ◌∙◌, sym}
use mathlib.Core.Logic.{◌≢◌, inl, inr}
use mathlib.Core.Bool.{false}
use mathlib.Core.List.{List, [], ◌∷◌, ◌++◌}
use native.Mathlib.Omega.{arith}
use xcron.Base.Tests.{if◌then◌else◌, Bool-cases}
use xcron.Base.Strings.{Text, is_space}
use xcron.Base.Lists.{All, is_empty, List-cases}
use xcron.Base.Lines.{is_line_break, strip_cons, rstrip, lf, join_lines}
use xcron.Base.Lines.Splitting.{Breakless}

abbrev one_line : Text → List Text
one_line [] = []
one_line (c ∷ l) = (c ∷ l) ∷ []

abbrev trim_cons : Text → List Text → List Text
trim_cons l [] = one_line (rstrip l)
trim_cons l (r ∷ rs) = l ∷ r ∷ rs

unfoldable pub trim_lines : List Text → List Text
trim_lines [] = []
trim_lines (l ∷ ls) = trim_cons l (trim_lines ls)

trim_cons-append :
    (x : Text) (xs : List Text) (e : Text) (ys : List Text)
    → trim_cons x (xs ++ e ∷ ys) ≡ x ∷ (xs ++ e ∷ ys)
trim_cons-append x [] e ys = refl
trim_cons-append x (l ∷ xs) e ys = refl

strip_cons-Breakless :
    (c : ℕ) (s : Text) → is_line_break c ≡ false → Breakless s → Breakless (strip_cons c s)
strip_cons-Breakless c [] h k = elim (Bool-cases (is_space c)) [
  | inl e ↦ rw e tt
  | inr e ↦ rw e (h, tt)
]
strip_cons-Breakless c (d ∷ s) h k = (h, k)

rstrip-rstrip : (s : Text) → rstrip (rstrip s) ≡ rstrip s
unfolding rstrip
rstrip-rstrip [] = refl
rstrip-rstrip (c ∷ s) = ground (arith, rstrip-rstrip s)

strip_cons-append :
    (c : ℕ) (l : Text) (d : ℕ) (r : Text) → strip_cons c (l ++ d ∷ r) ≡ c ∷ (l ++ d ∷ r)
strip_cons-append c [] d r = refl
strip_cons-append c (x ∷ l) d r = refl

pub rstrip-append :
    (l s : Text) → rstrip (l ++ s) ≡ (if is_empty (rstrip s) then rstrip l else l ++ rstrip s)
unfolding rstrip
rstrip-append [] s = ground arith
rstrip-append (c ∷ l) s = elim (List-cases (rstrip s)) [
  | inl e ↦ rw e (ap (strip_cons c) (rw e at (rstrip-append l s)))
  | inr (d, r, e) ↦
      rw e (ap (strip_cons c) (rw e at (rstrip-append l s)) ∙ strip_cons-append c l d r)
]

rstrip-lf : (s : Text) → rstrip (lf ∷ s) ≡ (if is_empty (rstrip s) then [] else lf ∷ rstrip s)
unfolding rstrip
rstrip-lf s = ground arith

rstrip-append_lf :
    (l s : Text)
    → rstrip (l ++ lf ∷ s) ≡ (if is_empty (rstrip s) then rstrip l else l ++ lf ∷ rstrip s)
rstrip-append_lf l s = ground (arith, rstrip-append l (lf ∷ s), rstrip-lf s)

join_lines-one_line : (l : Text) → join_lines (one_line l) ≡ l
unfolding join_lines
join_lines-one_line [] = refl
join_lines-one_line (c ∷ l) = refl

is_empty-join_one_line : (l : Text) → is_empty (join_lines (one_line l)) ≡ is_empty (one_line l)
unfolding join_lines
is_empty-join_one_line [] = refl
is_empty-join_one_line (c ∷ l) = refl

is_empty-append : (l : Text) (c : ℕ) (s : Text) → is_empty (l ++ c ∷ s) ≡ false
is_empty-append [] c s = refl
is_empty-append (d ∷ l) c s = refl

is_empty-join_trim :
    (ls : List Text) → is_empty (join_lines (trim_lines ls)) ≡ is_empty (trim_lines ls)
unfolding trim_lines join_lines
is_empty-join_trim [] = refl
is_empty-join_trim (l ∷ ls) = elim (List-cases (trim_lines ls)) [
  | inl e ↦ rw e (is_empty-join_one_line (rstrip l))
  | inr (r, rs, e) ↦ rw e (is_empty-append l lf (join_lines (r ∷ rs)))
]

join_lines-trim_cons :
    (l : Text) (t : List Text)
    → is_empty (join_lines t) ≡ is_empty t
    → (if is_empty (join_lines t) then rstrip l else l ++ lf ∷ join_lines t)
      ≡ join_lines (trim_cons l t)
unfolding join_lines
join_lines-trim_cons l [] h = sym (join_lines-one_line (rstrip l))
join_lines-trim_cons l (r ∷ rs) h = rw h

pub rstrip-join_lines : (ls : List Text) → rstrip (join_lines ls) ≡ join_lines (trim_lines ls)
unfolding trim_lines join_lines
rstrip-join_lines [] = unfold rstrip in refl
rstrip-join_lines (l ∷ []) = sym (join_lines-one_line (rstrip l))
rstrip-join_lines (l ∷ m ∷ ls) =
    rstrip-append_lf l (join_lines (m ∷ ls))
    ∙ rw (rstrip-join_lines (m ∷ ls))
        (join_lines-trim_cons l (trim_lines (m ∷ ls)) (is_empty-join_trim (m ∷ ls)))

-- A line with something at its end keeps all that stands before it.
pub trim_lines-append :
    (xs : List Text) (e : Text) (ys : List Text)
    → rstrip e ≡ e
    → e ≢ []
    → trim_lines (xs ++ e ∷ ys) ≡ xs ++ e ∷ trim_lines ys
unfolding trim_lines
trim_lines-append [] [] ys h n = absurd (n refl)
trim_lines-append [] (c ∷ e) ys h n = elim (List-cases (trim_lines ys)) [
  | inl f ↦ rw (f, h) refl
  | inr (r, rs, f) ↦ rw f refl
]
trim_lines-append (x ∷ xs) e ys h n =
    ap (trim_cons x) (trim_lines-append xs e ys h n) ∙ trim_cons-append x xs e (trim_lines ys)

one_line-rstrip : (l : Text) → trim_lines (one_line (rstrip l)) ≡ one_line (rstrip l)
unfolding trim_lines
one_line-rstrip l = elim (List-cases (rstrip l)) [
  | inl e ↦ rw e
  | inr (c, r, e) ↦ rw e (ap one_line (sym (ap rstrip e) ∙ rstrip-rstrip l ∙ e))
]

pub trim_lines-trim_lines : (ls : List Text) → trim_lines (trim_lines ls) ≡ trim_lines ls
unfolding trim_lines
trim_lines-trim_lines [] = refl
trim_lines-trim_lines (l ∷ ls) = elim (List-cases (trim_lines ls)) [
  | inl e ↦ rw e (one_line-rstrip l)
  | inr (r, rs, e) ↦ rw e (ap (trim_cons l) (sym (ap trim_lines e) ∙ trim_lines-trim_lines ls ∙ e))
]

rstrip-Breakless : (l : Text) → Breakless l → Breakless (rstrip l)
unfolding rstrip
rstrip-Breakless [] h = tt
rstrip-Breakless (c ∷ l) h = strip_cons-Breakless c (rstrip l) h.0 (rstrip-Breakless l h.1)

one_line-Breakless : (l : Text) → Breakless l → All Breakless (one_line l)
one_line-Breakless [] h = tt
one_line-Breakless (c ∷ l) h = (h, tt)

pub trim_lines-Breakless : (ls : List Text) → All Breakless ls → All Breakless (trim_lines ls)
unfolding trim_lines
trim_lines-Breakless [] h = tt
trim_lines-Breakless (l ∷ ls) h = elim (List-cases (trim_lines ls)) [
  | inl e ↦ rw e (one_line-Breakless (rstrip l) (rstrip-Breakless l h.0))
  | inr (r, rs, e) ↦ rw e (h.0, rw e at (trim_lines-Breakless ls h.1))
]
