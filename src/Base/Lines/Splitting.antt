-- ===== src/Base/Lines/Splitting.antt =====
-- `splitlines` gives back the lines that a text was put together from.
use Prim.Native.Nat.{ℕ}
use mathlib.Core.Path.{◌≡◌, refl, ap, ◌∙◌}
use mathlib.Core.Logic.{inl, inr}
use mathlib.Core.Bool.{Bool, false, ◌&&◌}
use mathlib.Core.List.{List, [], ◌∷◌, ◌++◌, append_assoc}
use native.Mathlib.Omega.{arith}
use xcron.Base.Tests.{nat_eq, Bool-cases}
use xcron.Base.Strings.{Text}
use xcron.Base.Lists.{All}
use xcron.Base.Lines.{is_line_break, cons_head, lines_after, splitlines, lf, join_lines}

-- A text with no line break in it.
abbrev pub Breakless : Text → Type 0
Breakless = All (λ c. is_line_break c ≡ false)

-- The lines, each with its LF.
unfoldable pub unlines : List Text → Text
unlines [] = []
unlines (l ∷ ls) = l ++ lf ∷ unlines ls

not_cr : (c : ℕ) → is_line_break c ≡ false → nat_eq c 13 ≡ false
unfolding is_line_break
not_cr c h = ground arith

pub lines_after-cons :
    (c : ℕ) (s : Text)
    → is_line_break c ≡ false
    → lines_after false (c ∷ s) ≡ cons_head c (lines_after false s)
unfolding lines_after
lines_after-cons c s h = rw (not_cr c h, h)

pub lines_after-append_lf :
    (l s : Text) → Breakless l → lines_after false (l ++ lf ∷ s) ≡ l ∷ lines_after false s
unfolding lines_after
lines_after-append_lf [] s h = unfold is_line_break in refl
lines_after-append_lf (c ∷ l) s h = rw (not_cr c h.0, h.0, lines_after-append_lf l s h.1)

pub splitlines-unlines : (ls : List Text) → All Breakless ls → splitlines (unlines ls) ≡ ls
unfolding splitlines unlines
splitlines-unlines [] h = refl
splitlines-unlines (l ∷ ls) h =
    lines_after-append_lf l (unlines ls) h.0 ∙ ap (λ r. l ∷ r) (splitlines-unlines ls h.1)

pub join_lines-lf : (l : Text) (ls : List Text) → join_lines (l ∷ ls) ++ lf ∷ [] ≡ unlines (l ∷ ls)
unfolding join_lines unlines
join_lines-lf l [] = refl
join_lines-lf l (m ∷ ls) =
    append_assoc l (lf ∷ join_lines (m ∷ ls)) (lf ∷ []) ∙ ap (λ r. l ++ lf ∷ r) (join_lines-lf m ls)

cons_head-Breakless :
    (c : ℕ) (ls : List Text)
    → is_line_break c ≡ false
    → All Breakless ls
    → All Breakless (cons_head c ls)
cons_head-Breakless c [] h k = ((h, tt), tt)
cons_head-Breakless c (l ∷ ls) h k = ((h, k.0), k.1)

lines_after-Breakless : (cr : Bool) (s : Text) → All Breakless (lines_after cr s)
unfolding lines_after
lines_after-Breakless cr [] = tt
lines_after-Breakless cr (c ∷ s) = elim (Bool-cases (cr && nat_eq c 10)) [
  | inl e ↦ rw e (lines_after-Breakless (nat_eq c 13) s)
  | inr e ↦ elim (Bool-cases (is_line_break c)) [
    | inl f ↦ rw (e, f) (tt, lines_after-Breakless (nat_eq c 13) s)
    | inr f ↦ rw (e, f) (cons_head-Breakless c _ f (lines_after-Breakless (nat_eq c 13) s))
  ]
]

pub splitlines-Breakless : (s : Text) → All Breakless (splitlines s)
unfolding splitlines
splitlines-Breakless s = lines_after-Breakless false s
