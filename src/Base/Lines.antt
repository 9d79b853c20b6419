-- ===== src/Base/Lines.antt =====
-- `str.splitlines`, `"\n".join`, `str.rstrip` and `str.split`.
pub mod Splitting
pub mod Trimming
pub mod Words
use xcron.Base.Tests.{leb, nat_eq, nat_Eq, if◌then◌else◌, ◌==◌, Bool-cases, nat_eq_iff}
use xcron.Base.Strings.{Text, is_space, text_Eq, text_eq}
use xcron.Base.Lists.{All, length, is_empty, All-append}
use Prim.Native.Nat.{ℕ, zero, suc}
use mathlib.Core.Path.{◌≡◌, refl, ap, ◌∙◌, sym}
use mathlib.Core.Logic.{◌≢◌, inl, inr}
use mathlib.Core.Bool.{Bool, true, false, not, ◌&&◌, ◌||◌}
use mathlib.Core.Option.{Option, none, some}
use mathlib.Core.List.{List, [], ◌∷◌, ◌++◌, append-nil, append_assoc}
use native.Mathlib.Omega.{arith}

-- The characters at which `splitlines` ends a line.
unfoldable pub is_line_break : ℕ → Bool
is_line_break c =
    (leb 10 c && leb c 13)
    || (leb 28 c && leb c 30)
    || nat_eq c 133
    || nat_eq c 8232
    || nat_eq c 8233

abbrev pub cons_head : ℕ → List Text → List Text
cons_head c [] = (c ∷ []) ∷ []
cons_head c (l ∷ ls) = (c ∷ l) ∷ ls

-- The lines of the rest, where `after_cr` says that the character before was a CR: an LF that
-- follows it belongs to the same break.
unfoldable pub lines_after : Bool → Text → List Text
lines_after after_cr [] = []
lines_after after_cr (c ∷ s) =
    let rest = lines_after (nat_eq c 13) s in
    if after_cr && nat_eq c 10
    then rest
    else if is_line_break c
    then [] ∷ rest
    else cons_head c rest

unfoldable pub splitlines : Text → List Text
unfolding lines_after
splitlines s = lines_after false s

abbrev pub lf : ℕ
lf = 10

-- `"\n".join(lines)`
unfoldable pub join_lines : List Text → Text
join_lines [] = []
join_lines (l ∷ []) = l
join_lines (l ∷ m ∷ ls) = l ++ lf ∷ join_lines (m ∷ ls)

abbrev strip_cons : ℕ → Text → Text
strip_cons c [] = if is_space c then [] else c ∷ []
strip_cons c (d ∷ r) = c ∷ d ∷ r

-- `s.rstrip()`
unfoldable pub rstrip : Text → Text
unfolding is_space
rstrip [] = []
rstrip (c ∷ s) = strip_cons c (rstrip s)

abbrev strip_lf_cons : ℕ → Text → Text
strip_lf_cons c [] = if nat_eq c lf then [] else c ∷ []
strip_lf_cons c (d ∷ r) = c ∷ d ∷ r

-- `s.rstrip("\n")`
unfoldable pub rstrip_lf : Text → Text
rstrip_lf [] = []
rstrip_lf (c ∷ s) = strip_lf_cons c (rstrip_lf s)

unfoldable pub lstrip : Text → Text
unfolding is_space
lstrip [] = []
lstrip (c ∷ s) = let rest = lstrip s in if is_space c then rest else c ∷ s

-- The first word of a text, and what follows it.
unfoldable pub take_word : Text → Text
unfolding is_space
take_word [] = []
take_word (c ∷ s) = let rest = take_word s in if is_space c then [] else c ∷ rest

unfoldable pub drop_word : Text → Text
unfolding is_space
drop_word [] = []
drop_word (c ∷ s) = let rest = drop_word s in if is_space c then c ∷ s else rest

-- `s.split(maxsplit=n)`
unfoldable pub split_max : ℕ → Text → List Text
split_max zero s = let r = lstrip s in if is_empty r then [] else r ∷ []
split_max (suc n) s =
    let r = lstrip s in
    let rest = split_max n (drop_word r) in if is_empty r then [] else take_word r ∷ rest

-- `s.split()`: a text has no more words than characters.
unfoldable pub split : Text → List Text
split s = split_max (length s) s
