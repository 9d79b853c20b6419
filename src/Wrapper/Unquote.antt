-- ===== src/Wrapper/Unquote.antt =====
-- How a POSIX shell reads one word of quoted text, and that it reads a quoted value as the value.
use xcron.Base.{
  Bool, true, false, ◌&&◌, ◌||◌, if◌then◌else◌, leb, nat_eq, ℕ, ◌≡◌, refl, ap, sym, nat_eq_iff,
  Option, none, some, [], ◌∷◌, ◌++◌, Text, all, arith, Bool-cases, inl, inr,
}
use xcron.Wrapper.Quote.{is_safe, quote, double_quote, escape, shell_quote}

-- Where the shell is: outside quotes, or inside single or double ones.
pub data Quoting : Type 0 where
  bare single double : Quoting

-- `| & ; < > ( ) $ ` \ * ? [ # ~ { } !`, space, tab and newline: outside quotes the shell does not
-- read them as themselves.
unfoldable pub is_special : ℕ → Bool
is_special c =
    nat_eq c 9
    || nat_eq c 10
    || (leb 32 c && leb c 36)
    || (leb 38 c && leb c 42)
    || nat_eq c 59
    || nat_eq c 60
    || nat_eq c 62
    || nat_eq c 63
    || nat_eq c 91
    || nat_eq c 92
    || nat_eq c 96
    || (leb 123 c && leb c 126)

-- `$`, `` ` `` and `\`, which double quotes do not quote
unfoldable pub expands : ℕ → Bool
expands c = nat_eq c 36 || nat_eq c 92 || nat_eq c 96

abbrev push : ℕ → Option Text → Option Text
push c none = none
push c (some s) = some (c ∷ s)

-- The word that a text is, if it is one word that holds no expansion.
unfoldable pub read_word : Quoting → Text → Option Text
read_word bare [] = some []
read_word bare (c ∷ s) =
    if nat_eq c quote
    then read_word single s
    else if nat_eq c double_quote
    then read_word double s
    else if is_special c
    then none
    else push c (read_word bare s)
read_word single [] = none
read_word single (c ∷ s) = if nat_eq c quote then read_word bare s else push c (read_word single s)
read_word double [] = none
read_word double (c ∷ s) =
    if nat_eq c double_quote
    then read_word bare s
    else if expands c
    then none
    else push c (read_word double s)

safe_solid :
    (c : ℕ)
    → is_safe c ≡ true
    → (nat_eq c quote ≡ false) × (nat_eq c double_quote ≡ false) × (is_special c ≡ false)
unfolding is_safe is_special
safe_solid c h = (ground arith, ground arith, ground arith)

all_head : (c : ℕ) (s : Text) → all is_safe (c ∷ s) ≡ true → is_safe c ≡ true
all_head c s h = ground arith

all_tail : (c : ℕ) (s : Text) → all is_safe (c ∷ s) ≡ true → all is_safe s ≡ true
all_tail c s h = ground arith

read_word-safe : (s : Text) → all is_safe s ≡ true → read_word bare s ≡ some s
unfolding read_word
read_word-safe [] h = refl
read_word-safe (c ∷ s) h =
    let (q, d, p) = safe_solid c (all_head c s h) in rw (q, d, p, read_word-safe s (all_tail c s h))

read_word-escape : (s : Text) → read_word single (escape s ++ quote ∷ []) ≡ some s
unfolding read_word escape expands
read_word-escape [] = refl
read_word-escape (c ∷ s) = elim (Bool-cases (nat_eq c quote)) [
  | inl e ↦ rw (e, read_word-escape s) (ap (λ q. some (q ∷ s)) (sym ((nat_eq_iff c quote).0 e)))
  | inr e ↦ rw (e, e, read_word-escape s)
]

-- The shell reads the quoted value as one word, which is the value.
pub read_word-shell_quote : (s : Text) → read_word bare (shell_quote s) ≡ some s
unfolding shell_quote read_word
read_word-shell_quote [] = refl
read_word-shell_quote (c ∷ s) = elim (Bool-cases (all is_safe (c ∷ s))) [
  | inl e ↦ rw e (read_word-safe (c ∷ s) e)
  | inr e ↦ rw e (read_word-escape (c ∷ s))
]
