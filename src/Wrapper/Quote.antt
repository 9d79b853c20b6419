-- ===== src/Wrapper/Quote.antt =====
-- `shell_quote` of wrapper.py, which is `shlex.quote`.
use xcron.Base.{Bool, ◌&&◌, ◌||◌, if◌then◌else◌, leb, nat_eq, ℕ, [], ◌∷◌, ◌++◌, Text, all}

-- A character of the class `[\w@%+=:,./-]`, where `\w` is ASCII.
unfoldable pub is_safe : ℕ → Bool
is_safe c =
    (leb b'a' c && leb c b'z')
    || (leb b'A' c && leb c b'Z')
    || (leb b'0' c && leb c b'9')
    || nat_eq c b'_'
    || nat_eq c b'@'
    || nat_eq c b'%'
    || nat_eq c b'+'
    || nat_eq c b'='
    || nat_eq c b':'
    || nat_eq c b','
    || nat_eq c b'.'
    || nat_eq c b'/'
    || nat_eq c b'-'

abbrev pub quote : ℕ
quote = 39

abbrev pub double_quote : ℕ
double_quote = 34

-- `s.replace("'", "'\"'\"'")`
unfoldable pub escape : Text → Text
escape [] = []
escape (c ∷ s) =
    let rest = escape s in
    if nat_eq c quote then quote ∷ double_quote ∷ quote ∷ double_quote ∷ quote ∷ rest else c ∷ rest

unfoldable pub shell_quote : Text → Text
shell_quote [] = quote ∷ quote ∷ []
shell_quote (c ∷ s) = if all is_safe (c ∷ s) then c ∷ s else quote ∷ (escape (c ∷ s) ++ quote ∷ [])
