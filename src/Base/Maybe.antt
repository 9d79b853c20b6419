-- ===== src/Base/Maybe.antt =====
-- `a or b` on values that may be None.
use mathlib.Core.Option.{Option, none, some}
use mathlib.Core.List.{[], ◌∷◌}
use xcron.Base.Strings.{Text}

-- A path is never false, a text is where it is empty.
abbrev pub or_path : Option Text → Option Text → Option Text
or_path none b = b
or_path (some a) b = some a

abbrev pub or_text : Option Text → Option Text → Option Text
or_text none b = b
or_text (some []) b = b
or_text (some (c ∷ a)) b = some (c ∷ a)
