-- ===== src/Launchd/Calendar/Within.antt =====
-- The values of a field whose numbers lie within the bounds of the field.
use xcron.Base.{
  Bool, true, ◌&&◌, leb, ℕ, ◌≡◌, ◌≤◌, ◌∙◌, sym, inl, inr, some, List, [], ◌∷◌, All, any, arith, ok,
  Bool-cases,
}
use xcron.Launchd.Calendar.{Bounds, parse_calendar_field, holds}
use xcron.Launchd.Calendar.Fields.{
  Part, number, span, every_step, step_from, step_span, IsStepped, lets, print_field,
  parse_calendar_field-print,
}

module _ (bounds : Bounds) where
  abbrev within : ℕ → Bool
  within v = leb bounds.least v && leb v bounds.most

  -- The first and the last number of a part lie within the bounds.
  abbrev pub IsWithin : Part → Type 0
  IsWithin (number n) = within n ≡ true
  IsWithin (span lo hi) = (within lo ≡ true) × (within hi ≡ true)
  IsWithin (every_step step) = Unit
  IsWithin (step_from lo step) = within lo ≡ true
  IsWithin (step_span lo hi step) = (within lo ≡ true) × (within hi ≡ true)

  lets-within : (p : Part) (v : ℕ) → IsWithin p → lets bounds v p ≡ true → within v ≡ true
  lets-within (number n) v h k = ground arith
  lets-within (span lo hi) v h k = ground (arith, h.0, h.1)
  lets-within (every_step step) v h k = ground arith
  lets-within (step_from lo step) v h k = ground arith
  lets-within (step_span lo hi step) v h k = ground (arith, h.0, h.1)

  any-within :
      (parts : List Part) (v : ℕ)
      → All IsWithin parts
      → any (lets bounds v) parts ≡ true
      → within v ≡ true
  any-within [] v h k = absurd (cc)
  any-within (p ∷ parts) v h k = elim (Bool-cases (lets bounds v p)) [
    | inl e ↦ lets-within p v h.0 e
    | inr e ↦ any-within parts v h.1 (ground arith)
  ]

  -- Where each step is at least 1 and each number lies within the bounds of the field, so does
  -- each value that is read.
  pub parse_calendar_field-within :
      (p : Part) (parts : List Part)
      → All IsStepped (p ∷ parts)
      → All IsWithin (p ∷ parts)
      → (values : List ℕ) × (parse_calendar_field (print_field p parts) bounds ≡ ok (some values))
        × ((v : ℕ) → holds v values ≡ true → (bounds.least ≤ v) × (v ≤ bounds.most))
  parse_calendar_field-within p parts h k =
      let (values, e, held, sorted) = parse_calendar_field-print bounds p parts h in
      (
        values,
        e,
        λ v there.
            let here = any-within (p ∷ parts) v k (sym (held v) ∙ there) in
            (ground arith, ground arith),
      )
