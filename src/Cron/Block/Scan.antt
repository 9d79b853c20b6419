-- ===== src/Cron/Block/Scan.antt =====
-- Where `scan` finds a block, and what `replace_lines` makes of it.
use xcron.Base.{
  Bool, true, false, ◌&&◌, if◌then◌else◌, ℕ, suc, ◌+◌, ◌≡◌, refl, ap, ◌∙◌, inl, inr, Option, none,
  some, List, [], ◌∷◌, ◌++◌, Text, starts_with, length, All, arith, Bool-cases,
}
use xcron.Cron.Block.{Found, is_some, scan, take, drop}

module _ (begin end : Text) where
  -- Lines that the scan reads to their end: no end marker stands behind a begin marker.
  abbrev pub start_after : ℕ → Option ℕ → List Text → Option ℕ
  start_after index start lines = (scan begin end index start lines).start

  abbrev pub Runs : ℕ → Option ℕ → List Text → Type 0
  Runs index start lines = (scan begin end index start lines).stop ≡ none

  abbrev pub next_start : ℕ → Option ℕ → Text → Option ℕ
  next_start index start line = if starts_with line begin then some index else start

  abbrev pub stops_at : ℕ → Option ℕ → Text → Bool
  stops_at index start line = is_some (next_start index start line) && starts_with line end

  pub scan-cons :
      (x : Text) (xs : List Text) (index : ℕ) (start : Option ℕ)
      → stops_at index start x ≡ false
      → scan begin end index start (x ∷ xs)
        ≡ scan begin end (index + 1) (next_start index start x) xs
  unfolding scan
  scan-cons x xs index start e = rw e

  pub scan-stop :
      (x : Text) (xs : List Text) (index : ℕ) (start : Option ℕ)
      → stops_at index start x ≡ true
      → scan begin end index start (x ∷ xs)
        ≡ record { start = next_start index start x; stop = some index }
  unfolding scan
  scan-stop x xs index start e = rw e

  pub scan-one :
      (x : Text) (index : ℕ) (start : Option ℕ)
      → stops_at index start x ≡ false
      → scan begin end index start (x ∷ [])
        ≡ record { start = next_start index start x; stop = none }
  unfolding scan
  scan-one x index start e = rw e

  pub stops_at-of_Runs :
      (x : Text) (xs : List Text) (index : ℕ) (start : Option ℕ)
      → Runs index start (x ∷ xs)
      → stops_at index start x ≡ false
  unfolding scan
  stops_at-of_Runs x xs index start h = elim (Bool-cases (stops_at index start x)) [
    | inl e ↦ absurd (cc (rw e at h))
    | inr e ↦ e
  ]

  -- The scan of a text that it runs through goes on with what follows.
  pub scan-append :
      (xs ys : List Text) (index : ℕ) (start : Option ℕ)
      → Runs index start xs
      → scan begin end index start (xs ++ ys)
        ≡ scan begin end (index + length xs) (start_after index start xs) ys
  scan-append [] ys index start h = unfold scan in ap (λ n. scan begin end n start ys) (omega arith)
  scan-append (x ∷ xs) ys index start h =
      let e = stops_at-of_Runs x xs index start h in
      let here = scan-cons x xs index start e in
      let count : index + 1 + length xs ≡ index + length (x ∷ xs) = omega arith in
      cc (
        scan-cons x (xs ++ ys) index start e,
        scan-append xs ys (index + 1) (next_start index start x)
            (cc (ap (λ (f : Found). f.stop) here)),
        ap (λ (f : Found). f.start) here,
        count,
      )

  -- A line that is no marker.
  pub record IsPlain (line : Text) : Type 0 where
    pub no_begin : starts_with line begin ≡ false
    pub no_end : starts_with line end ≡ false

  pub record IsBegin (line : Text) : Type 0 where
    pub begins : starts_with line begin ≡ true
    pub ends_not : starts_with line end ≡ false

  pub record IsEnd (line : Text) : Type 0 where
    pub ends : starts_with line end ≡ true
    pub begins_not : starts_with line begin ≡ false

  pub Runs-of_no_begin :
      (lines : List Text) (index : ℕ)
      → All (λ l. starts_with l begin ≡ false) lines
      → Runs index none lines
  unfolding scan
  Runs-of_no_begin [] index h = refl
  Runs-of_no_begin (l ∷ ls) index h = rw h.0 (Runs-of_no_begin ls (index + 1) h.1)

  scan-body :
      (body : List Text) (e : Text) (rest : List Text) (index first : ℕ)
      → All IsPlain body
      → IsEnd e
      → scan begin end index (some first) (body ++ e ∷ rest)
        ≡ record { start = some first; stop = some (index + length body) }
  unfolding scan
  scan-body [] e rest index first h k = ground (arith, k.ends, k.begins_not)
  scan-body (l ∷ ls) e rest index first h k =
      rw (h.0.no_begin, h.0.no_end)
        (scan-body ls e rest (index + 1) first h.1 k
          ∙ ap (λ n. record { start = some first; stop = some n }) (omega arith))

  pub scan-block :
      (b : Text) (body : List Text) (e : Text) (rest : List Text) (index : ℕ) (start : Option ℕ)
      → IsBegin b
      → All IsPlain body
      → IsEnd e
      → scan begin end index start (b ∷ body ++ e ∷ rest)
        ≡ record { start = some index; stop = some (index + suc (length body)) }
  unfolding scan
  scan-block b body e rest index start hb h k =
      rw (hb.begins, hb.ends_not)
        (scan-body body e rest (index + 1) index h k
          ∙ ap (λ n. record { start = some index; stop = some n }) (omega arith))

module _ {ℓ} {A : Type ℓ} where
  pub take-length : (xs ys : List A) → take (length xs) (xs ++ ys) ≡ xs
  take-length [] ys = refl
  take-length (x ∷ xs) ys = ap (λ r. x ∷ r) (take-length xs ys)

  pub drop-length : (xs : List A) (y : A) (ys : List A) → drop (suc (length xs)) (xs ++ y ∷ ys) ≡ ys
  drop-length [] y ys = refl
  drop-length (x ∷ xs) y ys = drop-length xs y ys
