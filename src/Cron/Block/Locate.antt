-- ===== src/Cron/Block/Locate.antt =====
-- Any text either has no block of the project, or its first block stands behind lines that the scan
-- runs through.
use xcron.Base.{
  true, false, ℕ, ◌+◌, ◌≡◌, refl, ap, ◌∙◌, ◌⊎◌, inl, inr, Option, none, some, List, [], ◌∷◌, ◌++◌,
  append_assoc, append-nil, Text, starts_with, length, arith, Bool-cases, Option-cases,
}
use xcron.Cron.Block.{Found, scan, take}
use xcron.Cron.Block.Scan.{
  Runs, start_after, next_start, stops_at, scan-append, take-length, scan-stop, scan-one,
}

module _ (begin end : Text) where
  -- What the scan of all lines comes to.
  pub record Block (lines : List Text) : Type 0 where
    pub first : ℕ
    pub last : ℕ
    pub found : scan begin end 0 none lines ≡ record { start = some first; stop = some last }
    pub before_runs : Runs begin end 0 none (take first lines)

  abbrev pub Located : List Text → Type 0
  Located lines = Runs begin end 0 none lines ⊎ Block lines

  -- The scan has read `seen` and is about to read `rest`.
  record Progress (seen rest : List Text) (start : Option ℕ) : Type 0 where
    runs : Runs begin end 0 none seen
    started : start_after begin end 0 none seen ≡ start
    start_runs : (k : ℕ) → start ≡ some k → Runs begin end 0 none (take k (seen ++ rest))

  scan-rest :
      (seen rest : List Text) (start : Option ℕ)
      → Runs begin end 0 none seen
      → start_after begin end 0 none seen ≡ start
      → scan begin end 0 none (seen ++ rest) ≡ scan begin end (length seen) start rest
  scan-rest seen rest start runs started =
      let count : 0 + length seen ≡ length seen = omega arith in
      scan-append begin end seen rest 0 none runs
      ∙ ap (λ n. scan begin end n (start_after begin end 0 none seen) rest) count
      ∙ ap (λ s. scan begin end (length seen) s rest) started

  stopped :
      (x : Text) (seen xs : List Text) (start : Option ℕ)
      → Progress seen (x ∷ xs) start
      → stops_at begin end (length seen) start x ≡ true
      → Block (seen ++ x ∷ xs)
  stopped x seen xs start p e =
      let found =
        scan-rest seen (x ∷ xs) start p.runs p.started
        ∙ scan-stop begin end x xs (length seen) start e in
      elim (Bool-cases (starts_with x begin)) [
        | inl b ↦ record {
          first = length seen;
          last = length seen;
          found = rw b at found;
          before_runs = rw (take-length seen (x ∷ xs)) p.runs;
        }
        | inr b ↦ elim (Option-cases start) [
          | inl none_yet ↦ absurd (cc (rw (b, none_yet) at e))
          | inr (k, set) ↦ record {
            first = k;
            last = length seen;
            found = rw (b, set) at found;
            before_runs = p.start_runs k set;
          }
        ]
      ]

  step :
      (x : Text) (seen xs : List Text) (start : Option ℕ)
      → Progress seen (x ∷ xs) start
      → stops_at begin end (length seen) start x ≡ false
      → Progress (seen ++ x ∷ []) xs (next_start begin end (length seen) start x)
  step x seen xs start p e =
      let one =
        scan-rest seen (x ∷ []) start p.runs p.started
        ∙ scan-one begin end x (length seen) start e in
      record {
        runs = ap (λ (f : Found). f.stop) one;
        started = ap (λ (f : Found). f.start) one;
        start_runs = λ k set. rw append_assoc (elim (Bool-cases (starts_with x begin)) [
          | inl b ↦
              let here : length seen ≡ k = ground arith in
              rw (← here, take-length seen (x ∷ xs)) p.runs
          | inr b ↦ p.start_runs k (rw b at set)
        ]);
      }

  locate_from :
      (rest seen : List Text) (start : Option ℕ) → Progress seen rest start → Located (seen ++ rest)
  locate_from [] seen start p = inl (rw append-nil p.runs)
  locate_from (x ∷ xs) seen start p = elim (Bool-cases (stops_at begin end (length seen) start x)) [
    | inl e ↦ inr (stopped x seen xs start p e)
    | inr e ↦ rw append_assoc at (
        locate_from xs (seen ++ x ∷ []) (next_start begin end (length seen) start x)
          (step x seen xs start p e))
  ]

  pub locate : (lines : List Text) → Located lines
  locate lines =
      locate_from lines [] none
        (unfold scan in record { runs = refl; started = refl; start_runs = λ k e. absurd (cc) })
