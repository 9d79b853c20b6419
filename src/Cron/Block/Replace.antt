-- ===== src/Cron/Block/Replace.antt =====
-- `replace_lines` on any text: either it finds a block, or it appends.
use xcron.Base.{
  if◌then◌else◌, ℕ, suc, ◌+◌, ◌≡◌, refl, ap, ◌∙◌, sym, Option, none, some, List, [], ◌∷◌, ◌++◌,
  append_assoc, Text, is_empty, length, length-append, All, arith,
}
use xcron.Cron.Block.{drop, splice, separate, replace_lines, begin_marker, end_marker}
use xcron.Cron.Block.Scan.{
  Runs, start_after, scan-append, IsPlain, IsBegin, IsEnd, scan-block, take-length, drop-length,
}

-- A block of a project: its begin line, lines that are no markers of it, its end line.
pub record IsBlock (project_id : Text) (block : List Text) : Type 0 where
  pub first : Text
  pub body : List Text
  pub last : Text
  pub shape : block ≡ first ∷ body ++ last ∷ []
  pub begins : IsBegin (begin_marker project_id) (end_marker project_id) first
  pub plain : All (IsPlain (begin_marker project_id) (end_marker project_id)) body
  pub ends : IsEnd (begin_marker project_id) (end_marker project_id) last

splice-block :
    (before : List Text) (first : Text) (body : List Text) (last : Text)
    (after replacement : List Text)
    → splice
        (some (0 + length before))
        (some (0 + length before + suc (length body)))
        (before ++ first ∷ (body ++ last ∷ after))
        replacement
      ≡ before ++ (replacement ++ after)
splice-block before first body last after replacement =
    let count : 0 + length before ≡ length before = omega arith in
    let passed : length before + suc (length body) + 1 ≡ suc (length (before ++ first ∷ body)) =
      omega (arith, length-append before (first ∷ body)) in
    let regroup = append_assoc before (first ∷ body) (last ∷ after) in
    rw (count, take-length before (first ∷ (body ++ last ∷ after)))
      (ap (λ r. before ++ (replacement ++ r))
        (ap (λ n. drop n (before ++ first ∷ (body ++ last ∷ after))) passed
          ∙ ap (drop (suc (length (before ++ first ∷ body)))) (sym regroup)
          ∙ drop-length (before ++ first ∷ body) last after))

splice-none :
    (start stop : Option ℕ) (lines replacement : List Text)
    → stop ≡ none
    → splice start stop lines replacement
      ≡ (if is_empty replacement then lines else separate lines ++ replacement)
splice-none none stop lines replacement e = refl
splice-none (some first) none lines replacement e = refl
splice-none (some first) (some last) lines replacement e = cc

module _ (project_id : Text) where
  abbrev pub RunsThrough : List Text → Type 0
  RunsThrough = Runs (begin_marker project_id) (end_marker project_id) 0 none

  -- A block behind lines that hold none is replaced, and all other lines stay.
  pub replace_lines-block :
      (before block after replacement : List Text)
      → RunsThrough before
      → IsBlock project_id block
      → replace_lines (before ++ (block ++ after)) project_id replacement
        ≡ before ++ (replacement ++ after)
  unfolding replace_lines
  replace_lines-block before block after replacement runs b =
      let begin = begin_marker project_id in
      let end = end_marker project_id in
      let lines = b.first ∷ (b.body ++ b.last ∷ after) in
      let found =
        scan-append begin end before lines 0 none runs
        ∙ scan-block begin end b.first b.body b.last after _ _ b.begins b.plain b.ends in
      let regroup : block ++ after ≡ lines =
        ap (λ l. l ++ after) b.shape
        ∙ ap (λ l. b.first ∷ l) (append_assoc b.body (b.last ∷ []) after) in
      rw (regroup, found) (splice-block before b.first b.body b.last after replacement)

  -- Where no block is found, the replacement goes to the end, behind a blank line.
  pub replace_lines-absent :
      (lines replacement : List Text)
      → RunsThrough lines
      → replace_lines lines project_id replacement
        ≡ (if is_empty replacement then lines else separate lines ++ replacement)
  unfolding replace_lines
  replace_lines-absent lines replacement runs =
      splice-none (start_after (begin_marker project_id) (end_marker project_id) 0 none lines) _
        lines replacement runs
