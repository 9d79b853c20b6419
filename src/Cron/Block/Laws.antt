-- ===== src/Cron/Block/Laws.antt =====
-- What `replace_project_block` does to the text of a crontab.
use xcron.Base.{
  false, ℕ, zero, suc, ◌+◌, ◌≡◌, refl, ap, ◌∙◌, sym, ◌⊎◌, inl, inr, Option, none, some, List, [],
  ◌∷◌, ◌++◌, append_assoc, append-nil, Text, codes, starts_with, is_empty, All, All-append,
}
use xcron.Base.Lines.Splitting.{Breakless, unlines}
use xcron.Base.Lines.Trimming.{trim_lines}
use xcron.Cron.Block.{
  Found, scan, take, drop, separate, replace_lines, print_lines, replacement_lines, begin_marker,
  end_marker,
}
use xcron.Cron.Block.Scan.{Runs, scan-append}
use xcron.Cron.Block.Replace.{IsBlock, RunsThrough, replace_lines-absent}
use xcron.Cron.Block.Locate.{locate}
use xcron.Cron.Block.Print.{IsSolid, print_lines-solid, replacement_lines-unlines}

-- A block that can be written and read back: no line of it has a break inside, and its last line
-- does not end in space.
pub record IsManaged (project_id : Text) (block : List Text) : Type 0 where
  pub block_of : IsBlock project_id block
  pub breakless : All Breakless (block_of.first ∷ block_of.body)
  pub solid : IsSolid block_of.last

module _ {ℓ κ} {A : Type ℓ} (P : A → Type κ) where
  All-take : (n : ℕ) (xs : List A) → All P xs → All P (take n xs)
  All-take zero xs h = tt
  All-take (suc n) [] h = tt
  All-take (suc n) (x ∷ xs) h = (h.0, All-take n xs h.1)

  All-drop : (n : ℕ) (xs : List A) → All P xs → All P (drop n xs)
  All-drop zero xs h = h
  All-drop (suc n) [] h = tt
  All-drop (suc n) (x ∷ xs) h = All-drop n xs h.1

pub separate-cases : (ls : List Text) → (separate ls ≡ ls) ⊎ (separate ls ≡ ls ++ [] ∷ [])
unfolding separate
separate-cases [] = inl refl
separate-cases ([] ∷ []) = inl refl
separate-cases ((c ∷ l) ∷ []) = inr refl
separate-cases (l ∷ m ∷ ls) = elim (separate-cases (m ∷ ls)) [
  | inl e ↦ inl (ap (λ r. l ∷ r) e)
  | inr e ↦ inr (ap (λ r. l ∷ r) e)
]

-- The lines of a crontab that has no block, and the same lines before a block that is added: there
-- are none, or the last one is blank, or a blank line goes between.
pub separate-last :
    (ls block : List Text)
    → ((ls ≡ []) × (separate ls ++ block ≡ block))
      ⊎ ((init : List Text) × (ls ≡ init ++ [] ∷ []) × (separate ls ++ block ≡ ls ++ block))
      ⊎ ((init : List Text) × (last : Text) × (ls ≡ init ++ last ∷ [])
          × ¬ (last ≡ [])
          × (separate ls ++ block ≡ ls ++ [] ∷ block))
unfolding separate
separate-last [] block = inl (refl, refl)
separate-last ([] ∷ []) block = inr (inl ([], refl, refl))
separate-last ((c ∷ l) ∷ []) block = inr (inr ([], c ∷ l, refl, λ e. cc, refl))
separate-last (l ∷ m ∷ ls) block = elim (separate-last (m ∷ ls) block) [
  | inl (e, _) ↦ absurd (cc)
  | inr (inl (init, e, f)) ↦ inr (inl (l ∷ init, ap (λ r. l ∷ r) e, ap (λ r. l ∷ r) f))
  | inr (inr (init, last, e, solid, f)) ↦
      inr (inr (l ∷ init, last, ap (λ r. l ∷ r) e, solid, ap (λ r. l ∷ r) f))
]

pub separate-Breakless : (ls : List Text) → All Breakless ls → All Breakless (separate ls)
separate-Breakless ls h = elim (separate-cases ls) [
  | inl e ↦ rw e h
  | inr e ↦ rw e (All-append Breakless ls ([] ∷ []) h (tt, tt))
]

module _ (project_id : Text) where
  blank_lines-Runs :
      (index : ℕ) (start : Option ℕ)
      → Runs (begin_marker project_id) (end_marker project_id) index start ([] ∷ [])
  unfolding scan starts_with codes
  blank_lines-Runs index none = refl
  blank_lines-Runs index (some k) = refl

  Runs-separate :
      (ls : List Text) → RunsThrough project_id ls → RunsThrough project_id (separate ls)
  Runs-separate ls h = elim (separate-cases ls) [
    | inl e ↦ rw e h
    | inr e ↦ rw e (
        ap (λ (f : Found). f.stop)
          (scan-append (begin_marker project_id) (end_marker project_id) ls ([] ∷ []) 0 none h)
        ∙ blank_lines-Runs _ _)
  ]

  module _ (block : List Text) (managed : IsManaged project_id block) where
    open managed use {block_of, breakless, solid}

    regroup :
        (before after : List Text)
        → before ++ (block ++ after)
          ≡ (before ++ block_of.first ∷ block_of.body) ++ block_of.last ∷ after
    regroup before after =
        ap (λ l. before ++ (l ++ after)) block_of.shape
        ∙ ap (λ l. before ++ block_of.first ∷ l)
            (append_assoc block_of.body (block_of.last ∷ []) after)
        ∙ sym (append_assoc before (block_of.first ∷ block_of.body) (block_of.last ∷ after))

    -- Written out with a block in it, a crontab keeps all lines up to the end of the block.
    pub print_lines-block :
        (before after : List Text)
        → print_lines (before ++ (block ++ after)) ≡ unlines (before ++ (block ++ trim_lines after))
    print_lines-block before after =
        ap print_lines (regroup before after)
        ∙ print_lines-solid (before ++ block_of.first ∷ block_of.body) block_of.last after solid
        ∙ sym (ap unlines (regroup before (trim_lines after)))

    pub replacement_lines-block : replacement_lines (some (unlines block)) ≡ block
    replacement_lines-block =
        ap (λ l. replacement_lines (some (unlines l))) block_of.shape
        ∙ replacement_lines-unlines (block_of.first ∷ block_of.body) block_of.last breakless solid
        ∙ sym block_of.shape

    pub block-Breakless : All Breakless block
    block-Breakless = rw block_of.shape (
        All-append Breakless (block_of.first ∷ block_of.body) (block_of.last ∷ []) breakless
          (solid.breakless, tt))

    pub is_empty-block : is_empty block ≡ false
    is_empty-block = rw block_of.shape

    -- The lines around the place of the block, whether it was there or not.
    pub record Around (lines : List Text) : Type 0 where
      pub before : List Text
      pub after : List Text
      pub runs : RunsThrough project_id before
      pub placed : replace_lines lines project_id block ≡ before ++ (block ++ after)
      pub before_breakless : All Breakless lines → All Breakless before
      pub after_breakless : All Breakless lines → All Breakless after

    pub around : (lines : List Text) → Around lines
    around lines = elim (locate (begin_marker project_id) (end_marker project_id) lines) [
      | inl runs ↦ record {
        before = separate lines;
        after = [];
        runs = Runs-separate lines runs;
        placed =
            replace_lines-absent project_id lines block runs ∙ rw (is_empty-block, append-nil) refl;
        before_breakless = separate-Breakless lines;
        after_breakless = λ h. tt;
      }
      | inr b ↦ record {
        before = take b.first lines;
        after = drop (b.last + 1) lines;
        runs = b.before_runs;
        placed = unfold replace_lines in rw b.found;
        before_breakless = All-take Breakless b.first lines;
        after_breakless = All-drop Breakless (b.last + 1) lines;
      }
    ]
