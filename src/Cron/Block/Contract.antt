-- ===== src/Cron/Block/Contract.antt =====
-- What `replace_project_block` promises: it touches the project's own block and nothing else, and
-- doing it twice is doing it once.
use xcron.Base.{
  ◌≡◌, ◌⊎◌, ◌∷◌, ap, ◌∙◌, sym, some, List, [], ◌++◌, append-nil, Text, All, All-append,
  All-append_left, All-append_right, splitlines,
}
use xcron.Base.Lines.Splitting.{Breakless, unlines, splitlines-unlines, splitlines-Breakless}
use xcron.Base.Lines.Trimming.{trim_lines, trim_lines-trim_lines, trim_lines-Breakless}
use xcron.Cron.Block.{replace_lines, print_lines, replace_project_block, separate}
use xcron.Cron.Block.Replace.{IsBlock, RunsThrough, replace_lines-block, replace_lines-absent}
use xcron.Cron.Block.Laws.{
  IsManaged, around, print_lines-block, replacement_lines-block, block-Breakless, is_empty-block,
  separate-Breakless, separate-last,
}

module _ (project_id : Text) (block : List Text) (managed : IsManaged project_id block) where
  replace_project_block-eq :
      (content : Text)
      → replace_project_block content project_id (some (unlines block))
        ≡ print_lines (replace_lines (splitlines content) project_id block)
  unfolding replace_project_block
  replace_project_block-eq content =
      ap (λ r. print_lines (replace_lines (splitlines content) project_id r))
        (replacement_lines-block project_id block managed)

  -- The lines of a text that is written around the block.
  splitlines-written :
      (before after : List Text)
      → All Breakless before
      → All Breakless after
      → splitlines (unlines (before ++ (block ++ trim_lines after)))
        ≡ before ++ (block ++ trim_lines after)
  splitlines-written before after h k = splitlines-unlines _ (
      All-append Breakless before _ h (
        All-append Breakless block _ (block-Breakless project_id block managed)
          (trim_lines-Breakless after k)))

  -- Putting a block into a crontab that has it already changes no character.
  pub replace_project_block-idempotent :
      (content : Text)
      → replace_project_block
          (replace_project_block content project_id (some (unlines block)))
          project_id
          (some (unlines block))
        ≡ replace_project_block content project_id (some (unlines block))
  replace_project_block-idempotent content =
      let a = around project_id block managed (splitlines content) in
      let lines_fine = splitlines-Breakless content in
      let before_fine = a.before_breakless lines_fine in
      let after_fine = a.after_breakless lines_fine in
      let once =
        replace_project_block-eq content
        ∙ ap print_lines a.placed
        ∙ print_lines-block project_id block managed a.before a.after in
      ap (λ t. replace_project_block t project_id (some (unlines block))) once
      ∙ replace_project_block-eq (unlines (a.before ++ (block ++ trim_lines a.after)))
      ∙ ap (λ l. print_lines (replace_lines l project_id block))
          (splitlines-written a.before a.after before_fine after_fine)
      ∙ ap print_lines (
          replace_lines-block project_id a.before block (trim_lines a.after) block a.runs
            managed.block_of)
      ∙ print_lines-block project_id block managed a.before (trim_lines a.after)
      ∙ ap (λ t. unlines (a.before ++ (block ++ t))) (trim_lines-trim_lines a.after)
      ∙ sym once

  -- In a crontab that has a block of the project, behind lines without one, the block is replaced,
  -- and the lines before and after it stay, but for blanks at the end of the text.
  pub splitlines-replace_block :
      (content : Text) (before old after : List Text)
      → splitlines content ≡ before ++ (old ++ after)
      → RunsThrough project_id before
      → IsBlock project_id old
      → splitlines (replace_project_block content project_id (some (unlines block)))
        ≡ before ++ (block ++ trim_lines after)
  splitlines-replace_block content before old after e runs b =
      let fine : All Breakless (before ++ (old ++ after)) =
        rw e at (splitlines-Breakless content) in
      ap splitlines (
        replace_project_block-eq content
        ∙ ap (λ l. print_lines (replace_lines l project_id block)) e
        ∙ ap print_lines (replace_lines-block project_id before old after block runs b)
        ∙ print_lines-block project_id block managed before after)
      ∙ splitlines-written before after (All-append_left Breakless before _ fine)
          (All-append_right Breakless old after (All-append_right Breakless before _ fine))

  pub splitlines-separated :
      (content : Text)
      → RunsThrough project_id (splitlines content)
      → splitlines (replace_project_block content project_id (some (unlines block)))
        ≡ separate (splitlines content) ++ block
  splitlines-separated content runs =
      let lines = splitlines content in
      let placed : replace_lines lines project_id block ≡ separate lines ++ (block ++ []) =
        replace_lines-absent project_id lines block runs
        ∙ rw (is_empty-block project_id block managed, append-nil) in
      ap splitlines (
        replace_project_block-eq content
        ∙ ap print_lines placed
        ∙ print_lines-block project_id block managed (separate lines) [])
      ∙ splitlines-written (separate lines) []
          (separate-Breakless lines (splitlines-Breakless content)) tt
      ∙ ap (λ l. separate lines ++ l) (unfold trim_lines in append-nil block)

  -- In a crontab that has no block of the project, the block goes to the end and all lines stay:
  -- without lines the block is all there is; behind a last line that is empty the block follows at
  -- once; behind another last line it follows after one empty line.
  pub splitlines-add_block :
      (content : Text)
      → RunsThrough project_id (splitlines content)
      → ((splitlines content ≡ [])
          × (splitlines (replace_project_block content project_id (some (unlines block))) ≡ block))
        ⊎ ((init : List Text) × (splitlines content ≡ init ++ [] ∷ [])
            × (splitlines (replace_project_block content project_id (some (unlines block)))
                ≡ splitlines content ++ block))
        ⊎ ((init : List Text) × (last : Text) × (splitlines content ≡ init ++ last ∷ [])
            × ¬ (last ≡ [])
            × (splitlines (replace_project_block content project_id (some (unlines block)))
                ≡ splitlines content ++ [] ∷ block))
  splitlines-add_block content runs =
      rw (splitlines-separated content runs) (separate-last (splitlines content) block)
