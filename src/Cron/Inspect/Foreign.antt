-- ===== src/Cron/Inspect/Foreign.antt =====
-- The markers are matched by `startswith`: a project whose id begins with the id of another is
-- taken for it.
use xcron.Base.{
  true, false, ◌≡◌, refl, ap, ◌∙◌, sym, none, List, [], ◌++◌, append_assoc, Text, codes,
  starts_with, starts_with-append, All, splitlines,
}
use xcron.Cron.Block.{
  begin_marker, end_marker, begin_line, begin_marker_prefix, end_marker_prefix, replace_lines,
  print_lines, replace_project_block,
}
use xcron.Cron.Block.Scan.{Runs-of_no_begin}
use xcron.Cron.Block.Replace.{IsBlock, replace_lines-block}
use xcron.Cron.Inspect.Lines.{end_begins_not}
use xcron.Cron.Inspect.RoundTrip.{Entry, IsReadable, entries_lines, block_lines}
use xcron.Cron.Inspect.Blocks.{entries_lines-IsPlain}

module _ (project_id suffix : Text) where
  abbrev foreign : Text
  foreign = project_id ++ suffix

  foreign_begin-starts : starts_with (begin_line foreign) (begin_marker project_id) ≡ true
  foreign_begin-starts =
      ap (λ l. starts_with (l ++ codes " backend=cron") (begin_marker project_id))
        (sym (append_assoc begin_marker_prefix project_id suffix))
      ∙ ap (λ l. starts_with l (begin_marker project_id))
          (append_assoc (begin_marker project_id) suffix (codes " backend=cron"))
      ∙ starts_with-append (begin_marker project_id) (suffix ++ codes " backend=cron")

  foreign_end-starts : starts_with (end_marker foreign) (end_marker project_id) ≡ true
  foreign_end-starts =
      ap (λ l. starts_with l (end_marker project_id))
        (sym (append_assoc end_marker_prefix project_id suffix))
      ∙ starts_with-append (end_marker project_id) suffix

  foreign_begin-ends_not : starts_with (begin_line foreign) (end_marker project_id) ≡ false
  unfolding starts_with codes
  foreign_begin-ends_not = refl

  foreign-IsBlock :
      (es : List Entry) → All IsReadable es → IsBlock project_id (block_lines foreign es)
  foreign-IsBlock es h = record {
    first = begin_line foreign;
    body = entries_lines es;
    last = end_marker foreign;
    shape = refl;
    begins = record { begins = foreign_begin-starts; ends_not = foreign_begin-ends_not };
    plain = entries_lines-IsPlain project_id es h;
    ends = record { ends = foreign_end-starts; begins_not = end_begins_not project_id foreign };
  }

  -- Taking the block of a project out of a crontab takes out the block of another project, when
  -- the other id begins with the id of this one and its block stands first: the lines around that
  -- block are all that is left.
  pub replace_project_block-foreign :
      (content : Text) (before after : List Text) (es : List Entry)
      → splitlines content ≡ before ++ (block_lines foreign es ++ after)
      → All (λ l. starts_with l (begin_marker project_id) ≡ false) before
      → All IsReadable es
      → replace_project_block content project_id none ≡ print_lines (before ++ after)
  unfolding replace_project_block
  replace_project_block-foreign content before after es e free h =
      ap (λ l. print_lines (replace_lines l project_id [])) e
      ∙ ap print_lines (
          replace_lines-block project_id before (block_lines foreign es) after []
            (Runs-of_no_begin (begin_marker project_id) (end_marker project_id) before 0 free)
            (foreign-IsBlock es h))
