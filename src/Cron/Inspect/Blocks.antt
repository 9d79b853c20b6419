-- ===== src/Cron/Inspect/Blocks.antt =====
-- The rendered block as a managed block: what `inspect_cron_project` reads out of a crontab that
-- `replace_project_block` has put it into.
use xcron.Base.{
  Bool, true, false, not, ℕ, ◌≡◌, refl, ap, ◌∙◌, sym, some, List, [], ◌∷◌, ◌++◌, map, append-nil,
  Text, codes, starts_with, starts_with-append, starts_with_self, is_space, all, All, All-append,
  All-imp, arith, List-cases, inl, inr, splitlines, is_line_break, rstrip, ok,
}
use xcron.Base.Lines.Splitting.{Breakless, unlines}
use xcron.Base.Lines.Trimming.{rstrip-append, trim_lines}
use xcron.Base.Lines.Words.{IsWord}
use xcron.Layout.{Pathlib}
use xcron.Cron.Block.{
  begin_marker, end_marker, begin_line, begin_marker_prefix, end_marker_prefix, disabled_marker,
  job_marker_prefix, space, metadata_line, entry_lines, job_lines, replace_project_block, separate,
  qualified_id_key, job_id_key, desired_hash_key, definition_hash_key,
}
use xcron.Cron.Block.Scan.{IsPlain, IsBegin, IsEnd}
use xcron.Cron.Block.Replace.{IsBlock}
use xcron.Cron.Block.Scan.{Runs-of_no_begin}
use xcron.Cron.Block.Print.{IsSolid}
use xcron.Cron.Block.Laws.{IsManaged, separate-cases}
use xcron.Cron.Block.Contract.{splitlines-replace_block, splitlines-separated}
use xcron.Cron.Inspect.{outside, read_lines}
use xcron.Cron.Inspect.Lines.{
  HasFields, entry_begins_not, entry_ends_not, disabled_begins_not, disabled_ends_not,
  metadata_begins_not, metadata_ends_not, end_begins_not, marker_begins_not, marker_ends_not,
}
use xcron.Cron.Inspect.RoundTrip.{
  Entry, IsReadable, lines_of, entries_lines, block_lines, inspection_of, read_lines-block,
}

space_breaks : (c : ℕ) → is_space c ≡ false → is_line_break c ≡ false
unfolding is_space is_line_break
space_breaks c h = ground arith

pub word-Breakless : (w : Text) → IsWord w → Breakless w
word-Breakless w h = All-imp _ _ w space_breaks h.solid

rstrip-solid : (w : Text) → All (λ c. is_space c ≡ false) w → rstrip w ≡ w
unfolding rstrip
rstrip-solid [] h = refl
rstrip-solid (c ∷ []) h = rw (rstrip, h.0)
rstrip-solid (c ∷ d ∷ w) h = rw (rstrip-solid (d ∷ w) h.1)

append-Breakless : (a b : Text) → Breakless a → Breakless b → Breakless (a ++ b)
append-Breakless = All-append (λ c. is_line_break c ≡ false)

pub Breakless-of : (s : Text) → all (λ c. not (is_line_break c)) s ≡ true → Breakless s
Breakless-of [] h = tt
Breakless-of (c ∷ s) h = (ground arith, Breakless-of s (ground arith))

keys-Breakless :
    Breakless job_marker_prefix
    × Breakless qualified_id_key
    × Breakless job_id_key
    × Breakless desired_hash_key
    × Breakless definition_hash_key
unfolding codes is_line_break
keys-Breakless = (
  Breakless-of job_marker_prefix refl,
  Breakless-of qualified_id_key refl,
  Breakless-of job_id_key refl,
  Breakless-of desired_hash_key refl,
  Breakless-of definition_hash_key refl,
)

schedule-Breakless : (s : Text) → HasFields s → Breakless s
unfolding is_line_break
schedule-Breakless s h = rw h.shape (
    append-Breakless h.minute _ (word-Breakless _ h.minute_word) (
      refl,
      append-Breakless h.hour _ (word-Breakless _ h.hour_word) (
        refl,
        append-Breakless h.day _ (word-Breakless _ h.day_word) (
          refl,
          append-Breakless h.month _ (word-Breakless _ h.month_word)
              (refl, word-Breakless _ h.weekday_word),
        ),
      ),
    ))

metadata-Breakless :
    (q j d f : Text) → IsWord q → IsWord j → IsWord d → IsWord f → Breakless (metadata_line q j d f)
unfolding metadata_line
metadata-Breakless q j d f hq hj hd hf =
    let (a, b, c, x, y) = keys-Breakless in
    append-Breakless _ _ a (
      append-Breakless _ _ b (
        append-Breakless q _ (word-Breakless q hq) (
          append-Breakless _ _ c (
            append-Breakless j _ (word-Breakless j hj) (
              append-Breakless _ _ x (
                append-Breakless d _ (word-Breakless d hd)
                  (append-Breakless _ _ y (word-Breakless f hf))))))))

marker-Breakless : Breakless disabled_marker
unfolding codes is_line_break
marker-Breakless = Breakless-of disabled_marker refl

module _ (e : Entry) (h : IsReadable e) where
  abbrev command : Text
  command = e.schedule ++ space ∷ e.wrapper_path

  command-Breakless : Breakless command
  unfolding is_line_break
  command-Breakless =
      append-Breakless e.schedule (space ∷ e.wrapper_path) (schedule-Breakless e.schedule h.fields)
        (refl, h.path_breakless)

  entry-Breakless : (on : Bool) → All Breakless (entry_lines on command)
  unfolding is_line_break
  entry-Breakless true = (command-Breakless, tt)
  entry-Breakless false = (marker-Breakless, ((refl, (refl, command-Breakless)), tt))

  lines_of-Breakless : All Breakless (lines_of e)
  unfolding job_lines
  lines_of-Breakless = (
    metadata-Breakless _ _ _ _ h.qualified_id_word h.job_id_word h.desired_hash_word
        h.definition_hash_word,
    entry-Breakless e.job.enabled,
  )

  command_shape : command ≡ h.first ∷ (h.others ++ space ∷ e.wrapper_path)
  command_shape = ap (λ t. t ++ space ∷ e.wrapper_path) h.schedule_shape

  entry-IsPlain :
      (project_id : Text) (on : Bool)
      → All (IsPlain (begin_marker project_id) (end_marker project_id)) (entry_lines on command)
  entry-IsPlain project_id true = rw command_shape (
    record {
      no_begin = entry_begins_not h.first _ h.leads project_id;
      no_end = entry_ends_not h.first _ h.leads project_id;
    },
    tt,
  )
  entry-IsPlain project_id false = (
    record { no_begin = marker_begins_not project_id; no_end = marker_ends_not project_id },
    rw command_shape (
      record {
        no_begin = disabled_begins_not h.first _ h.leads project_id;
        no_end = disabled_ends_not h.first _ h.leads project_id;
      },
      tt,
    ),
  )

  lines_of-IsPlain :
      (project_id : Text)
      → All (IsPlain (begin_marker project_id) (end_marker project_id)) (lines_of e)
  unfolding job_lines
  lines_of-IsPlain project_id = (
    record {
      no_begin = metadata_begins_not project_id _ _ _ _;
      no_end = metadata_ends_not project_id _ _ _ _;
    },
    entry-IsPlain project_id e.job.enabled,
  )

entries_lines-Breakless : (es : List Entry) → All IsReadable es → All Breakless (entries_lines es)
unfolding entries_lines
entries_lines-Breakless [] h = tt
entries_lines-Breakless (e ∷ es) h =
    All-append Breakless (lines_of e) _ (lines_of-Breakless e h.0) (entries_lines-Breakless es h.1)

separate-free :
    (project_id : Text) (ls : List Text)
    → All (λ l. starts_with l (begin_marker project_id) ≡ false) ls
    → All (λ l. starts_with l (begin_marker project_id) ≡ false) (separate ls)
unfolding starts_with codes
separate-free project_id ls h = elim (separate-cases ls) [
  | inl e ↦ rw e h
  | inr e ↦
      rw e (
        All-append (λ l. starts_with l (begin_marker project_id) ≡ false) ls ([] ∷ []) h (refl, tt))
]

module _ (project_id : Text) where
  abbrev Plain : Text → Type 0
  Plain = IsPlain (begin_marker project_id) (end_marker project_id)

  pub entries_lines-IsPlain : (es : List Entry) → All IsReadable es → All Plain (entries_lines es)
  unfolding entries_lines
  entries_lines-IsPlain [] h = tt
  entries_lines-IsPlain (e ∷ es) h =
      All-append Plain (lines_of e) _ (lines_of-IsPlain e h.0 project_id)
        (entries_lines-IsPlain es h.1)

  begin_line-IsBegin :
      IsBegin (begin_marker project_id) (end_marker project_id) (begin_line project_id)
  unfolding starts_with codes
  begin_line-IsBegin = record {
    begins = starts_with-append (begin_marker project_id) (codes " backend=cron");
    ends_not = refl;
  }

  end_marker-IsEnd : IsEnd (begin_marker project_id) (end_marker project_id) (end_marker project_id)
  end_marker-IsEnd = record {
    ends = starts_with_self (end_marker project_id);
    begins_not = end_begins_not project_id project_id;
  }

  module _ (word : IsWord project_id) where
    begin_line-Breakless : Breakless (begin_line project_id)
    unfolding codes is_line_break
    begin_line-Breakless =
        append-Breakless (begin_marker project_id) _
          (append-Breakless begin_marker_prefix _ (Breakless-of begin_marker_prefix refl)
            (word-Breakless project_id word))
          (Breakless-of (codes " backend=cron") refl)

    end_marker-stripped : rstrip (end_marker project_id) ≡ end_marker project_id
    end_marker-stripped = elim (List-cases project_id) [
      | inl e ↦ absurd (word.filled e)
      | inr (c, s, e) ↦
          rstrip-append end_marker_prefix project_id
          ∙ rw (rstrip-solid project_id word.solid) (rw e)
    ]

    end_marker-IsSolid : IsSolid (end_marker project_id)
    unfolding codes is_line_break
    end_marker-IsSolid = record {
      stripped = end_marker-stripped;
      filled = λ e. cc;
      breakless =
          append-Breakless end_marker_prefix _ (Breakless-of end_marker_prefix refl)
            (word-Breakless project_id word);
    }

    -- The lines that are rendered for readable entries are a managed block of the project.
    pub block_lines-IsManaged :
        (es : List Entry) → All IsReadable es → IsManaged project_id (block_lines project_id es)
    block_lines-IsManaged es h = record {
      block_of = record {
        first = begin_line project_id;
        body = entries_lines es;
        last = end_marker project_id;
        shape = refl;
        begins = begin_line-IsBegin;
        plain = entries_lines-IsPlain es h;
        ends = end_marker-IsEnd;
      };
      breakless = (begin_line-Breakless, entries_lines-Breakless es h);
      solid = end_marker-IsSolid;
    }

    module _ (paths : Pathlib) (artifact_path content : Text) (es : List Entry)
        (h : All IsReadable es) where
      abbrev written : Text
      written =
          replace_project_block content project_id (some (unlines (block_lines project_id es)))

      -- Read from the crontab that a rendered block has been put into in place of an old one, the
      -- inspections are those of the entries that it was rendered for.
      pub inspect-replaced :
          (before old after : List Text)
          → splitlines content ≡ before ++ (old ++ after)
          → All (λ l. starts_with l (begin_marker project_id) ≡ false) before
          → IsBlock project_id old
          → read_lines paths artifact_path project_id outside (splitlines written)
            ≡ ok (map (inspection_of paths artifact_path) es)
      inspect-replaced before old after e free b =
          ap (read_lines paths artifact_path project_id outside) (
            splitlines-replace_block project_id (block_lines project_id es)
              (block_lines-IsManaged es h) content before old after e
              (Runs-of_no_begin (begin_marker project_id) (end_marker project_id) before 0 free) b)
          ∙ read_lines-block paths artifact_path project_id before es (trim_lines after) free h

      -- The same where the crontab has no begin marker of the project yet.
      pub inspect-added :
          All (λ l. starts_with l (begin_marker project_id) ≡ false) (splitlines content)
          → read_lines paths artifact_path project_id outside (splitlines written)
            ≡ ok (map (inspection_of paths artifact_path) es)
      inspect-added free =
          ap (read_lines paths artifact_path project_id outside) (
            splitlines-separated project_id (block_lines project_id es) (block_lines-IsManaged es h)
              content (Runs-of_no_begin (begin_marker project_id) (end_marker project_id) _ 0 free)
            ∙ ap (λ l. separate (splitlines content) ++ l) (sym (append-nil _)))
          ∙ read_lines-block paths artifact_path project_id (separate (splitlines content)) es []
              (separate-free project_id (splitlines content) free) h
