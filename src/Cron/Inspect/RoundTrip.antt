-- ===== src/Cron/Inspect/RoundTrip.antt =====
-- Reading back the block that was rendered for some jobs.
use xcron.Base.{
  Bool, true, false, not, if◌then◌else◌, ℕ, ◌≡◌, ap, ◌∙◌, sym, Option, none, some, List, [], ◌∷◌,
  Bool-cases, inl, inr, ◌++◌, map, append_assoc, append-nil, Text, codes, text_Eq, text_eq_self,
  starts_with, starts_with-append, starts_with_self, is_space, All, Result, ok, ◌>>=◌,
}
use xcron.Base.Lines.Splitting.{Breakless}
use xcron.Base.Lines.Words.{IsWord}
use xcron.Contracts.{NormalizedJob}
use xcron.Planner.{NativeError}
use xcron.Layout.{Pathlib}
use xcron.Cron.Block.{
  begin_marker, end_marker, begin_line, disabled_marker, space, hash, metadata_line, job_lines,
}
use xcron.Cron.Inspect.{
  CronInspection, ReadState, outside, inspection, read_line, read_lines, read_body,
  split_cron_entry, Move, go, emit, stop,
}
use xcron.Cron.Inspect.Pattern.{Metadata, parse_metadata}
use xcron.Cron.Inspect.Lines.{
  is_lead, HasFields, split_cron_entry-line, parse_metadata-line, entry_begins_not, entry_ends_not,
  entry_no_metadata, entry_no_marker, disabled_begins_not, disabled_ends_not, disabled_no_metadata,
  disabled_no_marker, metadata_begins_not, metadata_ends_not, end_begins_not, marker_begins_not,
  marker_ends_not, marker_no_metadata,
}

-- What is written for one job.
pub record Entry : Type 0 where
  pub job : NormalizedJob
  pub desired_hash : Text
  pub definition_hash : Text
  pub schedule : Text
  pub wrapper_path : Text

abbrev pub lines_of : Entry → List Text
lines_of e = job_lines e.job e.desired_hash e.definition_hash e.schedule e.wrapper_path

-- The lines of all entries.
unfoldable pub entries_lines : List Entry → List Text
entries_lines [] = []
entries_lines (e ∷ es) = lines_of e ++ entries_lines es

-- The lines of `render_cron_block`.
abbrev pub block_lines : Text → List Entry → List Text
block_lines project_id es = begin_line project_id ∷ (entries_lines es ++ end_marker project_id ∷ [])

-- What the crontab format asks of an entry: ids and hashes are words, the schedule has five fields
-- and begins like a minute field, and the wrapper's path is a path that begins with no blank.
pub record IsReadable (e : Entry) : Type 0 where
  pub qualified_id_word : IsWord e.job.qualified_id
  pub job_id_word : IsWord e.job.job_id
  pub desired_hash_word : IsWord e.desired_hash
  pub definition_hash_word : IsWord e.definition_hash
  pub fields : HasFields e.schedule
  pub first : ℕ
  pub others : Text
  pub schedule_shape : e.schedule ≡ first ∷ others
  pub leads : is_lead first ≡ true
  pub path_first : ℕ
  pub path_others : Text
  pub path_shape : e.wrapper_path ≡ path_first ∷ path_others
  pub path_solid : is_space path_first ≡ false
  pub path_breakless : Breakless e.wrapper_path

module _ (paths : Pathlib) (artifact_path : Text) where
  abbrev metadata_of : Entry → Metadata
  metadata_of e = record {
    qualified_id = e.job.qualified_id;
    job_id = e.job.job_id;
    desired_hash = e.desired_hash;
    definition_hash = e.definition_hash;
  }

  -- The line that the command stands on.
  abbrev raw_line : Entry → Text
  raw_line e =
      let command = e.schedule ++ space ∷ e.wrapper_path in
      if e.job.enabled then command else hash ∷ space ∷ command

  abbrev pub inspection_of : Entry → CronInspection
  inspection_of e =
      inspection paths artifact_path (metadata_of e) (raw_line e) (not e.job.enabled) e.schedule
        e.wrapper_path

  module _ (project_id : Text) where
    abbrev read : ReadState → List Text → Result NativeError (List CronInspection)
    read = read_lines paths artifact_path project_id

    abbrev inside_with : Option Metadata → Bool → ReadState
    inside_with meta pending = record {
      inside = true;
      current_meta = meta;
      pending_disabled = pending;
    }

    abbrev line_read : ReadState → Text → Move
    line_read = read_line paths artifact_path project_id

    read_inside :
        (line : Text) (meta : Option Metadata) (pending : Bool)
        → starts_with line (begin_marker project_id) ≡ false
        → starts_with line (end_marker project_id) ≡ false
        → line_read (inside_with meta pending) line
          ≡ read_body paths artifact_path (inside_with meta pending) line (parse_metadata line)
    unfolding read_line
    read_inside line meta pending b e = rw (b, e)

    read_metadata :
        (e : Entry) (meta : Option Metadata) (pending : Bool)
        → IsReadable e
        → line_read
            (inside_with meta pending)
            (metadata_line e.job.qualified_id e.job.job_id e.desired_hash e.definition_hash)
          ≡ go (inside_with (some (metadata_of e)) false)
    read_metadata e meta pending h =
        read_inside _ meta pending (metadata_begins_not project_id _ _ _ _)
          (metadata_ends_not project_id _ _ _ _)
        ∙ rw (
            parse_metadata-line _ _ _ _ h.qualified_id_word h.job_id_word h.desired_hash_word
              h.definition_hash_word)

    read_marker :
        (meta : Option Metadata) (pending : Bool)
        → line_read (inside_with meta pending) disabled_marker ≡ go (inside_with meta true)
    read_marker meta pending =
        read_inside _ meta pending (marker_begins_not project_id) (marker_ends_not project_id)
        ∙ rw (marker_no_metadata, text_eq_self disabled_marker)

    module _ (c : ℕ) (s : Text) (lead : is_lead c ≡ true) (meta : Metadata)
        (schedule command : Text) (splits : split_cron_entry (c ∷ s) ≡ ok (schedule, command)) where
      read_enabled :
          line_read (inside_with (some meta) false) (c ∷ s)
          ≡ emit
              (inspection paths artifact_path meta (c ∷ s) false schedule command)
              (inside_with none false)
      read_enabled =
          read_inside (c ∷ s) (some meta) false (entry_begins_not c s lead project_id)
            (entry_ends_not c s lead project_id)
          ∙ rw (entry_no_metadata c s lead, entry_no_marker c s lead, splits)

      read_disabled :
          line_read (inside_with (some meta) true) (hash ∷ space ∷ c ∷ s)
          ≡ emit
              (inspection paths artifact_path meta (hash ∷ space ∷ c ∷ s) true schedule command)
              (inside_with none false)
      unfolding starts_with
      read_disabled =
          read_inside (hash ∷ space ∷ c ∷ s) (some meta) true
            (disabled_begins_not c s lead project_id) (disabled_ends_not c s lead project_id)
          ∙ rw (disabled_no_metadata c s lead, disabled_no_marker c s lead, splits)

    read-go :
        (state state' : ReadState) (line : Text) (lines : List Text)
        → line_read state line ≡ go state'
        → read state (line ∷ lines) ≡ read state' lines
    unfolding read_lines
    read-go state state' line lines e = rw (e, read_lines)

    read-emit :
        (state state' : ReadState) (line : Text) (lines : List Text) (i : CronInspection)
        → line_read state line ≡ emit i state'
        → read state (line ∷ lines) ≡ (read state' lines >>= λ r. ok (i ∷ r))
    unfolding read_lines
    read-emit state state' line lines i e = rw (e, read_lines)

    read-stop :
        (state : ReadState) (line : Text) (lines : List Text)
        → line_read state line ≡ stop
        → read state (line ∷ lines) ≡ ok []
    unfolding read_lines
    read-stop state line lines e = rw (e, read_lines)

    module _ (e : Entry) (h : IsReadable e) where
      command_shape :
          e.schedule ++ space ∷ e.wrapper_path ≡ h.first ∷ (h.others ++ space ∷ e.wrapper_path)
      command_shape = ap (λ t. t ++ space ∷ e.wrapper_path) h.schedule_shape

      command_splits :
          split_cron_entry (e.schedule ++ space ∷ e.wrapper_path) ≡ ok (e.schedule, e.wrapper_path)
      command_splits =
          ap (λ w. split_cron_entry (e.schedule ++ space ∷ w)) h.path_shape
          ∙ split_cron_entry-line e.schedule h.path_first h.path_others h.fields h.path_solid
          ∙ ap (λ w. ok (e.schedule, w)) (sym h.path_shape)

      read_command :
          (rest : List Text)
          → e.job.enabled ≡ true
          → read
              (inside_with (some (metadata_of e)) false)
              ((e.schedule ++ space ∷ e.wrapper_path) ∷ rest)
            ≡ (read (inside_with none false) rest >>= λ r. ok (inspection_of e ∷ r))
      read_command rest on = rw on (
          read-emit _ _ _ rest _ (
            rw (← command_shape) at (
              read_enabled h.first (h.others ++ space ∷ e.wrapper_path) h.leads (metadata_of e)
                e.schedule e.wrapper_path
                (sym (ap split_cron_entry command_shape) ∙ command_splits))))

      read_off :
          (rest : List Text)
          → e.job.enabled ≡ false
          → read
              (inside_with (some (metadata_of e)) false)
              (disabled_marker ∷ (hash ∷ space ∷ (e.schedule ++ space ∷ e.wrapper_path)) ∷ rest)
            ≡ (read (inside_with none false) rest >>= λ r. ok (inspection_of e ∷ r))
      read_off rest off =
          read-go _ _ _ _ (read_marker (some (metadata_of e)) false)
          ∙ rw off (
              read-emit _ _ _ rest _ (
                rw (← command_shape) at (
                  read_disabled h.first (h.others ++ space ∷ e.wrapper_path) h.leads (metadata_of e)
                    e.schedule e.wrapper_path
                    (sym (ap split_cron_entry command_shape) ∙ command_splits))))

    -- The two or three lines of an entry give its inspection, and the loop goes on behind them.
    read_entry_lines :
        (e : Entry) (rest : List Text)
        → IsReadable e
        → read (inside_with none false) (lines_of e ++ rest)
          ≡ (read (inside_with none false) rest >>= λ r. ok (inspection_of e ∷ r))
    unfolding job_lines
    read_entry_lines e rest h =
        read-go _ _ _ _ (read_metadata e none false h) ∙ elim (Bool-cases e.job.enabled) [
          | inl on ↦ rw on (rw on at (read_command e h rest on))
          | inr off ↦ rw off (rw off at (read_off e h rest off))
        ]

    read_entries :
        (es : List Entry) (rest : List Text) (found : List CronInspection)
        → All IsReadable es
        → read (inside_with none false) rest ≡ ok found
        → read (inside_with none false) (entries_lines es ++ rest)
          ≡ ok (map inspection_of es ++ found)
    unfolding entries_lines
    read_entries [] rest found h e = e
    read_entries (x ∷ es) rest found h e =
        ap (read (inside_with none false)) (append_assoc (lines_of x) (entries_lines es) rest)
        ∙ read_entry_lines x (entries_lines es ++ rest) h.0
        ∙ rw (read_entries es rest found h.1 e)

    read_end :
        (meta : Option Metadata) (pending : Bool)
        → line_read (inside_with meta pending) (end_marker project_id) ≡ stop
    unfolding read_line
    read_end meta pending =
        rw (end_begins_not project_id project_id, starts_with_self (end_marker project_id))

    read_begin :
        (state : ReadState) → line_read state (begin_line project_id) ≡ go (inside_with none false)
    unfolding read_line
    read_begin state = rw (starts_with-append (begin_marker project_id) (codes " backend=cron"))

    read_outside :
        (line : Text)
        → starts_with line (begin_marker project_id) ≡ false
        → line_read outside line ≡ go outside
    unfolding read_line
    read_outside line e = rw e

    -- A block behind lines that do not begin one is read as the entries that it was written for.
    pub read_lines-block :
        (before : List Text) (es : List Entry) (after : List Text)
        → All (λ l. starts_with l (begin_marker project_id) ≡ false) before
        → All IsReadable es
        → read outside (before ++ (block_lines project_id es ++ after)) ≡ ok (map inspection_of es)
    read_lines-block [] es after h k =
        read-go _ _ _ _ (read_begin outside)
        ∙ ap (read (inside_with none false))
            (append_assoc (entries_lines es) (end_marker project_id ∷ []) after)
        ∙ read_entries es (end_marker project_id ∷ after) [] k
            (read-stop _ _ after (read_end none false))
        ∙ ap ok (append-nil (map inspection_of es))
    read_lines-block (l ∷ before) es after h k =
        read-go _ _ _ _ (read_outside l h.0) ∙ read_lines-block before es after h.1 k
