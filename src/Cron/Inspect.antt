-- ===== src/Cron/Inspect.antt =====
-- `inspect_cron_project` and `split_cron_entry` of adapters/cron.py: how the managed entries are
-- read back from the lines of a crontab.
pub mod Pattern
pub mod Lines
pub mod RoundTrip
pub mod Blocks
pub mod Foreign
use Pattern.{Metadata, parse_metadata}
use xcron.Base.{
  Bool, true, false, not, ◌&&◌, if◌then◌else◌, ℕ, Option, none, some, List, [], ◌∷◌, ◌++◌, Text,
  codes, text_Eq, ◌==◌, starts_with, strip_prefix, split_max, splitlines, Result, ok, err, ◌>>=◌,
}
use xcron.Planner.{NativeError, value_error}
use xcron.Layout.{Pathlib, wrapper_log_paths, wrapper_event_log_path}
use xcron.Cron.Block.{begin_marker, end_marker, disabled_marker, space, hash}

pub record CronInspection : Type 0 where
  pub qualified_id : Text
  pub job_id : Option Text
  pub schedule : Text
  pub artifact_path : Text
  pub wrapper_path : Text
  pub enabled : Bool
  pub desired_hash : Text
  pub definition_hash : Text
  pub raw_entry : Text
  pub stdout_log_path : Text
  pub stderr_log_path : Text
  pub event_log_path : Text

-- The test `len(parts) != 6`, and what is made of six parts.
unfoldable pub join_parts : Text → List Text → Result NativeError (Text × Text)
join_parts entry (a ∷ b ∷ c ∷ d ∷ e ∷ command ∷ []) =
    ok (a ++ space ∷ (b ++ space ∷ (c ++ space ∷ (d ++ space ∷ e))), command)
join_parts entry _ = err (value_error (codes "invalid managed cron entry: " ++ entry))

unfoldable pub split_cron_entry : Text → Result NativeError (Text × Text)
split_cron_entry entry = join_parts entry (split_max 5 entry)

-- `inside`, `current_meta` and `pending_disabled`
pub record ReadState : Type 0 where
  pub inside : Bool
  pub current_meta : Option Metadata
  pub pending_disabled : Bool

abbrev pub outside : ReadState
outside = record { inside = false; current_meta = none; pending_disabled = false }

-- What one line does to the loop: it breaks it, raises, goes on, or adds an inspection.
pub data Move : Type 0 where
  stop : Move
  fail : NativeError → Move
  go : ReadState → Move
  emit : CronInspection → ReadState → Move

-- `line[2:]`
abbrev pub drop_two : Text → Text
drop_two (c ∷ d ∷ s) = s
drop_two _ = []

module _ (paths : Pathlib) (artifact_path : Text) where
  unfoldable pub inspection : Metadata → Text → Bool → Text → Text → CronInspection
  inspection meta line disabled schedule command =
      let wrapper = paths.of_text command in
      record {
        qualified_id = meta.qualified_id;
        job_id = some meta.job_id;
        schedule = schedule;
        artifact_path = artifact_path;
        wrapper_path = wrapper;
        enabled = not disabled;
        desired_hash = meta.desired_hash;
        definition_hash = meta.definition_hash;
        raw_entry = line;
        stdout_log_path = (wrapper_log_paths paths wrapper).0;
        stderr_log_path = (wrapper_log_paths paths wrapper).1;
        event_log_path = wrapper_event_log_path paths wrapper;
      }

  abbrev entry_move : Metadata → Text → Bool → Result NativeError (Text × Text) → Move
  entry_move meta line disabled (err e) = fail e
  entry_move meta line disabled (ok (schedule, command)) =
      emit (inspection meta line disabled schedule command)
        (record { inside = true; current_meta = none; pending_disabled = false })

  -- A line inside the block that is neither metadata nor the disabled marker.
  abbrev pub read_entry : ReadState → Text → Option Metadata → Move
  read_entry s line none = go s
  read_entry s line (some meta) =
      let disabled = s.pending_disabled && starts_with line (hash ∷ space ∷ []) in
      entry_move meta line disabled (split_cron_entry (if disabled then drop_two line else line))

  abbrev pub read_body : ReadState → Text → Option Metadata → Move
  read_body s line (some meta) =
      go (record s { current_meta = some meta; pending_disabled = false })
  read_body s line none =
      if line == disabled_marker
      then go (record s { pending_disabled = true })
      else read_entry s line s.current_meta

  module _ (project_id : Text) where
    unfoldable pub read_line : ReadState → Text → Move
    read_line s line =
        if starts_with line (begin_marker project_id)
        then go (record { inside = true; current_meta = none; pending_disabled = false })
        else if s.inside && starts_with line (end_marker project_id)
        then stop
        else if not s.inside
        then go s
        else read_body s line (parse_metadata line)

    unfoldable pub read_lines : ReadState → List Text → Result NativeError (List CronInspection)
    read_lines s [] = ok []
    read_lines s (line ∷ lines) = elim (read_line s line) [
      | stop ↦ ok []
      | fail e ↦ err e
      | go s' ↦ read_lines s' lines
      | emit i s' ↦ do rest ← read_lines s' lines; ok (i ∷ rest)
    ]
