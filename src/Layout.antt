-- ===== src/Layout.antt =====
-- The scheduler's use of the workspace port and of pathlib: layout.py of the capability
-- capabilities/xcron-capability-scheduler-native/src/xcron/capabilities/scheduler_native.
use xcron.Base.{Option, Text, codes, ◌++◌}
use xcron.Contracts.{NormalizedJob, RuntimePaths}

-- What the program calls of pathlib. A path is the text that it prints as.
pub record Pathlib : Type 0 where
  -- `str(Path(text))`
  pub of_text : Text → Text
  -- `path.expanduser().resolve()`
  pub resolve : Text → Text
  pub parent : Text → Text
  pub stem : Text → Text
  -- `path / name`
  pub join : Text → Text → Text

-- `RuntimeLayout`: the two methods of the workspace port that it passes on.
pub record RuntimeLayout : Type 0 where
  pub runtime_paths : NormalizedJob → Option Text → RuntimePaths
  pub project_state_path : Text → Option Text → Text

module _ (paths : Pathlib) where
  open paths use {resolve, parent, stem, join}

  abbrev logs_dir : Text → Text
  logs_dir wrapper_path = join (parent (parent (resolve wrapper_path))) (codes "logs")

  unfoldable pub wrapper_log_paths : Text → Text × Text
  wrapper_log_paths wrapper_path = (
    join (logs_dir wrapper_path) (stem wrapper_path ++ codes ".out.log"),
    join (logs_dir wrapper_path) (stem wrapper_path ++ codes ".err.log"),
  )

  unfoldable pub wrapper_event_log_path : Text → Text
  wrapper_event_log_path wrapper_path =
      join (logs_dir wrapper_path) (stem wrapper_path ++ codes ".events.jsonl")
