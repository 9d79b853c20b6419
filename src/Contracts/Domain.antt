-- ===== src/Contracts/Domain.antt =====
-- packages/xcron-contracts/src/xcron/contracts/domain.py: manifests and normalized jobs.
-- A `Path` is the text that it prints as.
use xcron.Base.{Bool, ℕ, Option, List, ◌++◌, Text, codes, Dict}

pub data ScheduleKind : Type 0 where
  cron every : ScheduleKind

pub data OverlapPolicy : Type 0 where
  allow forbid : OverlapPolicy

pub record ScheduleDefinition : Type 0 where
  pub kind : ScheduleKind
  pub value : Text

pub record NormalizedExecutionConfig : Type 0 where
  pub command : Text
  pub working_dir : Text
  pub shell : Text
  pub timezone : Option Text
  pub env : Dict Text
  pub overlap : OverlapPolicy

pub record NormalizedJob : Type 0 where
  pub project_id : Text
  pub job_id : Text
  pub qualified_id : Text
  pub artifact_id : Text
  pub enabled : Bool
  pub schedule : ScheduleDefinition
  pub execution : NormalizedExecutionConfig
  pub description : Option Text

pub record NormalizedManifest : Type 0 where
  pub version : ℕ
  pub project_id : Text
  pub project_root : Text
  pub manifest_path : Text
  pub jobs : List NormalizedJob

pub record ValidationMessage : Type 0 where
  pub level : Text
  pub path : Text
  pub message : Text

pub record ManifestHashes : Type 0 where
  pub manifest_hash : Text
  pub job_hashes : Dict Text
  pub job_definition_hashes : Dict Text

pub record RuntimePaths : Type 0 where
  pub project_dir : Text
  pub wrappers_dir : Text
  pub logs_dir : Text
  pub locks_dir : Text
  pub wrapper_path : Text
  pub stdout_log_path : Text
  pub stderr_log_path : Text
  pub event_log_path : Text
  pub lock_path : Text

-- `f"{project_id}.{job_id}"`
unfoldable pub build_qualified_job_id : Text → Text → Text
build_qualified_job_id project_id job_id = project_id ++ codes "." ++ job_id
