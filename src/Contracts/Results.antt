-- ===== src/Contracts/Results.antt =====
-- packages/xcron-contracts/src/xcron/contracts/results.py: plans, states and outcomes.
use xcron.Base.{Bool, ℕ, Option, List, Text, Dict}
use xcron.Contracts.Domain.{NormalizedJob, NormalizedManifest, ValidationMessage, ManifestHashes}

pub data PlanChangeKind : Type 0 where
  create update remove enable disable noop drift error : PlanChangeKind

pub data StatusKind : Type 0 where
  ok missing drift disabled extra error : StatusKind

pub record DeployedJobState : Type 0 where
  pub qualified_id : Text
  pub job_id : Text
  pub artifact_id : Text
  pub backend : Text
  pub enabled : Bool
  pub desired_hash : Text
  pub definition_hash : Option Text
  pub observed_hash : Option Text
  pub label : Option Text
  pub artifact_path : Option Text
  pub wrapper_path : Option Text
  pub stdout_log_path : Option Text
  pub stderr_log_path : Option Text
  pub event_log_path : Option Text
  pub last_applied_at : Option Text

pub record ProjectState : Type 0 where
  pub project_id : Text
  pub backend : Text
  pub manifest_hash : Option Text
  pub jobs : List DeployedJobState
  pub updated_at : Option Text

pub record PlanChange : Type 0 where
  pub kind : PlanChangeKind
  pub qualified_id : Text
  pub reason : Text
  pub desired_job : Option NormalizedJob
  pub deployed_job : Option DeployedJobState
  pub desired_hash : Option Text
  pub deployed_hash : Option Text

pub record StatusEntry : Type 0 where
  pub kind : StatusKind
  pub qualified_id : Text
  pub reason : Text
  pub desired_job : Option NormalizedJob
  pub deployed_job : Option DeployedJobState

pub record ProjectPlan : Type 0 where
  pub backend : Text
  pub manifest : NormalizedManifest
  pub changes : List PlanChange
  pub state : ProjectState

-- The values of a property list: those that the program writes, and `other` for what else a list on
-- the disk may hold.
pub data PlistValue : Type 0 where
  string : Text → PlistValue
  boolean : Bool → PlistValue
  integer : ℕ → PlistValue
  strings : List Text → PlistValue
  string_dict : Dict Text → PlistValue
  integer_dict : Dict ℕ → PlistValue
  integer_dicts : List (Dict ℕ) → PlistValue
  other : Text → PlistValue

pub record SchedulerInspection : Type 0 where
  pub qualified_id : Text
  pub job_id : Option Text
  pub artifact_path : Option Text
  pub wrapper_path : Option Text
  pub enabled : Bool
  pub desired_hash : Option Text
  pub definition_hash : Option Text
  pub stdout_log_path : Option Text
  pub stderr_log_path : Option Text
  pub event_log_path : Option Text
  pub label : Option Text
  pub loaded : Option Bool
  pub raw_entry : Option Text
  pub raw_plist : Option (Dict PlistValue)
  pub launchctl_print : Option Text

pub record ValidateProjectResult : Type 0 where
  pub project_root : Text
  pub manifest_path : Option Text
  pub valid : Bool
  pub errors : List ValidationMessage
  pub warnings : List ValidationMessage
  pub normalized_manifest : Option NormalizedManifest
  pub hashes : Option ManifestHashes

pub record PlanProjectResult : Type 0 where
  pub valid : Bool
  pub validation : ValidateProjectResult
  pub backend : Option Text
  pub state_path : Option Text
  pub changes : List PlanChange
  pub plan : Option ProjectPlan

pub record StatusProjectResult : Type 0 where
  pub valid : Bool
  pub backend : Option Text
  pub validation : ValidateProjectResult
  pub plan : Option ProjectPlan
  pub statuses : List StatusEntry
  pub inspections : List SchedulerInspection

pub record ApplyProjectResult : Type 0 where
  pub valid : Bool
  pub backend : Option Text
  pub plan_result : PlanProjectResult
  pub applied_state : Option ProjectState

pub record PruneProjectResult : Type 0 where
  pub valid : Bool
  pub backend : Option Text
  pub project_id : Option Text
  pub removed : List SchedulerInspection
  pub error : Option Text

pub record InspectField : Type 0 where
  pub name : Text
  pub value : Text

pub record InspectSnippet : Type 0 where
  pub name : Text
  pub content : Text

pub record InspectJobResult : Type 0 where
  pub valid : Bool
  pub backend : Option Text
  pub status : StatusProjectResult
  pub desired_job : Option NormalizedJob
  pub status_entry : Option StatusEntry
  pub desired_fields : List InspectField
  pub deployed_fields : List InspectField
  pub snippets : List InspectSnippet
  pub inspection : Option SchedulerInspection
  pub error : Option Text

pub record ValidationReport : Type 0 where
  pub valid : Bool
  pub errors : List ValidationMessage
  pub warnings : List ValidationMessage
  pub normalized_manifest : Option NormalizedManifest

-- `raw_data` is what the manifest port keeps of the document.
pub record LoadedManifestDocument (Data : Type 0) : Type 0 where
  pub project_root : Text
  pub manifest_path : Text
  pub raw_data : Data
