-- ===== src/Service/Details.antt =====
-- `inspect` of service.py, with the fields and the snippets that it shows.
pub mod Untouched
use xcron.Base.{
  Bool, true, false, ◌||◌, if◌then◌else◌, find, is_empty, Option, none, some, List, [], ◌∷◌, ◌++◌,
  map, Text, text_Eq, ◌==◌, codes, Dict, Result, ok, err,
}
use xcron.Contracts.{
  NormalizedJob, ScheduleKind, OverlapPolicy, StatusKind, StatusEntry, StatusProjectResult,
  ProjectPlan, SchedulerInspection, PlistValue, InspectField, InspectSnippet, InspectJobResult,
  SchedulerRequest, JobLookupRequest, InvocationContext,
}
use xcron.Planner.{NativeError, runtime_error, some_or_else}
use xcron.Layout.{Pathlib, RuntimeLayout}
use xcron.Service.World.{Step, ◌>>=◌, return, lift, running}
use xcron.Service.Ports.{SchedulerBackend, SchedulerRuntimeOptions, ManifestPort, runtime_options}
use xcron.Service.Registry.{SchedulerRegistry, require_backend}
use xcron.Service.Controller.{status}

-- `str(flag)`
abbrev show_bool : Bool → Text
show_bool true = codes "True"
show_bool false = codes "False"

abbrev status_value : StatusKind → Text
status_value StatusKind.ok = codes "ok"
status_value StatusKind.missing = codes "missing"
status_value StatusKind.drift = codes "drift"
status_value StatusKind.disabled = codes "disabled"
status_value StatusKind.extra = codes "extra"
status_value StatusKind.error = codes "error"

abbrev schedule_value : ScheduleKind → Text
schedule_value ScheduleKind.cron = codes "cron"
schedule_value ScheduleKind.every = codes "every"

abbrev overlap_value : OverlapPolicy → Text
overlap_value OverlapPolicy.allow = codes "allow"
overlap_value OverlapPolicy.forbid = codes "forbid"

abbrev entry_value : Option StatusEntry → Text
entry_value none = codes "unknown"
entry_value (some entry) = status_value entry.kind

abbrev field : Text → Text → InspectField
field name value = record { name = name; value = value }

-- A field that is shown where there is a value; `filled_field` where it is not empty.
abbrev optional_field : Text → Option Text → List InspectField
optional_field name none = []
optional_field name (some value) = field name value ∷ []

abbrev filled_field : Text → Option Text → List InspectField
filled_field name (some (c ∷ s)) = field name (c ∷ s) ∷ []
filled_field name _ = []

abbrev join_env : Text × Text → Dict Text → Text
join_env e [] = e.0 ++ codes "=" ++ e.1
join_env e (next ∷ env) = e.0 ++ codes "=" ++ e.1 ++ codes ", " ++ join_env next env

abbrev env_field : Dict Text → List InspectField
env_field [] = []
env_field (e ∷ env) = field (codes "env") (join_env e env) ∷ []

abbrev job_fields : NormalizedJob → Option StatusEntry → List InspectField
job_fields job entry =
    field (codes "qualified_id") job.qualified_id
    ∷ field (codes "job_id") job.job_id
    ∷ field (codes "status") (entry_value entry)
    ∷ field (codes "schedule") (schedule_value job.schedule.kind ++ codes "=" ++ job.schedule.value)
    ∷ field (codes "enabled") (show_bool job.enabled)
    ∷ field (codes "command") job.execution.command
    ∷ field (codes "working_dir") job.execution.working_dir
    ∷ field (codes "shell") job.execution.shell
    ∷ field (codes "overlap") (overlap_value job.execution.overlap)
    ∷ (filled_field (codes "description") job.description
        ++ optional_field (codes "timezone") job.execution.timezone
        ++ env_field job.execution.env)

unfoldable pub desired_fields : Option NormalizedJob → Option StatusEntry → List InspectField
desired_fields none entry = []
desired_fields (some job) entry = job_fields job entry

abbrev loaded_field : Option Bool → List InspectField
loaded_field none = []
loaded_field (some flag) = field (codes "loaded") (show_bool flag) ∷ []

abbrev inspection_fields : SchedulerInspection → List InspectField
inspection_fields item =
    field (codes "qualified_id") item.qualified_id
    ∷ field (codes "backend_enabled") (show_bool item.enabled)
    ∷ field (codes "desired_hash") (some_or_else item.desired_hash (codes "n/a"))
    ∷ (optional_field (codes "definition_hash") item.definition_hash
        ++ optional_field (codes "label") item.label
        ++ optional_field (codes "artifact_path") item.artifact_path
        ++ optional_field (codes "wrapper_path") item.wrapper_path
        ++ optional_field (codes "stdout_log") item.stdout_log_path
        ++ optional_field (codes "stderr_log") item.stderr_log_path
        ++ optional_field (codes "event_log") item.event_log_path
        ++ loaded_field item.loaded)

unfoldable pub deployed_fields : Option SchedulerInspection → List InspectField
deployed_fields none = []
deployed_fields (some item) = inspection_fields item

abbrev snippet : Text → Text → InspectSnippet
snippet name content = record { name = name; content = content }

abbrev entry_snippet : Option Text → List InspectSnippet
entry_snippet none = []
entry_snippet (some content) = snippet (codes "raw_entry") content ∷ []

abbrev print_snippet : Option Text → List InspectSnippet
print_snippet (some (c ∷ s)) = snippet (codes "launchctl_print") (c ∷ s) ∷ []
print_snippet _ = []

-- `dumps` is `plistlib.dumps`, as text.
module _ (dumps : Dict PlistValue → Text) where
  abbrev plist_snippet : Option (Dict PlistValue) → List InspectSnippet
  plist_snippet none = []
  plist_snippet (some plist) = snippet (codes "raw_plist") (dumps plist) ∷ []

  unfoldable pub snippets : Option SchedulerInspection → List InspectSnippet
  snippets none = []
  snippets (some item) =
      entry_snippet item.raw_entry
      ++ plist_snippet item.raw_plist
      ++ print_snippet item.launchctl_print

-- The jobs, the entries and the inspections that an identifier means.
abbrev pub is_meant : Text → NormalizedJob → Bool
is_meant identifier job = (job.job_id == identifier) || (job.qualified_id == identifier)

abbrev pub target_of : Text → Option NormalizedJob → Text
target_of identifier none = identifier
target_of identifier (some job) = job.qualified_id

abbrev pub find_entry : Text → List StatusEntry → Option StatusEntry
find_entry target = find (λ (item : StatusEntry). item.qualified_id == target)

abbrev pub find_inspection : Text → Text → List SchedulerInspection → Option SchedulerInspection
find_inspection identifier target = find (λ (item : SchedulerInspection).
    (item.qualified_id == identifier) || (item.qualified_id == target))

unfoldable pub scheduler_request : JobLookupRequest → InvocationContext → SchedulerRequest
scheduler_request request context = record {
  project = request.project;
  backend = context.options.backend;
  state_root = context.options.state_root;
  platform = context.options.platform;
  launch_agents_dir = context.options.launch_agents_dir;
  launchctl_domain = context.options.launchctl_domain;
  crontab_path = context.options.crontab_path;
  manage_launchctl = context.options.manage_launchctl;
  manage_crontab = context.options.manage_crontab;
}

module _ {Data : Type 0} (paths : Pathlib) (cwd platform : Text) (layout : RuntimeLayout)
    (port : ManifestPort Data) (registry : SchedulerRegistry) (dumps : Dict PlistValue → Text)
    (request : JobLookupRequest) (context : InvocationContext) where
  abbrev failed : Option Text → StatusProjectResult → Text → InspectJobResult
  failed backend shown message = record {
    valid = false;
    backend = backend;
    status = shown;
    desired_job = none;
    status_entry = none;
    desired_fields = [];
    deployed_fields = [];
    snippets = [];
    inspection = none;
    error = some message;
  }

  abbrev inspected :
      StatusProjectResult
      → Text
      → Option NormalizedJob
      → Option StatusEntry
      → Option SchedulerInspection
      → InspectJobResult
  inspected shown backend none entry none =
      failed (some backend) shown
        (codes "job not found in desired manifest or deployed backend: " ++ request.job_identifier)
  inspected shown backend desired entry inspection = record {
    valid = true;
    backend = some backend;
    status = shown;
    desired_job = desired;
    status_entry = entry;
    desired_fields = desired_fields desired entry;
    deployed_fields = deployed_fields inspection;
    snippets = snippets dumps inspection;
    inspection = inspection;
    error = none;
  }

  -- The project id is that of the manifest that was validated.
  abbrev project_id_of : StatusProjectResult → Result NativeError Text
  project_id_of shown = elim shown.validation.normalized_manifest [
    | some manifest ↦ ok manifest.project_id
    | none ↦ err (runtime_error (codes "'NoneType' object has no attribute 'project_id'"))
  ]

  abbrev pub inspect_status :
      StatusProjectResult → Bool → Option ProjectPlan → Option Text → Step InspectJobResult
  inspect_status shown true (some plan) (some backend) =
      let desired = find (is_meant request.job_identifier) plan.manifest.jobs in
      let target = target_of request.job_identifier desired in
      do
        scheduler ← lift (require_backend registry backend)
        project_id ← lift (project_id_of shown)
        inspections ← running (
            scheduler.inspect_project project_id
              (runtime_options paths (scheduler_request request context) context) true)
        return (
            inspected shown backend desired (find_entry target shown.statuses)
              (find_inspection request.job_identifier target inspections))
  inspect_status shown _ _ _ = return (failed none shown (codes "project validation failed"))

  unfoldable pub inspect : Step InspectJobResult
  inspect = do
    shown ←
        status paths cwd platform layout port registry (scheduler_request request context) context
    inspect_status shown shown.valid shown.plan shown.backend
