-- ===== src/Service/Registry.antt =====
-- registry.py: the registry of backends, the cron backend, and the choice of a backend.
use xcron.Base.{
  if◌then◌else◌, Option, none, some, List, [], ◌∷◌, ◌++◌, map, Text, codes, Dict, get, put,
  contains, starts_with, Result, ok, err, ◌>>=◌,
}
use xcron.Contracts.{SchedulerInspection}
use xcron.Planner.{NativeError, value_error, unknown_backend}
use xcron.Layout.{Pathlib, RuntimeLayout}
use xcron.Cron.Machine.{Machine, Run, CrontabCommand}
use xcron.Cron.Schedule.{cron_schedule_errors}
use xcron.Cron.Inspect.{CronInspection}
use xcron.Cron.Adapter.{
  cron_name, inspect_cron_project, collect_cron_project_state, apply_cron_plan, prune_cron_project,
}
use xcron.Service.Ports.{SchedulerBackend}

abbrev pub SchedulerRegistry : Type 0
SchedulerRegistry = Dict SchedulerBackend

abbrev add_backend : SchedulerBackend → SchedulerRegistry → Result NativeError SchedulerRegistry
add_backend backend indexed =
    if contains backend.name indexed
    then err (value_error (codes "duplicate scheduler backend: " ++ backend.name))
    else ok (put backend.name backend indexed)

-- The loop of `SchedulerRegistry.__init__`, over the backends so far.
unfoldable pub index_backends :
    SchedulerRegistry → List SchedulerBackend → Result NativeError SchedulerRegistry
index_backends indexed [] = ok indexed
index_backends indexed (backend ∷ backends) = do
  extended ← add_backend backend indexed
  index_backends extended backends

-- `require`
unfoldable pub require_backend : SchedulerRegistry → Text → Result NativeError SchedulerBackend
require_backend registry name = elim (get name registry) [
  | none ↦ err (unknown_backend name)
  | some backend ↦ ok backend
]

unfoldable pub cron_inspection : CronInspection → SchedulerInspection
cron_inspection item = record {
  qualified_id = item.qualified_id;
  job_id = item.job_id;
  artifact_path = some item.artifact_path;
  wrapper_path = some item.wrapper_path;
  enabled = item.enabled;
  desired_hash = some item.desired_hash;
  definition_hash = some item.definition_hash;
  stdout_log_path = some item.stdout_log_path;
  stderr_log_path = some item.stderr_log_path;
  event_log_path = some item.event_log_path;
  label = none;
  loaded = none;
  raw_entry = some item.raw_entry;
  raw_plist = none;
  launchctl_print = none;
}

abbrev pub mapped :
    {A B : Type 0}
    → (A → B)
    → Machine × Result NativeError (List A)
    → Machine × Result NativeError (List B)
mapped f (m, ok xs) = (m, ok (map f xs))
mapped f (m, err e) = (m, err e)

-- `tuple(f(item) for item in run)`
abbrev pub each : {A B : Type 0} → (A → B) → Run (List A) → Run (List B)
each f run m = mapped f (run m)

-- `CronSchedulerBackend`, where the clock shows `now`.
unfoldable pub cron_backend : Pathlib → RuntimeLayout → CrontabCommand → Text → SchedulerBackend
cron_backend paths layout command now = record {
  name = cron_name;
  collect_project_state = λ project_id options.
      collect_cron_project_state paths command project_id options.crontab_path;
  inspect_project = λ project_id options detail.
      each cron_inspection (inspect_cron_project paths command project_id options.crontab_path);
  apply = λ deployment options.
      apply_cron_plan layout command options.state_root options.crontab_path options.manage_crontab
        deployment now;
  prune_project = λ project_id options.
      each cron_inspection
        (prune_cron_project paths command project_id options.crontab_path options.manage_crontab);
  schedule_errors = cron_schedule_errors;
}

abbrev selected_platform : Option Text → Text → Text
selected_platform none current = current
selected_platform (some platform) current = platform

-- `current` is `sys.platform`.
unfoldable pub default_backend_for_current_platform : Text → Option Text → Result NativeError Text
default_backend_for_current_platform current platform =
    let selected = selected_platform platform current in
    if starts_with selected (codes "darwin")
    then ok (codes "launchd")
    else if starts_with selected (codes "linux")
    then ok cron_name
    else err (value_error (codes "unsupported platform for xcron prototype: " ++ selected))
