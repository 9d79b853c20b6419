-- ===== src/Launchd/Plist.antt =====
-- The property lists of adapters/launchd.py: `render_launchd_job`, what `inspect_launchd_project`
-- reads out of one list, and the label lines that `read_disabled_labels` reads.
pub mod Recovered
use xcron.Base.{
  Bool, true, false, not, ◌&&◌, ◌||◌, if◌then◌else◌, any, nat_eq, ℕ, Option, none, some, List, [],
  ◌∷◌, ◌++◌, Text, text_Eq, ◌==◌, codes, starts_with, strip_prefix, splitlines, lstrip, rstrip,
  Dict, get, put, Result, ok, err, ◌>>=◌,
}
use xcron.Contracts.{
  NormalizedJob, DeployedJobState, SchedulerInspection, PlistValue, string, boolean, integer,
  strings, string_dict, integer_dict, integer_dicts,
}
use xcron.Planner.{NativeError, value_error, key_error, some_or_else}
use xcron.Layout.{Pathlib, RuntimeLayout, wrapper_log_paths, wrapper_event_log_path}
use xcron.Wrapper.{RenderedWrapper, render_wrapper}
use xcron.Launchd.Schedule.{
  LaunchdSchedule, start_interval, start_calendar, start_calendars, render_launchd_schedule,
}

abbrev pub launchd_name : Text
launchd_name = codes "launchd"

abbrev label_prefix : Text
label_prefix = codes "com.xcron"

unfoldable pub build_launchd_label : NormalizedJob → Text
build_launchd_label job = label_prefix ++ codes "." ++ job.artifact_id

pub record LaunchdRenderedJob : Type 0 where
  pub job : NormalizedJob
  pub label : Text
  pub plist_path : Text
  pub desired_hash : Text
  pub definition_hash : Text
  pub wrapper : RenderedWrapper
  pub plist_content : Text

pub record LaunchdInspection : Type 0 where
  pub qualified_id : Text
  pub job_id : Option Text
  pub label : Text
  pub plist_path : Text
  pub wrapper_path : Option Text
  pub desired_hash : Option Text
  pub definition_hash : Option Text
  pub enabled : Bool
  pub loaded : Bool
  pub raw_plist : Dict PlistValue
  pub stdout_log_path : Option Text
  pub stderr_log_path : Option Text
  pub event_log_path : Option Text
  pub launchctl_print : Option Text

-- `plist_data.update(...)` with the keys of the schedule
abbrev pub add_schedule : LaunchdSchedule → Dict PlistValue → Dict PlistValue
add_schedule (start_interval seconds) plist = put (codes "StartInterval") (integer seconds) plist
add_schedule (start_calendar interval) plist =
    put (codes "StartCalendarInterval") (integer_dict interval) plist
add_schedule (start_calendars intervals) plist =
    put (codes "StartCalendarInterval") (integer_dicts intervals) plist

module _ (job : NormalizedJob) (desired_hash definition_hash wrapper_path : Text) where
  abbrev pub base_plist : Dict PlistValue
  base_plist =
      (codes "Label", string (build_launchd_label job))
      ∷ (codes "ProgramArguments", strings (wrapper_path ∷ []))
      ∷ (codes "RunAtLoad", boolean false)
      ∷ (codes "Disabled", boolean (not job.enabled))
      ∷ (
        codes "EnvironmentVariables",
        string_dict (
            (codes "XCRON_PROJECT_ID", job.project_id)
            ∷ (codes "XCRON_JOB_ID", job.job_id)
            ∷ (codes "XCRON_QUALIFIED_ID", job.qualified_id)
            ∷ (codes "XCRON_DESIRED_HASH", desired_hash)
            ∷ (codes "XCRON_DEFINITION_HASH", definition_hash)
            ∷ []),
      )
      ∷ []

  unfoldable pub plist_of : LaunchdSchedule → Dict PlistValue
  plist_of schedule = add_schedule schedule base_plist

-- `dumps` is `plistlib.dumps`; `agents_dir` is the directory that was selected.
module _ (paths : Pathlib) (dumps : Dict PlistValue → Text) (layout : RuntimeLayout)
    (state_root : Option Text) (agents_dir : Text) where
  unfoldable pub render_launchd_job :
      NormalizedJob → Text → Text → Result NativeError LaunchdRenderedJob
  render_launchd_job job desired_hash definition_hash = do
    schedule ← render_launchd_schedule job
    let wrapper = render_wrapper layout job desired_hash state_root
    let label = build_launchd_label job
    ok (record {
      job = job;
      label = label;
      plist_path = paths.join agents_dir (label ++ codes ".plist");
      desired_hash = desired_hash;
      definition_hash = definition_hash;
      wrapper = wrapper;
      plist_content =
          dumps
            (plist_of job desired_hash definition_hash wrapper.runtime_paths.wrapper_path schedule);
    })

-- A list that does not have what xcron writes under a key is an error of value here, whatever
-- Python raises or makes of it.
abbrev environment : Option PlistValue → Result NativeError (Dict Text)
environment none = ok []
environment (some (string_dict env)) = ok env
environment (some _) = err (value_error (codes "EnvironmentVariables"))

abbrev label_in : Option PlistValue → Result NativeError Text
label_in none = err (key_error (codes "Label"))
label_in (some (string label)) = ok label
label_in (some _) = err (value_error (codes "Label"))

abbrev first_argument : Option PlistValue → Result NativeError (Option Text)
first_argument none = ok none
first_argument (some (strings [])) = ok none
first_argument (some (strings (path ∷ arguments))) = ok (some path)
first_argument (some _) = err (value_error (codes "ProgramArguments"))

abbrev get_or : Option Text → Text → Text
get_or none default = default
get_or (some value) default = value

-- `label.removeprefix("com.xcron.")`
abbrev remove_prefix : Text → Text
remove_prefix label = get_or (strip_prefix (label_prefix ++ codes ".") label) label

-- `label in labels`
abbrev pub is_listed : Text → List Text → Bool
is_listed label labels = any (λ l. l == label) labels

-- `s.partition(separator)`, without the separator
unfoldable pub partition : Text → Text → Text × Text
partition separator [] = ([], [])
partition separator (c ∷ s) =
    let rest = partition separator s in
    elim (strip_prefix separator (c ∷ s)) [ some after ↦ ([], after) | none ↦ (c ∷ rest.0, rest.1) ]

abbrev quote : ℕ
quote = b'"'

-- `label.strip('"')`
abbrev drop_quotes : Text → Text
drop_quotes [] = []
drop_quotes (c ∷ s) = if nat_eq c quote then drop_quotes s else c ∷ s

abbrev cut_cons : ℕ → Text → Text
cut_cons c [] = if nat_eq c quote then [] else c ∷ []
cut_cons c (d ∷ s) = c ∷ d ∷ s

abbrev cut_quotes : Text → Text
cut_quotes [] = []
cut_quotes (c ∷ s) = cut_cons c (cut_quotes s)

abbrev strip_quotes : Text → Text
strip_quotes s = cut_quotes (drop_quotes s)

abbrev disabled_label : Text → List Text
disabled_label stripped =
    let parts = partition (codes " => ") stripped in
    if starts_with stripped (quote ∷ []) && parts.1 == codes "disabled"
    then strip_quotes parts.0 ∷ []
    else []

-- The loop of `read_disabled_labels`, over what `launchctl print-disabled` prints.
unfoldable pub disabled_labels : List Text → List Text
disabled_labels [] = []
disabled_labels (line ∷ lines) = disabled_label (rstrip (lstrip line)) ++ disabled_labels lines

module _ (paths : Pathlib) where
  -- The three log paths of a wrapper, where there is one.
  abbrev out_log : Option Text → Option Text
  out_log none = none
  out_log (some wrapper) = some (wrapper_log_paths paths wrapper).0

  abbrev err_log : Option Text → Option Text
  err_log none = none
  err_log (some wrapper) = some (wrapper_log_paths paths wrapper).1

  abbrev event_log : Option Text → Option Text
  event_log none = none
  event_log (some wrapper) = some (wrapper_event_log_path paths wrapper)

  abbrev path_of : Option Text → Option Text
  path_of none = none
  path_of (some text) = some (paths.of_text text)

  -- The body of the loop of `inspect_launchd_project`, with the labels that are disabled and what
  -- `read_launchd_service_status` says of a label.
  unfoldable pub inspect_plist :
      List Text
      → (Text → Bool × Option Text)
      → Text
      → Dict PlistValue
      → Result NativeError LaunchdInspection
  inspect_plist disabled_labels service_status plist_path raw = do
    env ← environment (get (codes "EnvironmentVariables") raw)
    label ← label_in (get (codes "Label") raw)
    argument ← first_argument (get (codes "ProgramArguments") raw)
    let wrapper = path_of argument
    let status = service_status label
    ok (record {
      qualified_id = get_or (get (codes "XCRON_QUALIFIED_ID") env) (remove_prefix label);
      job_id = get (codes "XCRON_JOB_ID") env;
      label = label;
      plist_path = plist_path;
      wrapper_path = wrapper;
      desired_hash = get (codes "XCRON_DESIRED_HASH") env;
      definition_hash = get (codes "XCRON_DEFINITION_HASH") env;
      enabled = not (is_listed label disabled_labels);
      loaded = status.0;
      raw_plist = raw;
      stdout_log_path = out_log wrapper;
      stderr_log_path = err_log wrapper;
      event_log_path = event_log wrapper;
      launchctl_print = status.1;
    })

-- The state of a job in `collect_launchd_project_state`
unfoldable pub launchd_deployed : LaunchdInspection → DeployedJobState
launchd_deployed item = record {
  qualified_id = item.qualified_id;
  job_id = some_or_else item.job_id item.qualified_id;
  artifact_id = item.qualified_id;
  backend = launchd_name;
  enabled = item.enabled;
  desired_hash = some_or_else item.desired_hash [];
  definition_hash = item.definition_hash;
  observed_hash = item.desired_hash;
  label = some item.label;
  artifact_path = some item.plist_path;
  wrapper_path = item.wrapper_path;
  stdout_log_path = item.stdout_log_path;
  stderr_log_path = item.stderr_log_path;
  event_log_path = item.event_log_path;
  last_applied_at = none;
}

-- `_launchd_inspection` of registry.py
unfoldable pub launchd_inspection : LaunchdInspection → SchedulerInspection
launchd_inspection item = record {
  qualified_id = item.qualified_id;
  job_id = item.job_id;
  artifact_path = some item.plist_path;
  wrapper_path = item.wrapper_path;
  enabled = item.enabled;
  desired_hash = item.desired_hash;
  definition_hash = item.definition_hash;
  stdout_log_path = item.stdout_log_path;
  stderr_log_path = item.stderr_log_path;
  event_log_path = item.event_log_path;
  label = some item.label;
  loaded = some item.loaded;
  raw_entry = none;
  raw_plist = some item.raw_plist;
  launchctl_print = item.launchctl_print;
}
