-- ===== src/Manifest/Loader.antt =====
-- The parser of raw manifests, parse_project_manifest of capabilities/xcron-capability-manifest-yaml/
-- src/xcron/capabilities/manifest_yaml/_loader.py, and _validated_manifest of _editor.py.
pub mod Validated
use xcron.Base.{
  Bool, true, false, if◌then◌else◌, nat_eq, ℕ, is_empty, Option, none, some, List, [], ◌∷◌, ◌++◌,
  map, Text, text_Eq, ◌==◌, codes, Dict, get, contains, int_of, from_list, Result, ok, err,
  raise_if, ◌>>=◌,
}
use xcron.Contracts.{ScheduleKind, ScheduleDefinition, OverlapPolicy, ValidationMessage}
use xcron.Planner.{NativeError}
use xcron.Manifest.{ProjectConfig, DefaultsConfig, JobDefinition, ProjectManifest, Runtime}
use xcron.Manifest.Json.{
  Json, null, boolean, number, text, array, object, Items, no_items, item, Members, no_members,
  member, elements, entries,
}
use xcron.Manifest.Semantics.{Host, validate_semantics, split_validation_messages}
use xcron.Manifest.Editor.{
  EditError, invalid, attribute_error, missing_key, bad_value, raised, object_or_empty, as_job, str,
}

-- `data[key]`
abbrev key_in : Dict Json → Text → Result EditError Json
key_in fields key = elim (get key fields) [ none ↦ err (missing_key key) | some value ↦ ok value ]

-- `bool(value)`
abbrev truth : Json → Bool
truth null = false
truth (boolean b) = b
truth (number n) = if nat_eq n 0 then false else true
truth (text s) = if is_empty s then false else true
truth (array no_items) = false
truth (array (item x xs)) = true
truth (object no_members) = false
truth (object (member k x d)) = true

abbrev truth_or_true : Option Json → Bool
truth_or_true none = true
truth_or_true (some value) = truth value

-- `data.get("jobs") or []`, over which the code goes: the keys of a dictionary are texts, of which
-- a job cannot be made.
abbrev list_or_empty : Option Json → Result EditError (List Json)
list_or_empty none = ok []
list_or_empty (some (array xs)) = ok (elements xs)
list_or_empty (some value) = if truth value then err attribute_error else ok []

-- A field that the schema lets be a text only; of another value the code would make no text.
abbrev optional_text : Option Json → Result EditError (Option Text)
optional_text none = ok none
optional_text (some null) = ok none
optional_text (some (text s)) = ok (some s)
optional_text (some _) = err attribute_error

abbrev overlap_policy : Text → Result EditError OverlapPolicy
overlap_policy value =
    if value == codes "allow"
    then ok OverlapPolicy.allow
    else if value == codes "forbid"
    then ok OverlapPolicy.forbid
    else err (bad_value value)

-- `int(value)`; of a text, its digits.
abbrev int_value : Json → Result EditError ℕ
int_value (number n) = ok n
int_value (boolean true) = ok 1
int_value (boolean false) = ok 0
int_value (text s) = elim (int_of s) [ none ↦ err (bad_value s) | some n ↦ ok n ]
int_value _ = err attribute_error

-- `DefaultsConfig.working_dir` and `DefaultsConfig.shell`: the class has slots, so these are the
-- descriptors of its slots, not the default values of the fields.
abbrev slot_text : Text → Text
slot_text name = codes "<member '" ++ name ++ codes "' of 'DefaultsConfig' objects>"

abbrev pub from_native : {A : Type 0} → Result NativeError A → Result EditError A
from_native (ok value) = ok value
from_native (err error) = err (raised error)

abbrev pub no_errors : List ValidationMessage → Result EditError (Unit {0})
no_errors errors = raise_if (if is_empty errors then false else true) (invalid errors)

module _ (show : Json → Text) where
  abbrev str_or : Option Json → Text → Text
  str_or none default = default
  str_or (some value) default = str show value

  -- `{str(key): str(value) for key, value in (data.get("env") or {}).items()}`
  unfoldable pub parse_env : Option Json → Result EditError (Dict Text)
  parse_env value = do
    env ← object_or_empty value
    ok (from_list (λ (e : Text × Json). e.0) (λ (e : Text × Json). str show e.1) env)

  abbrev schedule_in : Dict Json → Result EditError ScheduleDefinition
  schedule_in fields = elim (get (codes "cron") fields) [
    | some value ↦ ok (record { kind = ScheduleKind.cron; value = str show value })
    | none ↦ (do
      value ← key_in fields (codes "every")
      ok (record { kind = ScheduleKind.every; value = str show value }))
  ]

  unfoldable pub parse_job_definition : Json → Result EditError JobDefinition
  parse_job_definition value = do
    fields ← as_job value
    schedule_value ← key_in fields (codes "schedule")
    schedule_data ← as_job schedule_value
    schedule ← schedule_in schedule_data
    overlap ← overlap_policy (str_or (get (codes "overlap") fields) (codes "allow"))
    id ← key_in fields (codes "id")
    description ← optional_text (get (codes "description") fields)
    command ← key_in fields (codes "command")
    working_dir ← optional_text (get (codes "working_dir") fields)
    shell ← optional_text (get (codes "shell") fields)
    env ← parse_env (get (codes "env") fields)
    ok (record {
      id = str show id;
      command = str show command;
      schedule = schedule;
      description = description;
      enabled = truth_or_true (get (codes "enabled") fields);
      working_dir = working_dir;
      shell = shell;
      env = env;
      overlap = overlap;
    })

  unfoldable pub parse_jobs : List Json → Result EditError (List JobDefinition)
  parse_jobs [] = ok []
  parse_jobs (value ∷ values) = do
    job ← parse_job_definition value
    jobs ← parse_jobs values
    ok (job ∷ jobs)

  unfoldable pub parse_defaults : Dict Json → Result EditError DefaultsConfig
  parse_defaults fields = do
    timezone ← optional_text (get (codes "timezone") fields)
    env ← parse_env (get (codes "env") fields)
    ok (record {
      working_dir = str_or (get (codes "working_dir") fields) (slot_text (codes "working_dir"));
      shell = str_or (get (codes "shell") fields) (slot_text (codes "shell"));
      timezone = timezone;
      env = env;
    })

  unfoldable pub parse_project_manifest : Dict Json → Result EditError ProjectManifest
  parse_project_manifest raw_data = do
    defaults_data ← object_or_empty (get (codes "defaults") raw_data)
    defaults ← parse_defaults defaults_data
    jobs_data ← list_or_empty (get (codes "jobs") raw_data)
    jobs ← parse_jobs jobs_data
    project_value ← key_in raw_data (codes "project")
    project_data ← as_job project_value
    id ← key_in project_data (codes "id")
    version_value ← key_in raw_data (codes "version")
    version ← int_value version_value
    ok (record {
      version = version;
      project = record { id = str show id };
      jobs = jobs;
      defaults = defaults;
    })

  -- `schema_messages` is `validate_schema`, which calls jsonschema.
  module _ (schema_messages : Dict Json → List ValidationMessage) (runtime : Runtime) (host : Host)
      (project_root : Text) where
    unfoldable pub validated_manifest :
        Dict Json → Result EditError (ProjectManifest × List ValidationMessage)
    validated_manifest raw_data = do
      let (schema_errors, schema_warnings) = split_validation_messages (schema_messages raw_data)
      _ ← no_errors schema_errors
      manifest ← parse_project_manifest raw_data
      messages ← from_native (validate_semantics runtime host manifest project_root)
      let (errors, warnings) = split_validation_messages messages
      _ ← no_errors errors
      ok (manifest, schema_warnings ++ warnings)
