-- ===== src/Examples/Manifests.antt =====
-- A manifest validated, hashed and edited.
pub mod Loaded
use xcron.Base.{
  ◌≡◌, refl, true, none, some, [], ◌∷◌, Text, codes, ok, Dict, get, text_eq, All, Distinct, rstrip,
  lstrip, split, split_max, drop_word, take_word, is_digit,
}
use xcron.Contracts.{ScheduleKind, OverlapPolicy, ProjectPlan}
use xcron.Planner.{build_project_plan}
use xcron.Manifest.{JobDefinition, ProjectManifest, normalize_manifest}
use xcron.Manifest.Semantics.{
  Host, validate_semantics, split_validation_messages, job_messages, jobs_messages,
  validate_schedule, validate_timezone, is_cron_field, is_field_char,
}
use xcron.Manifest.Semantics.Accepted.{
  validate_semantics-Distinct, validate_semantics-HasFields, HasFields,
}
use xcron.Manifest.Json.{Json, entries, elements, text, dict, list}
use xcron.Manifest.Hashes.{build_manifest_hashes}
use xcron.Manifest.Hashes.Planned.{build_project_plan-hashes}
use xcron.Manifest.Editor.{
  jobs_list, project_id_in, id_of, add_manifest_job, remove_manifest_job, mutate_manifest,
  with_jobs, has_id,
}
use xcron.Manifest.Editor.Written.{IsSafe, mutate_manifest-IsSafe}
use xcron.Manifest.Editor.Edits.{remove-add}
use xcron.Examples.{demo, digest, manifest, state, backend, host}

abbrev places : Host
places = record { find_zone = λ t. ok true; exists = λ t. true; is_dir = λ t. true }

abbrev nightly : JobDefinition
nightly = record {
  id = codes "nightly";
  command = codes "true";
  schedule = record { kind = ScheduleKind.cron; value = codes "5 3 * * *" };
  description = none;
  enabled = true;
  working_dir = none;
  shell = none;
  env = [];
  overlap = OverlapPolicy.allow;
}

abbrev checked : ProjectManifest
checked = record {
  version = 1;
  project = record { id = demo };
  jobs =
      nightly
      ∷ record nightly {
        id = codes "often";
        schedule = record { kind = ScheduleKind.every; value = codes "5m" };
      }
      ∷ [];
  defaults = record {
    working_dir = codes ".";
    shell = codes "/bin/sh";
    timezone = some (codes "UTC");
    env = [];
  };
}

no_messages : validate_semantics host places checked [] ≡ ok []
unfolding validate_semantics codes validate_timezone rstrip lstrip jobs_messages job_messages
    validate_schedule split split_max drop_word is_cron_field take_word is_field_char is_digit
    text_eq
no_messages = refl

validate_semantics-Distinct_example :
    Distinct (λ j. j.qualified_id) (normalize_manifest host checked [] []).jobs
validate_semantics-Distinct_example =
    validate_semantics-Distinct host places checked [] [] [] no_messages
      (unfold split_validation_messages in refl)

validate_semantics-HasFields_example : All (HasFields host places checked []) checked.jobs
validate_semantics-HasFields_example =
    validate_semantics-HasFields host places checked [] [] no_messages
      (unfold split_validation_messages in refl)

abbrev short_hash : Json → Text
short_hash (text s) = s
short_hash value = digest

build_project_plan-hashes_example :
    (plan : ProjectPlan) × (build_project_plan manifest backend
        (build_manifest_hashes short_hash manifest).manifest_hash
        (build_manifest_hashes short_hash manifest).job_hashes
        (build_manifest_hashes short_hash manifest).job_definition_hashes
        state
      ≡ ok plan)
build_project_plan-hashes_example = build_project_plan-hashes short_hash manifest backend state

abbrev raw_job : Text → Dict Json
raw_job id = (codes "id", text id) ∷ []

abbrev raw : Dict Json
raw =
    (codes "project", dict ((codes "id", text demo) ∷ []))
    ∷ (codes "jobs", list (dict (raw_job (codes "nightly")) ∷ []))
    ∷ []

abbrev raw_after : Dict Json
raw_after = with_jobs raw (dict (raw_job (codes "nightly")) ∷ dict (raw_job (codes "often")) ∷ [])

mutate_manifest-IsSafe_example :
    IsSafe
      (λ raw. ok (checked, []))
      raw
      (mutate_manifest
        (λ raw. ok (checked, []))
        (remove_manifest_job short_hash (codes "nightly"))
        raw)
mutate_manifest-IsSafe_example =
    mutate_manifest-IsSafe (λ raw. ok (checked, []))
      (remove_manifest_job short_hash (codes "nightly")) raw

raw_jobs : jobs_list raw ≡ ok (dict (raw_job (codes "nightly")) ∷ [])
unfolding jobs_list get text_eq codes elements
raw_jobs = refl

remove-add_example :
    remove_manifest_job short_hash (id_of short_hash (raw_job (codes "often"))) raw_after
    ≡ ok (with_jobs raw_after (dict (raw_job (codes "nightly")) ∷ []), none)
unfolding project_id_in id_of get text_eq codes add_manifest_job has_id jobs_list entries elements
remove-add_example =
    remove-add short_hash (raw_job (codes "often")) raw raw_after (some (raw_job (codes "often")))
      (dict (raw_job (codes "nightly")) ∷ []) demo raw_jobs refl refl refl refl
