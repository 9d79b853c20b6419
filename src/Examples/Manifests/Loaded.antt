-- ===== src/Examples/Manifests/Loaded.antt =====
-- A manifest that a mutation validates: its raw data parsed and checked.
use xcron.Base.{
  ◌≡◌, refl, true, some, List, [], ◌∷◌, Text, codes, ok, Dict, get, text_eq, Distinct, put_all, put,
}
use xcron.Contracts.{ValidationMessage}
use xcron.Manifest.{normalize_manifest}
use xcron.Manifest.Json.{Json, number, text, dict, list, entries, elements, json_eq}
use xcron.Manifest.Semantics.{split_validation_messages}
use xcron.Manifest.Editor.{
  ManifestMutationResult, mutate_manifest, add_manifest_job, jobs_list, has_id, id_of,
}
use xcron.Manifest.Loader.{
  parse_project_manifest, parse_defaults, parse_jobs, parse_job_definition, parse_env,
  validated_manifest,
}
use xcron.Manifest.Loader.Validated.{mutate_manifest-Distinct}
use xcron.Examples.{demo, host}
use xcron.Examples.Manifests.{places, short_hash, checked, no_messages}

abbrev raw_job : Text → Dict Json → Dict Json
raw_job id schedule =
    (codes "id", text id)
    ∷ (codes "command", text (codes "true"))
    ∷ (codes "schedule", dict schedule)
    ∷ []

abbrev nightly : Dict Json
nightly = raw_job (codes "nightly") ((codes "cron", text (codes "5 3 * * *")) ∷ [])

abbrev often : Dict Json
often = raw_job (codes "often") ((codes "every", text (codes "5m")) ∷ [])

abbrev project_with : List Json → Dict Json
project_with jobs =
    (codes "version", number 1)
    ∷ (codes "project", dict ((codes "id", text demo) ∷ []))
    ∷ (
      codes "defaults",
      dict (
          (codes "working_dir", text (codes "."))
          ∷ (codes "shell", text (codes "/bin/sh"))
          ∷ (codes "timezone", text (codes "UTC"))
          ∷ []),
    )
    ∷ (codes "jobs", list jobs)
    ∷ []

abbrev stored : Dict Json
stored = project_with (dict nightly ∷ [])

abbrev raw_project : Dict Json
raw_project = project_with (dict nightly ∷ dict often ∷ [])

abbrev no_schema : Dict Json → List ValidationMessage
no_schema raw = []

raw_project-parsed : parse_project_manifest short_hash raw_project ≡ ok checked
unfolding parse_project_manifest parse_defaults parse_jobs parse_job_definition parse_env get
    text_eq codes entries elements put_all
raw_project-parsed = refl

abbrev result : ManifestMutationResult
result = record {
  manifest = checked;
  raw_data = raw_project;
  job_data = some often;
  changed = true;
  warnings = [];
}

raw_project-validated :
    validated_manifest short_hash no_schema host places [] raw_project ≡ ok (checked, [])
unfolding validated_manifest split_validation_messages
raw_project-validated = rw (raw_project-parsed, no_messages) refl

often-added : add_manifest_job short_hash often stored ≡ ok (raw_project, some often)
unfolding add_manifest_job jobs_list has_id id_of put get text_eq codes entries elements
often-added = refl

stored-mutated :
    mutate_manifest
      (validated_manifest short_hash no_schema host places [])
      (add_manifest_job short_hash often)
      stored
    ≡ (raw_project, ok result)
unfolding mutate_manifest json_eq text_eq codes
stored-mutated = rw (often-added, raw_project-validated) refl

mutate_manifest-Distinct_example :
    Distinct (λ j. j.qualified_id) (normalize_manifest host checked [] []).jobs
mutate_manifest-Distinct_example =
    mutate_manifest-Distinct short_hash no_schema host places [] (add_manifest_job short_hash often)
      stored raw_project result stored-mutated
