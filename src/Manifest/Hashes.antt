-- ===== src/Manifest/Hashes.antt =====
-- capabilities/xcron-capability-manifest-yaml/src/xcron/capabilities/manifest_yaml/_hashes.py.
pub mod Planned
use xcron.Base.{ℕ, List, [], ◌∷◌, map, Text, codes, Dict, from_list}
use xcron.Contracts.{ScheduleKind, OverlapPolicy, NormalizedJob, NormalizedManifest, ManifestHashes}
use xcron.Manifest.Json.{Json, boolean, number, text, list, dict, text_or_null}

abbrev wrapper_renderer_version : ℕ
wrapper_renderer_version = 2

abbrev schedule_kind_value : ScheduleKind → Text
schedule_kind_value ScheduleKind.cron = codes "cron"
schedule_kind_value ScheduleKind.every = codes "every"

abbrev overlap_policy_value : OverlapPolicy → Text
overlap_policy_value OverlapPolicy.allow = codes "allow"
overlap_policy_value OverlapPolicy.forbid = codes "forbid"

-- A pair of a tuple is a list in JSON.
abbrev env_item : Text × Text → Json
env_item e = list (text e.0 ∷ text e.1 ∷ [])

abbrev pub hash_item : Text × Text → Text × Json
hash_item e = (e.0, text e.1)

-- `stable_hash`: `json.dumps` with sorted keys, and SHA-256.
module _ (stable_hash : Json → Text) where
  unfoldable pub hash_normalized_job_definition : NormalizedJob → Text
  hash_normalized_job_definition job = stable_hash (
      dict (
        (codes "project_id", text job.project_id)
        ∷ (codes "job_id", text job.job_id)
        ∷ (codes "qualified_id", text job.qualified_id)
        ∷ (codes "artifact_id", text job.artifact_id)
        ∷ (
          codes "schedule",
          dict (
              (codes "kind", text (schedule_kind_value job.schedule.kind))
              ∷ (codes "value", text job.schedule.value)
              ∷ []),
        )
        ∷ (
          codes "execution",
          dict (
              (codes "command", text job.execution.command)
              ∷ (codes "working_dir", text job.execution.working_dir)
              ∷ (codes "shell", text job.execution.shell)
              ∷ (codes "timezone", text_or_null job.execution.timezone)
              ∷ (codes "env", list (map env_item job.execution.env))
              ∷ (codes "overlap", text (overlap_policy_value job.execution.overlap))
              ∷ []),
        )
        ∷ (codes "wrapper_renderer_version", number wrapper_renderer_version)
        ∷ (codes "description", text_or_null job.description)
        ∷ []))

  unfoldable pub hash_normalized_job : NormalizedJob → Text
  hash_normalized_job job = stable_hash (
      dict (
        (codes "definition_hash", text (hash_normalized_job_definition job))
        ∷ (codes "enabled", boolean job.enabled)
        ∷ []))

  abbrev job_payload : NormalizedJob → Json
  job_payload job = dict (
      (codes "qualified_id", text job.qualified_id)
      ∷ (codes "hash", text (hash_normalized_job job))
      ∷ [])

  unfoldable pub hash_normalized_manifest : NormalizedManifest → Text
  hash_normalized_manifest manifest = stable_hash (
      dict (
        (codes "version", number manifest.version)
        ∷ (codes "project_id", text manifest.project_id)
        ∷ (codes "project_root", text manifest.project_root)
        ∷ (codes "manifest_path", text manifest.manifest_path)
        ∷ (codes "jobs", list (map job_payload manifest.jobs))
        ∷ []))

  abbrev pub job_hashes_of : List NormalizedJob → Dict Text
  job_hashes_of = from_list (λ j. j.qualified_id) hash_normalized_job

  abbrev pub definition_hashes_of : List NormalizedJob → Dict Text
  definition_hashes_of = from_list (λ j. j.qualified_id) hash_normalized_job_definition

  unfoldable pub build_manifest_hashes : NormalizedManifest → ManifestHashes
  build_manifest_hashes manifest =
      let job_hashes = job_hashes_of manifest.jobs in
      record {
        manifest_hash = stable_hash (
            dict (
              (codes "version", number manifest.version)
              ∷ (codes "project_id", text manifest.project_id)
              ∷ (codes "project_root", text manifest.project_root)
              ∷ (codes "manifest_path", text manifest.manifest_path)
              ∷ (codes "job_hashes", dict (map hash_item job_hashes))
              ∷ []));
        job_hashes = job_hashes;
        job_definition_hashes = definition_hashes_of manifest.jobs;
      }
