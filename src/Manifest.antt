-- ===== src/Manifest.antt =====
-- The raw manifest of packages/xcron-contracts/src/xcron/contracts/domain.py, and
-- capabilities/xcron-capability-manifest-yaml/src/xcron/capabilities/manifest_yaml/
-- _normalization.py, which merges its defaults into the jobs.
pub mod Identity
pub mod Semantics
pub mod Json
pub mod Hashes
pub mod Editor
pub mod Loader
use xcron.Base.{
  Bool, true, false, not, ◌||◌, if◌then◌else◌, nat_eq, ℕ, Option, none, some, List, [], ◌∷◌, map,
  Text, text_Eq, ◌==◌, text_leb, Dict, put, sort,
}
use xcron.Contracts.{
  ScheduleDefinition, OverlapPolicy, NormalizedJob, NormalizedManifest, build_qualified_job_id,
}
use xcron.Planner.{some_or_else}

pub record ProjectConfig : Type 0 where
  pub id : Text

pub record DefaultsConfig : Type 0 where
  pub working_dir : Text
  pub shell : Text
  pub timezone : Option Text
  pub env : Dict Text

pub record JobDefinition : Type 0 where
  pub id : Text
  pub command : Text
  pub schedule : ScheduleDefinition
  pub description : Option Text
  pub enabled : Bool
  pub working_dir : Option Text
  pub shell : Option Text
  pub env : Dict Text
  pub overlap : OverlapPolicy

pub record ProjectManifest : Type 0 where
  pub version : ℕ
  pub project : ProjectConfig
  pub jobs : List JobDefinition
  pub defaults : DefaultsConfig

-- What is called of `str` and of pathlib: `char.isalnum()`, `Path(text).expanduser()`,
-- `is_absolute()`, `root / path` and `resolve()`, on the texts that paths print as.
pub record Runtime : Type 0 where
  pub is_alnum : ℕ → Bool
  pub expanduser : Text → Text
  pub is_absolute : Text → Bool
  pub join : Text → Text → Text
  pub resolve : Text → Text

abbrev pub env_leb : Text × Text → Text × Text → Bool
env_leb a b = if a.0 == b.0 then text_leb a.1 b.1 else text_leb a.0 b.0

-- `tuple(sorted(env.items()))`
abbrev pub stable_env_items : Dict Text → Dict Text
stable_env_items env = sort env_leb env

-- `env.update(other)`
unfoldable pub update_env : Dict Text → Dict Text → Dict Text
update_env env [] = env
update_env env ((key, value) ∷ other) = update_env (put key value env) other

abbrev pub job_leb : JobDefinition → JobDefinition → Bool
job_leb a b = text_leb a.id b.id

module _ (runtime : Runtime) where
  open runtime use {is_alnum, expanduser, is_absolute, join, resolve}

  unfoldable pub build_artifact_id : Text → Text → Text
  build_artifact_id project_id job_id =
      map (λ c. if is_alnum c || nat_eq c b'-' || nat_eq c b'_' || nat_eq c b'.' then c else b'-')
        (build_qualified_job_id project_id job_id)

  unfoldable pub resolve_working_dir : Text → Text → Text
  resolve_working_dir project_root value =
      let candidate = expanduser value in
      resolve (if is_absolute candidate then candidate else join project_root candidate)

  unfoldable pub normalize_job : ProjectManifest → Text → JobDefinition → NormalizedJob
  normalize_job manifest project_root job =
      let defaults = manifest.defaults in
      record {
        project_id = manifest.project.id;
        job_id = job.id;
        qualified_id = build_qualified_job_id manifest.project.id job.id;
        artifact_id = build_artifact_id manifest.project.id job.id;
        enabled = job.enabled;
        schedule = job.schedule;
        execution = record {
          command = job.command;
          working_dir =
              resolve_working_dir project_root (some_or_else job.working_dir defaults.working_dir);
          shell = some_or_else job.shell defaults.shell;
          timezone = defaults.timezone;
          env = stable_env_items (update_env defaults.env job.env);
          overlap = job.overlap;
        };
        description = job.description;
      }

  unfoldable pub normalize_manifest : ProjectManifest → Text → Text → NormalizedManifest
  normalize_manifest manifest project_root manifest_path = record {
    version = manifest.version;
    project_id = manifest.project.id;
    project_root = resolve project_root;
    manifest_path = resolve manifest_path;
    jobs = map (normalize_job manifest project_root) (sort job_leb manifest.jobs);
  }
