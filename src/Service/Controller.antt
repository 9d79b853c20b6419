-- ===== src/Service/Controller.antt =====
-- `NativeScheduleController` of service.py.
pub mod Observed
pub mod Rejected
pub mod Applied
pub mod Converged
use xcron.Base.{
  Bool, true, false, ◌&&◌, if◌then◌else◌, is_empty, length, ℕ, Option, none, some, List, [], ◌∷◌,
  ◌++◌, Text, codes, Result, ok, err,
}
use xcron.Base.Maybe.{or_path, or_text}
use xcron.Contracts.{
  NormalizedManifest, ManifestHashes, ValidationReport, LoadedManifestDocument, PlanChange,
  ProjectPlan, ProjectState, ValidateProjectResult, PlanProjectResult, StatusProjectResult,
  ApplyProjectResult, PruneProjectResult, ProjectRequest, SchedulerRequest, InvocationContext,
}
use xcron.Planner.{NativeError, runtime_error, build_project_plan, build_status_entries}
use xcron.Layout.{Pathlib, RuntimeLayout}
use xcron.Cron.Machine.{Machine}
use xcron.Cron.Adapter.{DeploymentPlan}
use xcron.Service.World.{
  World, Step, ◌>>=◌, ◌>>◌, return, lift, reading, running, send, load_project_state,
  delete_project_state,
}
use xcron.Service.Ports.{SchedulerBackend, SchedulerRuntimeOptions, ManifestPort, runtime_options}
use xcron.Service.Registry.{
  SchedulerRegistry, require_backend, default_backend_for_current_platform,
}
use xcron.Service.Validate.{deployable, validate, select_backend}

-- `cwd` is `Path.cwd()`, `platform` is `sys.platform`.
module _ {Data : Type 0} (paths : Pathlib) (cwd platform : Text) (layout : RuntimeLayout)
    (port : ManifestPort Data) (registry : SchedulerRegistry) where
  module _ (request : SchedulerRequest) (context : InvocationContext) where
    abbrev options : SchedulerRuntimeOptions
    options = runtime_options paths request context

    abbrev with_errors : ProjectPlan → List PlanChange → ProjectPlan
    with_errors plan [] = plan
    with_errors plan (e ∷ es) = record plan { changes = plan.changes ++ (e ∷ es) }

    abbrev state_path_of : Text → Text
    state_path_of project_id = layout.project_state_path project_id options.state_root

    abbrev no_plan : ValidateProjectResult → PlanProjectResult
    no_plan validation = record {
      valid = false;
      validation = validation;
      backend = none;
      state_path = none;
      changes = [];
      plan = none;
    }

    abbrev plan_result : ValidateProjectResult → Text → Text → ProjectPlan → PlanProjectResult
    plan_result validation project_id backend plan = record {
      valid = true;
      validation = validation;
      backend = some backend;
      state_path = some (state_path_of project_id);
      changes = plan.changes;
      plan = some plan;
    }

    abbrev plan_valid :
        ValidateProjectResult → NormalizedManifest → ManifestHashes → Step PlanProjectResult
    plan_valid validation manifest hashes = do
      backend ← lift (select_backend platform request context)
      state ← reading (load_project_state layout options.state_root manifest.project_id backend)
      plan ← lift (
          build_project_plan manifest backend hashes.manifest_hash hashes.job_hashes
            hashes.job_definition_hashes state)
      scheduler ← lift (require_backend registry backend)
      errors ← lift (scheduler.schedule_errors manifest.jobs)
      return (plan_result validation manifest.project_id backend (with_errors plan errors))

    abbrev plan_guarded :
        ValidateProjectResult
        → Option (NormalizedManifest × ManifestHashes)
        → Step PlanProjectResult
    plan_guarded validation none = return (no_plan validation)
    plan_guarded validation (some found) = plan_valid validation found.0 found.1

    unfoldable pub plan : Step PlanProjectResult
    plan = do
      validation ← reading (validate paths cwd port request.project context)
      plan_guarded validation (deployable validation)

    abbrev no_status : ValidateProjectResult → StatusProjectResult
    no_status validation = record {
      valid = false;
      backend = none;
      validation = validation;
      plan = none;
      statuses = [];
      inspections = [];
    }

    abbrev status_valid :
        ValidateProjectResult → NormalizedManifest → ManifestHashes → Step StatusProjectResult
    status_valid validation manifest hashes = do
      backend ← lift (select_backend platform request context)
      scheduler ← lift (require_backend registry backend)
      actual_state ← running (scheduler.collect_project_state manifest.project_id options)
      inspections ← running (scheduler.inspect_project manifest.project_id options false)
      plan ← lift (
          build_project_plan manifest backend hashes.manifest_hash hashes.job_hashes
            hashes.job_definition_hashes actual_state)
      send (codes "status.succeeded") 1
      return (record {
        valid = true;
        backend = some backend;
        validation = validation;
        plan = some plan;
        statuses = build_status_entries plan;
        inspections = inspections;
      })

    abbrev status_guarded :
        ValidateProjectResult
        → Option (NormalizedManifest × ManifestHashes)
        → Step StatusProjectResult
    status_guarded validation none = do
      send (codes "status.failed") 1
      return (no_status validation)
    status_guarded validation (some found) = status_valid validation found.0 found.1

    unfoldable pub status : Step StatusProjectResult
    status = do
      send (codes "status.calls") 1
      validation ← reading (validate paths cwd port request.project context)
      status_guarded validation (deployable validation)

    abbrev deployment_of : Text → ProjectPlan → Text → ManifestHashes → DeploymentPlan
    deployment_of backend plan state_path hashes = record {
      backend = backend;
      plan = plan;
      state_path = state_path;
      manifest_hash = hashes.manifest_hash;
      job_hashes = hashes.job_hashes;
      job_definition_hashes = hashes.job_definition_hashes;
    }

    abbrev apply_result : Bool → Text → PlanProjectResult → Option ProjectState → ApplyProjectResult
    apply_result valid backend planned applied = record {
      valid = valid;
      backend = some backend;
      plan_result = planned;
      applied_state = applied;
    }

    abbrev announced : ProjectState → ApplyProjectResult → Step ApplyProjectResult
    announced applied_state result = do
      send (codes "apply.succeeded") 1
      send (codes "jobs.applied") (length applied_state.jobs)
      return result

    abbrev deploy :
        SchedulerBackend
        → Text
        → ProjectPlan
        → PlanProjectResult
        → Text
        → ManifestHashes
        → List PlanChange
        → Step ApplyProjectResult
    deploy scheduler backend made planned state_path hashes [] = do
      applied_state ←
          running (scheduler.apply (deployment_of backend made state_path hashes) options)
      announced applied_state (apply_result true backend planned (some applied_state))
    deploy scheduler backend made planned state_path hashes (e ∷ es) = do
      send (codes "apply.failed") 1
      return (apply_result false backend planned none)

    abbrev apply_valid :
        ValidateProjectResult
        → Text
        → ProjectPlan
        → Option NormalizedManifest
        → Option ManifestHashes
        → Step ApplyProjectResult
    apply_valid validation backend made (some manifest) (some hashes) = do
      scheduler ← lift (require_backend registry backend)
      errors ← lift (scheduler.schedule_errors made.manifest.jobs)
      deploy scheduler backend made (plan_result validation manifest.project_id backend made)
          (state_path_of manifest.project_id) hashes errors
    apply_valid validation backend made _ _ =
        lift (err (runtime_error (codes "valid native status unexpectedly lacks deployment data")))

    abbrev apply_status :
        StatusProjectResult → Bool → Option Text → Option ProjectPlan → Step ApplyProjectResult
    apply_status shown true (some backend) (some plan) =
        apply_valid shown.validation backend plan shown.validation.normalized_manifest
          shown.validation.hashes
    apply_status shown _ _ _ = do
      send (codes "apply.failed") 1
      return (record {
        valid = false;
        backend = none;
        plan_result = no_plan shown.validation;
        applied_state = none;
      })

    unfoldable pub apply : Step ApplyProjectResult
    apply = do
      send (codes "apply.calls") 1
      shown ← status
      apply_status shown shown.valid shown.backend shown.plan

    abbrev prune_valid : NormalizedManifest → Step PruneProjectResult
    prune_valid manifest = do
      backend ← lift (select_backend platform request context)
      scheduler ← lift (require_backend registry backend)
      removed ← running (scheduler.prune_project manifest.project_id options)
      delete_project_state layout options.state_root manifest.project_id
      return (record {
        valid = true;
        backend = some backend;
        project_id = some manifest.project_id;
        removed = removed;
        error = none;
      })

    abbrev prune_guarded : Bool → Option NormalizedManifest → Step PruneProjectResult
    prune_guarded true (some manifest) = prune_valid manifest
    prune_guarded _ _ = return (record {
      valid = false;
      backend = none;
      project_id = none;
      removed = [];
      error = some (codes "project validation failed");
    })

    unfoldable pub prune : Step PruneProjectResult
    prune = do
      validation ← reading (validate paths cwd port request.project context)
      prune_guarded validation.valid validation.normalized_manifest
