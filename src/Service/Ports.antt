-- ===== src/Service/Ports.antt =====
-- The ports of the service: ports.py, and the manifest port of
-- packages/xcron-contracts/src/xcron/contracts/ports.py.
use xcron.Base.{Bool, ◌&&◌, Option, none, some, List, Text, Result}
use xcron.Base.Maybe.{or_path, or_text}
use xcron.Contracts.{
  NormalizedJob, NormalizedManifest, ManifestHashes, ProjectState, PlanChange, SchedulerInspection,
  LoadedManifestDocument, ValidationReport, ProjectRequest, SchedulerRequest, InvocationContext,
}
use xcron.Planner.{NativeError}
use xcron.Layout.{Pathlib}
use xcron.Cron.Machine.{Machine, Run}
use xcron.Cron.Adapter.{DeploymentPlan}

-- The layout is left out: it is a parameter of the service.
pub record SchedulerRuntimeOptions : Type 0 where
  pub state_root : Option Text
  pub launch_agents_dir : Option Text
  pub launchctl_domain : Option Text
  pub crontab_path : Option Text
  pub manage_launchctl : Bool
  pub manage_crontab : Bool

pub record SchedulerBackend : Type 0 where
  pub name : Text
  pub collect_project_state : Text → SchedulerRuntimeOptions → Run ProjectState
  pub inspect_project : Text → SchedulerRuntimeOptions → Bool → Run (List SchedulerInspection)
  pub apply : DeploymentPlan → SchedulerRuntimeOptions → Run ProjectState
  pub prune_project : Text → SchedulerRuntimeOptions → Run (List SchedulerInspection)
  pub schedule_errors : List NormalizedJob → Result NativeError (List PlanChange)

-- What the service calls of the manifest port, which looks at the files of the machine: an
-- exception is the text that it prints as.
pub record ManifestPort (Data : Type 0) : Type 0 where
  pub load :
      ProjectRequest → InvocationContext → Machine → Result Text (LoadedManifestDocument Data)
  pub validate :
      LoadedManifestDocument Data → InvocationContext → Machine → Result Text ValidationReport
  pub hashes : NormalizedManifest → ManifestHashes

module _ (paths : Pathlib) where
  unfoldable pub resolve_path : Option Text → Option Text
  resolve_path none = none
  resolve_path (some path) = some (paths.resolve path)

  -- `SchedulerRuntimeOptions.create`
  unfoldable pub create_options :
      Option Text → Option Text → Option Text → Option Text → Bool → Bool → SchedulerRuntimeOptions
  create_options state_root agents_dir domain crontab_path manage_launchctl manage_crontab =
      record {
        state_root = resolve_path state_root;
        launch_agents_dir = resolve_path agents_dir;
        launchctl_domain = domain;
        crontab_path = resolve_path crontab_path;
        manage_launchctl = manage_launchctl;
        manage_crontab = manage_crontab;
      }

  -- `_options`: the request before the options before the settings, and each may switch the
  -- management of the host's scheduler off.
  unfoldable pub runtime_options : SchedulerRequest → InvocationContext → SchedulerRuntimeOptions
  runtime_options request context =
      let options = context.options in
      let settings = context.settings in
      create_options (or_path request.state_root (or_path options.state_root settings.state_root))
        (or_path request.launch_agents_dir
          (or_path options.launch_agents_dir settings.launch_agents_dir))
        (or_text request.launchctl_domain
          (or_text options.launchctl_domain settings.launchctl_domain))
        (or_path request.crontab_path (or_path options.crontab_path settings.crontab_path))
        (request.manage_launchctl && options.manage_launchctl && settings.manage_launchctl)
        (request.manage_crontab && options.manage_crontab && settings.manage_crontab)
