-- ===== src/Service/Controller/Converged.antt =====
-- After an apply through the cron backend, the status shows every job as deployed.
use mathlib.Core.List.{Perm}
use xcron.Base.{
  map, Dict, >>=-eq-ok, true, ◌≡◌, ap, ◌∙◌, sym, some, List, [], ◌∷◌, Text, Result, ok, err,
  Distinct, subst,
}
use xcron.Contracts.{
  NormalizedManifest, ManifestHashes, ApplyProjectResult, StatusProjectResult, SchedulerRequest,
  InvocationContext, ProjectPlan, ProjectState,
}
use xcron.Planner.{NativeError, build_project_plan, desired_changes, deployed_index}
use xcron.Planner.Quiet.{id_and_kind, shown_deployed, statuses-perm}
use xcron.Layout.{Pathlib, RuntimeLayout}
use xcron.Cron.Machine.{Machine, CrontabCommand}
use xcron.Cron.Schedule.{cron_schedule_errors}
use xcron.Cron.Adapter.{cron_name, collect_cron_project_state, apply_cron_plan}
use xcron.Cron.Adapter.Render.{jobs_of}
use xcron.Cron.Adapter.Apply.{IsApplicable}
use xcron.Cron.Adapter.Settled.{apply_cron_plan-settled, state_after}
use xcron.Cron.Inspect.RoundTrip.{Entry}
use xcron.Service.World.{World}
use xcron.Service.Ports.{ManifestPort}
use xcron.Service.Registry.{SchedulerRegistry}
use xcron.Service.Validate.{deployable}
use xcron.Service.Controller.{status, apply}
use xcron.Service.Controller.Applied.{
  IsShown, options, validated, deployment, status-shown, apply-shown,
}

plan-manifest :
    (manifest : NormalizedManifest) (backend manifest_hash : Text)
    (job_hashes definition_hashes : Dict Text) (state : ProjectState) (plan : ProjectPlan)
    → build_project_plan manifest backend manifest_hash job_hashes definition_hashes state ≡ ok plan
    → plan.manifest ≡ manifest
unfolding build_project_plan
plan-manifest manifest backend manifest_hash job_hashes definition_hashes state plan h =
    let (changes, _, made) =
      >>=-eq-ok
        (desired_changes backend job_hashes definition_hashes (deployed_index state.jobs)
          manifest.jobs)
        _ h in
    ap (λ (r : Result NativeError ProjectPlan). elim r [ ok p ↦ p.manifest | err x ↦ manifest ])
      (sym made)

module _ {Data : Type 0} (paths : Pathlib) (cwd platform : Text) (layout : RuntimeLayout)
    (port : ManifestPort Data) (registry : SchedulerRegistry) (command : CrontabCommand)
    (now : Text) (request : SchedulerRequest) (context : InvocationContext) where
  -- The project is valid and shown, its jobs can be applied to the crontab in the file `path`, and
  -- applying them leaves the manifest as it is.
  pub record IsPrepared (path : Text) (manifest : NormalizedManifest) (hashes : ManifestHashes)
      (w : World) (state : ProjectState) (plan : ProjectPlan) (e : Entry) (es : List Entry)
      : Type 0 where
    pub shown :
        IsShown paths cwd platform layout port registry command now request context path manifest
          hashes w.machine state plan
    pub managed :
        (options paths cwd platform layout port registry command now request context).manage_crontab
        ≡ true
    pub accepted : cron_schedule_errors plan.manifest.jobs ≡ ok []
    pub applicable :
        IsApplicable paths layout command
          (options paths cwd platform layout port registry command now request context).state_root
          path
          (deployment paths cwd platform layout port registry command now request context path
            manifest hashes w state plan shown)
          e
          es
          w.machine
    pub distinct : Distinct (λ j. j.qualified_id) (jobs_of (e ∷ es))
    pub stable :
        (m' : Machine) (applied : ProjectState)
        → apply_cron_plan layout command
            (options paths cwd platform layout port registry command now request context).state_root
            (some path)
            true
            (deployment paths cwd platform layout port registry command now request context path
              manifest hashes w state plan shown)
            now
            w.machine
          ≡ (m', ok applied)
        → validated paths cwd platform layout port registry command now request context m'
          ≡ validated paths cwd platform layout port registry command now request context w.machine

  -- Where the project is valid and its crontab can be read, where its jobs, at least one and with
  -- distinct ids, are accepted by the policy and can be applied to a crontab in a file, and where
  -- the manifest is the same after that, an apply reports that it is valid, and the status that is
  -- shown then has, up to order, one entry for each job of the manifest and no other: the job's id
  -- as ok where the job is enabled, and as disabled where it is not.
  pub apply-status :
      (path : Text) (manifest : NormalizedManifest) (hashes : ManifestHashes) (w : World)
      (state : ProjectState) (plan : ProjectPlan) (e : Entry) (es : List Entry)
      → IsPrepared path manifest hashes w state plan e es
      → (w' : World) × (result : ApplyProjectResult) × (w'' : World) × (shown : StatusProjectResult)
        × (apply paths cwd platform layout port registry request context w ≡ (w', ok result))
        × (result.valid ≡ true)
        × (status paths cwd platform layout port registry request context w' ≡ (w'', ok shown))
        × Perm (map id_and_kind shown.statuses) (map shown_deployed manifest.jobs)
  apply-status path manifest hashes w state plan e es h =
      let (m', applied, plan', ran, there, made, quiet) =
        apply_cron_plan-settled paths layout command
          (options paths cwd platform layout port registry command now request context).state_root
          path
          (deployment paths cwd platform layout port registry command now request context path
            manifest hashes w state plan h.shown)
          now e es w.machine h.applicable h.distinct in
      let (w', result, done, valid, reached) =
        apply-shown paths cwd platform layout port registry command now request context path
          manifest hashes w state plan h.shown m' applied h.managed h.accepted ran in
      let collected =
        state_after paths layout command
          (options paths cwd platform layout port registry command now request context).state_root
          path
          (deployment paths cwd platform layout port registry command now request context path
            manifest hashes w state plan h.shown)
          now e es w.machine h.applicable in
      let same =
        plan-manifest manifest cron_name hashes.manifest_hash hashes.job_hashes
          hashes.job_definition_hashes state plan h.shown.planned in
      let again : IsShown paths cwd platform layout port registry command now request context path
          manifest hashes m' collected plan' =
        record {
          valid = ap deployable (h.stable m' applied ran) ∙ h.shown.valid;
          chosen = h.shown.chosen;
          registered = h.shown.registered;
          in_file = h.shown.in_file;
          collected =
              subst
                (λ (m : NormalizedManifest).
                  collect_cron_project_state paths command m.project_id (some path) m'
                  ≡ (m', ok collected))
                same there;
          planned =
              subst
                (λ (m : NormalizedManifest).
                  build_project_plan m cron_name hashes.manifest_hash hashes.job_hashes
                    hashes.job_definition_hashes collected
                  ≡ ok plan')
                same made;
        } in
      let (items, seen) =
        status-shown paths cwd platform layout port registry command now request context path
          manifest hashes w' collected plan'
          (subst
            (λ m.
              IsShown paths cwd platform layout port registry command now request context path
                manifest hashes m collected plan')
            (sym reached) again) in
      (
        w',
        result,
        _,
        _,
        done,
        valid,
        seen,
        statuses-perm manifest cron_name hashes.manifest_hash hashes.job_hashes
            hashes.job_definition_hashes collected plan' again.planned quiet,
      )
