-- ===== src/Service/Controller/Applied.antt =====
-- An apply through the cron backend, and the status that is shown after it.
use xcron.Base.{
  Bool, true, false, ◌≡◌, refl, ap, ◌∙◌, ℕ, Option, none, some, List, [], ◌∷◌, ◌++◌, map, Text,
  codes, Result, ok, err, length,
}
use xcron.Contracts.{
  NormalizedManifest, ManifestHashes, ValidateProjectResult, ApplyProjectResult,
  StatusProjectResult, SchedulerRequest, InvocationContext, ProjectPlan, ProjectState,
}
use xcron.Planner.{NativeError, build_project_plan, build_status_entries}
use xcron.Layout.{Pathlib, RuntimeLayout}
use xcron.Cron.Machine.{Machine, Run, CrontabCommand, read_crontab, and_then, listed}
use xcron.Cron.Schedule.{cron_schedule_errors}
use xcron.Cron.Inspect.{CronInspection}
use xcron.Cron.Adapter.{
  DeploymentPlan, found_state, cron_name, inspect_cron_project, collect_cron_project_state,
  apply_cron_plan,
}
use xcron.Service.World.{World, send}
use xcron.Service.Ports.{SchedulerRuntimeOptions, ManifestPort, runtime_options}
use xcron.Service.Registry.{
  SchedulerRegistry, require_backend, cron_backend, cron_inspection, each, mapped,
}
use xcron.Service.Validate.{deployable, guarded, validate, select_backend}
use xcron.Service.Controller.{
  status, apply, deployment_of, state_path_of, apply_result, plan_result,
}
use xcron.Service.Controller.Observed.{IsObservable}

module _ {A B : Type 0} (m : Machine) (next : A → Run B) where
  and_then-reads :
      (r : Machine × Result NativeError A)
      → r.0 ≡ m
      → ((a : A) (m' : Machine) → (next a m').0 ≡ m')
      → (and_then r next).0 ≡ m
  and_then-reads (m', ok a) e h = h a m' ∙ e
  and_then-reads (m', err x) e h = e

module _ {A B : Type 0} (f : A → B) (run : Run (List A)) (m : Machine) where
  each-reads : (run m).0 ≡ m → (each f run m).0 ≡ m
  each-reads h = go (run m) h
    where
      go : (r : Machine × Result NativeError (List A)) → r.0 ≡ m → (mapped f r).0 ≡ m
      go (m', ok xs) e = e
      go (m', err x) e = e

module _ (paths : Pathlib) (command : CrontabCommand) where
  inspect_cron_project-reads :
      (project_id : Text) (crontab_path : Option Text) (m : Machine)
      → (inspect_cron_project paths command project_id crontab_path m).0 ≡ m
  unfolding inspect_cron_project read_crontab
  inspect_cron_project-reads project_id none m =
      and_then-reads m _ (m, listed (command.list m)) refl (λ content m'. refl)
  inspect_cron_project-reads project_id (some path) m = refl

  collect_cron_project_state-reads :
      (project_id : Text) (crontab_path : Option Text) (m : Machine)
      → (collect_cron_project_state paths command project_id crontab_path m).0 ≡ m
  unfolding collect_cron_project_state
  collect_cron_project_state-reads project_id crontab_path m =
      and_then-reads m _ (inspect_cron_project paths command project_id crontab_path m)
        (inspect_cron_project-reads project_id crontab_path m) (λ items m'. refl)

  -- Looking at the crontab changes nothing.
  pub cron_backend-IsObservable :
      (layout : RuntimeLayout) (now : Text) → IsObservable (cron_backend paths layout command now)
  unfolding cron_backend
  cron_backend-IsObservable layout now = record {
    collects =
        λ project_id options m. collect_cron_project_state-reads project_id options.crontab_path m;
    inspects = λ project_id options detail m.
        each-reads _ (inspect_cron_project paths command project_id options.crontab_path) m
          (inspect_cron_project-reads project_id options.crontab_path m);
  }

  -- What can be collected can be inspected.
  collect-inspect :
      (project_id : Text) (crontab_path : Option Text) (m : Machine) (state : ProjectState)
      → collect_cron_project_state paths command project_id crontab_path m ≡ (m, ok state)
      → (items : List CronInspection) × (inspect_cron_project paths command project_id crontab_path
            m
          ≡ (m, ok items))
  unfolding collect_cron_project_state
  collect-inspect project_id crontab_path m state h =
      go (inspect_cron_project paths command project_id crontab_path m)
        (inspect_cron_project-reads project_id crontab_path m) h
    where
      go :
          (r : Machine × Result NativeError (List CronInspection))
          → r.0 ≡ m
          → and_then r (λ (items : List CronInspection) (m' : Machine).
            (m', ok (found_state project_id items)))
            ≡ (m, ok state)
          → (items : List CronInspection) × (r ≡ (m, ok items))
      go (m', ok items) e k = (items, ap (λ x. (x, ok items)) e)
      go (m', err x) e k = absurd (cc (ap (λ p. p.1) k))

-- The three guards of a valid project.
deployable-eq-some :
    (v : ValidateProjectResult) (manifest : NormalizedManifest) (hashes : ManifestHashes)
    → deployable v ≡ some (manifest, hashes)
    → (v.normalized_manifest ≡ some manifest) × (v.hashes ≡ some hashes)
unfolding deployable
deployable-eq-some v manifest hashes h = go v.valid v.normalized_manifest v.hashes h
  where
    go :
        (valid : Bool) (n : Option NormalizedManifest) (hs : Option ManifestHashes)
        → guarded valid n hs ≡ some (manifest, hashes)
        → (n ≡ some manifest) × (hs ≡ some hashes)
    go true (some n) (some hs) k = (
      ap (λ o. elim o [ none ↦ none | some d ↦ some d.0 ]) k,
      ap (λ o. elim o [ none ↦ none | some d ↦ some d.1 ]) k,
    )
    go true (some n) none k = absurd (cc)
    go true none hs k = absurd (cc)
    go false n hs k = absurd (cc)

module _ {Data : Type 0} (paths : Pathlib) (cwd platform : Text) (layout : RuntimeLayout)
    (port : ManifestPort Data) (registry : SchedulerRegistry) (command : CrontabCommand)
    (now : Text) (request : SchedulerRequest) (context : InvocationContext) where
  abbrev pub options : SchedulerRuntimeOptions
  options = runtime_options paths request context

  abbrev pub validated : Machine → ValidateProjectResult
  validated = validate paths cwd port request.project context

  -- The project is valid, and its crontab, which is the file `path`, can be read and compared.
  pub record IsShown (path : Text) (manifest : NormalizedManifest) (hashes : ManifestHashes)
      (m : Machine) (state : ProjectState) (plan : ProjectPlan) : Type 0 where
    pub valid : deployable (validated m) ≡ some (manifest, hashes)
    pub chosen : select_backend platform request context ≡ ok cron_name
    pub registered : require_backend registry cron_name ≡ ok (cron_backend paths layout command now)
    pub in_file : options.crontab_path ≡ some path
    pub collected :
        collect_cron_project_state paths command manifest.project_id (some path) m ≡ (m, ok state)
    pub planned :
        build_project_plan manifest cron_name hashes.manifest_hash hashes.job_hashes
          hashes.job_definition_hashes state
        ≡ ok plan

  abbrev pub shown_of :
      ValidateProjectResult → ProjectPlan → List CronInspection → StatusProjectResult
  shown_of validation plan items = record {
    valid = true;
    backend = some cron_name;
    validation = validation;
    plan = some plan;
    statuses = build_status_entries plan;
    inspections = map cron_inspection items;
  }

  -- The world after a status of a valid project.
  abbrev pub looked : World → World
  looked w = record w {
    sent = (w.sent ++ (codes "status.calls", 1) ∷ []) ++ (codes "status.succeeded", 1) ∷ [];
  }

  module _ (path : Text) (manifest : NormalizedManifest) (hashes : ManifestHashes) (w : World)
      (state : ProjectState) (plan : ProjectPlan)
      (h : IsShown path manifest hashes w.machine state plan) where
    pub status-shown :
        (items : List CronInspection) × (status paths cwd platform layout port registry request
            context w
          ≡ (looked w, ok (shown_of (validated w.machine) plan items)))
    unfolding status send cron_backend
    status-shown =
        let (items, inspected) =
          collect-inspect paths command manifest.project_id (some path) w.machine state
            h.collected in
        (
          items,
          rw (h.valid, h.chosen, h.registered, h.in_file, h.collected, inspected, h.planned) refl,
        )

  abbrev pub called : World → World
  called w = record w { sent = w.sent ++ (codes "apply.calls", 1) ∷ [] }

  abbrev pub sent_more : World → Text → ℕ → World
  sent_more w counter amount = record w { sent = w.sent ++ (counter, amount) ∷ [] }

  module _ (path : Text) (manifest : NormalizedManifest) (hashes : ManifestHashes) (w : World)
      (state : ProjectState) (plan : ProjectPlan)
      (h : IsShown path manifest hashes w.machine state plan) where
    abbrev pub deployment : DeploymentPlan
    deployment =
        deployment_of paths cwd platform layout port registry request context cron_name plan
          (state_path_of paths cwd platform layout port registry request context
            manifest.project_id)
          hashes

    pub apply-shown :
        (m' : Machine) (applied : ProjectState)
        → options.manage_crontab ≡ true
        → cron_schedule_errors plan.manifest.jobs ≡ ok []
        → apply_cron_plan layout command options.state_root
            (some path)
            true
            deployment
            now
            w.machine
          ≡ (m', ok applied)
        → (w' : World) × (result : ApplyProjectResult) × (apply paths cwd platform layout port
              registry request context w
            ≡ (w', ok result))
          × (result.valid ≡ true)
          × (w'.machine ≡ m')
    unfolding apply send cron_backend
    apply-shown m' applied managed accepted ran =
        let (items, shown) = status-shown path manifest hashes (called w) state plan h in
        let (normalized, hashed) =
          deployable-eq-some (validated w.machine) manifest hashes h.valid in
        let after : World = record (looked (called w)) { machine = m' } in
        (
          sent_more (sent_more after (codes "apply.succeeded") 1) (codes "jobs.applied")
              (length applied.jobs),
          apply_result paths cwd platform layout port registry request context true cron_name
              (plan_result paths cwd platform layout port registry request context
                (validated w.machine) manifest.project_id cron_name plan)
              (some applied),
          rw (shown, normalized, hashed, h.registered, accepted, h.in_file, managed, ran) refl,
          refl,
          refl,
        )
