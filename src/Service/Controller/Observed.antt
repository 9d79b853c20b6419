-- ===== src/Service/Controller/Observed.antt =====
-- `status` leaves the machine as it is.
use xcron.Base.{
  Bool, false, ◌≡◌, refl, ◌∙◌, inl, inr, ℕ, Option, none, some, Text, codes, Result, ok, err,
  Result-cases,
}
use xcron.Contracts.{
  NormalizedManifest, ManifestHashes, ValidateProjectResult, StatusProjectResult, SchedulerRequest,
  InvocationContext,
}
use xcron.Planner.{NativeError, build_project_plan}
use xcron.Layout.{Pathlib, RuntimeLayout}
use xcron.Cron.Machine.{Machine, Run}
use xcron.Service.World.{World, Step, then_step, with_machine, ◌>>=◌, lift, reading, running, send}
use xcron.Service.Ports.{SchedulerBackend, SchedulerRuntimeOptions, ManifestPort, runtime_options}
use xcron.Service.Registry.{SchedulerRegistry, require_backend}
use xcron.Service.Validate.{deployable, validate, select_backend}
use xcron.Service.Controller.{status, status_valid, status_guarded}

-- A step after which the machine is as it was.
abbrev pub Keeps : {A : Type 0} → Step A → Type 0
Keeps step = (w : World) → (step w).0.machine ≡ w.machine

module _ {A B : Type 0} (step : Step A) (next : A → Step B) where
  pub Keeps-bind : Keeps step → ((a : A) → Keeps (next a)) → Keeps (step >>= next)
  Keeps-bind h k w = go (step w) (h w)
    where
      go :
          (r : World × Result NativeError A)
          → r.0.machine ≡ w.machine
          → (then_step r next).0.machine ≡ w.machine
      go (w', ok a) e = k a w' ∙ e
      go (w', err x) e = e

-- Where a step only computes, what follows may use what it computed.
module _ {A B : Type 0} (r : Result NativeError A) (next : A → Step B) where
  pub Keeps-lift : ((a : A) → r ≡ ok a → Keeps (next a)) → Keeps (lift r >>= next)
  Keeps-lift k w = elim (Result-cases r) [ inl (a, e) ↦ rw e (k a e w) | inr (x, e) ↦ rw e refl ]

-- What a backend has to promise: that it is looked at changes nothing.
pub record IsObservable (backend : SchedulerBackend) : Type 0 where
  pub collects :
      (project_id : Text) (options : SchedulerRuntimeOptions) (m : Machine)
      → (backend.collect_project_state project_id options m).0 ≡ m
  pub inspects :
      (project_id : Text) (options : SchedulerRuntimeOptions) (detail : Bool) (m : Machine)
      → (backend.inspect_project project_id options detail m).0 ≡ m

pub Keeps-send : (counter : Text) (amount : ℕ) → Keeps (send counter amount)
unfolding send
Keeps-send counter amount w = refl

pub Keeps-running :
    {A : Type 0} (run : Run A) → ((m : Machine) → (run m).0 ≡ m) → Keeps (running run)
Keeps-running {A = A} run h w = go (run w.machine) (h w.machine)
  where
    go :
        (r : Machine × Result NativeError A)
        → r.0 ≡ w.machine
        → (with_machine w r).0.machine ≡ w.machine
    go (m, x) e = e

module _ {Data : Type 0} (paths : Pathlib) (cwd platform : Text) (layout : RuntimeLayout)
    (port : ManifestPort Data) (registry : SchedulerRegistry)
    (observable : (name : Text) (b : SchedulerBackend)
      → require_backend registry name ≡ ok b
      → IsObservable b)
    (request : SchedulerRequest) (context : InvocationContext) where
  Keeps-status_valid :
      (validation : ValidateProjectResult) (manifest : NormalizedManifest) (hashes : ManifestHashes)
      → Keeps (
          status_valid paths cwd platform layout port registry request context validation manifest
            hashes)
  Keeps-status_valid validation manifest hashes =
      let project_id = manifest.project_id in
      let options = runtime_options paths request context in
      Keeps-lift (select_backend platform request context) _ (λ backend _.
        Keeps-lift (require_backend registry backend) _ (λ scheduler found.
          let look = observable backend scheduler found in
          let collect = scheduler.collect_project_state project_id options in
          let inspect = scheduler.inspect_project project_id options false in
          Keeps-bind (running collect) _ (Keeps-running collect (look.collects project_id options))
            (λ actual_state.
              Keeps-bind (running inspect) _
                (Keeps-running inspect (look.inspects project_id options false))
                (λ inspections.
                  Keeps-lift
                    (build_project_plan manifest backend hashes.manifest_hash hashes.job_hashes
                      hashes.job_definition_hashes actual_state)
                    _
                    (λ plan _.
                      Keeps-bind (send (codes "status.succeeded") 1) _ (Keeps-send _ 1)
                        (λ _ w'. refl))))))

  Keeps-status_guarded :
      (validation : ValidateProjectResult) (found : Option (NormalizedManifest × ManifestHashes))
      → Keeps
          (status_guarded paths cwd platform layout port registry request context validation found)
  unfolding send
  Keeps-status_guarded validation none w = refl
  Keeps-status_guarded validation (some found) w = Keeps-status_valid validation found.0 found.1 w

  pub Keeps-status : Keeps (status paths cwd platform layout port registry request context)
  unfolding status
  Keeps-status =
      let next : ValidateProjectResult → Step StatusProjectResult = λ v.
        status_guarded paths cwd platform layout port registry request context v (deployable v) in
      let look : Step ValidateProjectResult =
        reading (validate paths cwd port request.project context) in
      Keeps-bind (send (codes "status.calls") 1) (λ _. look >>= next) (Keeps-send _ 1)
        (λ _. Keeps-bind look next (λ w. refl) (λ v. Keeps-status_guarded v (deployable v)))
