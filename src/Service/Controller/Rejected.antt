-- ===== src/Service/Controller/Rejected.antt =====
-- What a refused `apply` leaves as it is.
use xcron.Base.{
  Bool, true, false, ◌≡◌, ap, ◌∙◌, sym, inl, inr, Option, none, some, List, [], ◌∷◌, Text, codes,
  Result, ok, err, Result-cases,
}
use xcron.Contracts.{
  NormalizedManifest, ManifestHashes, ValidateProjectResult, ApplyProjectResult,
  StatusProjectResult, SchedulerRequest, InvocationContext, ProjectPlan, ProjectState, PlanChange,
  PlanProjectResult,
}
use xcron.Planner.{NativeError}
use xcron.Layout.{Pathlib, RuntimeLayout}
use xcron.Service.World.{World, Step, then_step, ◌>>=◌, lift, running, send}
use xcron.Service.Ports.{SchedulerBackend, ManifestPort, runtime_options}
use xcron.Service.Registry.{SchedulerRegistry, require_backend}
use xcron.Service.Controller.{
  apply, deploy, deployment_of, announced, apply_result, apply_valid, apply_status,
}
use xcron.Service.Controller.Observed.{Keeps, Keeps-send, Keeps-status, IsObservable}

abbrev valid_of : World × Result NativeError ApplyProjectResult → Bool
valid_of (w, ok result) = result.valid
valid_of (w, err x) = true

-- A step that, where it refuses, leaves the machine as it is.
abbrev Refuses : Step ApplyProjectResult → Type 0
Refuses step =
    (w w' : World) (result : ApplyProjectResult)
    → step w ≡ (w', ok result)
    → result.valid ≡ false
    → w'.machine ≡ w.machine

Refuses-of_Keeps : (step : Step ApplyProjectResult) → Keeps step → Refuses step
Refuses-of_Keeps step h w w' result ran refused = sym (ap (λ r. r.0.machine) ran) ∙ h w

module _ {A : Type 0} (r : Result NativeError A) (next : A → Step ApplyProjectResult) where
  Refuses-lift : ((a : A) → Refuses (next a)) → Refuses (lift r >>= next)
  Refuses-lift k w w' result ran refused = elim (Result-cases r) [
    | inl (a, e) ↦ k a w w' result (rw e at ran) refused
    | inr (x, e) ↦ absurd (cc (ap (λ p. p.1) (rw e at ran)))
  ]

module _ {A : Type 0} (step : Step A) (next : A → Step ApplyProjectResult) where
  Refuses-bind : Keeps step → ((a : A) → Refuses (next a)) → Refuses (step >>= next)
  Refuses-bind h k w w' result ran refused = go (step w) (h w) ran
    where
      go :
          (r : World × Result NativeError A)
          → r.0.machine ≡ w.machine
          → then_step r next ≡ (w', ok result)
          → w'.machine ≡ w.machine
      go (w1, ok a) e f = k a w1 w' result f refused ∙ e
      go (w1, err x) e f = absurd (cc (ap (λ p. p.1) f))

module _ {Data : Type 0} (paths : Pathlib) (cwd platform : Text) (layout : RuntimeLayout)
    (port : ManifestPort Data) (registry : SchedulerRegistry)
    (observable : (name : Text) (b : SchedulerBackend)
      → require_backend registry name ≡ ok b
      → IsObservable b)
    (request : SchedulerRequest) (context : InvocationContext) where
  Refuses-deploy :
      (scheduler : SchedulerBackend) (backend : Text) (made : ProjectPlan)
      (planned : PlanProjectResult) (state_path : Text) (hashes : ManifestHashes)
      (errors : List PlanChange)
      → Refuses (
          deploy paths cwd platform layout port registry request context scheduler backend made
            planned state_path hashes errors)
  unfolding send
  Refuses-deploy scheduler backend made planned state_path hashes (e ∷ es) w w' result ran refused =
      sym (ap (λ (r : World × Result NativeError ApplyProjectResult). r.0.machine) ran)
  Refuses-deploy scheduler backend made planned state_path hashes [] w w' result ran refused =
      go
        (running
          (scheduler.apply
            (deployment_of paths cwd platform layout port registry request context backend made
              state_path hashes)
            (runtime_options paths request context))
          w)
        ran
    where
      go :
          (r : World × Result NativeError ProjectState)
          → then_step r (λ applied.
            announced paths cwd platform layout port registry request context applied (
              apply_result paths cwd platform layout port registry request context true backend
                planned
                (some applied)))
            ≡ (w', ok result)
          → w'.machine ≡ w.machine
      go (w1, ok applied) f = absurd (cc (ap valid_of f, refused))
      go (w1, err x) f = absurd (cc (ap (λ p. p.1) f))

  Refuses-apply_valid :
      (validation : ValidateProjectResult) (backend : Text) (made : ProjectPlan)
      (manifest : Option NormalizedManifest) (hashes : Option ManifestHashes)
      → Refuses (
          apply_valid paths cwd platform layout port registry request context validation backend
            made manifest hashes)
  Refuses-apply_valid validation backend made (some manifest) (some hashes) =
      Refuses-lift (require_backend registry backend) _ (λ scheduler.
        Refuses-lift (scheduler.schedule_errors made.manifest.jobs) _
          (λ errors. Refuses-deploy scheduler backend made _ _ hashes errors))
  Refuses-apply_valid validation backend made none hashes =
      λ w w' result ran. absurd (cc (ap (λ p. p.1) ran))
  Refuses-apply_valid validation backend made (some manifest) none =
      λ w w' result ran. absurd (cc (ap (λ p. p.1) ran))

  Refuses-apply_status :
      (shown : StatusProjectResult) (valid : Bool) (backend : Option Text)
      (made : Option ProjectPlan)
      → Refuses (
          apply_status paths cwd platform layout port registry request context shown valid backend
            made)
  unfolding send
  Refuses-apply_status shown true (some backend) (some made) =
      Refuses-apply_valid shown.validation backend made _ _
  Refuses-apply_status shown true (some backend) none = λ w w' result ran refused.
      sym (ap (λ (r : World × Result NativeError ApplyProjectResult). r.0.machine) ran)
  Refuses-apply_status shown true none made = λ w w' result ran refused.
      sym (ap (λ (r : World × Result NativeError ApplyProjectResult). r.0.machine) ran)
  Refuses-apply_status shown false backend made = λ w w' result ran refused.
      sym (ap (λ (r : World × Result NativeError ApplyProjectResult). r.0.machine) ran)

  -- Where looking at a backend changes nothing on the machine, an apply that reports that it is
  -- not valid has left the machine as it was.
  pub apply-refused :
      (w w' : World) (result : ApplyProjectResult)
      → apply paths cwd platform layout port registry request context w ≡ (w', ok result)
      → result.valid ≡ false
      → w'.machine ≡ w.machine
  unfolding apply
  apply-refused = Refuses-bind (send (codes "apply.calls") 1) _ (Keeps-send _ 1) (λ _.
      Refuses-bind _ _
        (Keeps-status paths cwd platform layout port registry observable request context)
        (λ shown. Refuses-apply_status shown shown.valid shown.backend shown.plan))
