-- ===== src/Service/Details/Untouched.antt =====
-- `inspect` leaves the machine as it is.
use xcron.Base.{Bool, true, false, ◌≡◌, refl, Option, none, some, Text, Dict, ok}
use xcron.Contracts.{
  PlistValue, JobLookupRequest, InvocationContext, StatusProjectResult, ProjectPlan,
  InspectJobResult,
}
use xcron.Layout.{Pathlib, RuntimeLayout}
use xcron.Service.World.{World, Step, running}
use xcron.Service.Ports.{SchedulerBackend, ManifestPort, runtime_options}
use xcron.Service.Registry.{SchedulerRegistry, require_backend}
use xcron.Service.Controller.{status}
use xcron.Service.Controller.Observed.{
  Keeps, Keeps-bind, Keeps-lift, Keeps-running, Keeps-status, IsObservable,
}
use xcron.Service.Details.{inspect, inspect_status, scheduler_request, project_id_of}

module _ {Data : Type 0} (paths : Pathlib) (cwd platform : Text) (layout : RuntimeLayout)
    (port : ManifestPort Data) (registry : SchedulerRegistry) (dumps : Dict PlistValue → Text)
    (observable : (name : Text) (b : SchedulerBackend)
      → require_backend registry name ≡ ok b
      → IsObservable b)
    (request : JobLookupRequest) (context : InvocationContext) where
  Keeps-inspect_status :
      (shown : StatusProjectResult) (valid : Bool) (plan : Option ProjectPlan)
      (backend : Option Text)
      → Keeps (
          inspect_status paths cwd platform layout port registry dumps request context shown valid
            plan backend)
  Keeps-inspect_status shown true (some plan) (some backend) =
      Keeps-lift (require_backend registry backend) _ (λ scheduler found.
        Keeps-lift
          (project_id_of paths cwd platform layout port registry dumps request context shown) _
          (λ project_id _.
            let look =
              scheduler.inspect_project project_id
                (runtime_options paths (scheduler_request request context) context) true in
            Keeps-bind (running look) _
              (Keeps-running look ((observable backend scheduler found).inspects project_id _ true))
              (λ items w. refl)))
  Keeps-inspect_status shown true (some plan) none = λ w. refl
  Keeps-inspect_status shown true none backend = λ w. refl
  Keeps-inspect_status shown false plan backend = λ w. refl

  -- Where looking at a backend changes nothing on the machine, neither does `inspect`, whatever it
  -- returns or raises.
  pub inspect-unchanged :
      (w : World)
      → (inspect paths cwd platform layout port registry dumps request context w).0.machine
        ≡ w.machine
  unfolding inspect
  inspect-unchanged =
      let next : StatusProjectResult → Step InspectJobResult = λ s.
        inspect_status paths cwd platform layout port registry dumps request context s s.valid
          s.plan s.backend in
      Keeps-bind
        (status paths cwd platform layout port registry (scheduler_request request context) context)
        next
        (Keeps-status paths cwd platform layout port registry observable
          (scheduler_request request context) context)
        (λ s. Keeps-inspect_status s s.valid s.plan s.backend)
