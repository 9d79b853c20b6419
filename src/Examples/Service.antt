-- ===== src/Examples/Service.antt =====
-- The service over the cron backend, on a project with one job.
use mathlib.Core.List.{Perm}
use xcron.Base.{
  map, ◌≡◌, refl, true, false, Bool-cases, inl, inr, ap, subst, none, some, List, [], ◌∷◌, Text,
  codes, ok, err, Result, get, text_eq, sort, insert, int_of, put_all,
}
use xcron.Contracts.{
  ManifestHashes, PlanChange, ProjectPlan, ProjectRequest, SchedulerRequest, InvocationContext,
  ApplyProjectResult, StatusProjectResult, ValidateProjectResult,
}
use xcron.Planner.{
  NativeError, build_project_plan, compare_job, plan_of, desired_changes, extra_changes, index,
}
use xcron.Cron.Machine.{read_crontab}
use xcron.Cron.Inspect.{read_lines, read_line}
use xcron.Cron.Schedule.{
  cron_schedule_errors, cron_incompatible_reason, last_char, but_last, parse_int,
}
use xcron.Cron.Adapter.{cron_name, found_state, collect_cron_project_state, inspect_cron_project}
use xcron.Cron.Adapter.Apply.{fresh}
use xcron.Service.World.{World, send}
use xcron.Service.Ports.{
  ManifestPort, SchedulerBackend, runtime_options, create_options, resolve_path,
}
use xcron.Service.Registry.{SchedulerRegistry, require_backend, cron_backend}
use xcron.Service.Validate.{deployable, validate, select_backend}
use xcron.Service.Controller.{apply, status}
use xcron.Service.Controller.Observed.{IsObservable}
use xcron.Service.Controller.Rejected.{apply-refused}
use xcron.Service.Controller.Applied.{IsShown, cron_backend-IsObservable}
use xcron.Service.Controller.Converged.{IsPrepared, apply-status}
use xcron.Planner.Quiet.{id_and_kind, shown_deployed}
use xcron.Service.Details.{inspect}
use xcron.Service.Details.Untouched.{inspect-unchanged}
use xcron.Examples.{
  demo, job_name, digest, job, manifest, hashes, paths, entry, crontab_path, layout, command,
  machine, user_line, entry-IsReadable, demo-IsWord, user_line-free, user_lines, entry-IsRendered,
  crontab_line,
}

abbrev port : ManifestPort (Unit {0})
port = record {
  load = λ request context m. ok (record { project_root = []; manifest_path = []; raw_data = tt });
  validate = λ document context m.
      ok (record { valid = true; errors = []; warnings = []; normalized_manifest = some manifest });
  hashes =
      λ m. record { manifest_hash = digest; job_hashes = hashes; job_definition_hashes = hashes };
}

abbrev registry : SchedulerRegistry
registry = (cron_name, cron_backend paths layout command digest) ∷ []

abbrev project : ProjectRequest
project = record { project_path = none; schedule_name = none }

abbrev request : SchedulerRequest
request = record {
  project = project;
  backend = some cron_name;
  state_root = none;
  platform = none;
  launch_agents_dir = none;
  launchctl_domain = none;
  crontab_path = some crontab_path;
  manage_launchctl = true;
  manage_crontab = true;
}

abbrev context : InvocationContext
context = record {
  options = record {
    project_path = none;
    schedule_name = none;
    backend = none;
    state_root = none;
    platform = none;
    launch_agents_dir = none;
    launchctl_domain = none;
    crontab_path = none;
    manage_launchctl = true;
    manage_crontab = true;
  };
  workspace = none;
  settings = record {
    state_root = none;
    launch_agents_dir = none;
    launchctl_domain = none;
    crontab_path = none;
    manage_launchctl = true;
    manage_crontab = true;
  };
}

abbrev manifest_hashes : ManifestHashes
manifest_hashes = record {
  manifest_hash = digest;
  job_hashes = hashes;
  job_definition_hashes = hashes;
}

abbrev world : World
world = record { machine = machine; sent = [] }

abbrev creation : List PlanChange
creation = compare_job cron_name digest digest job none ∷ []

abbrev first_plan : ProjectPlan
first_plan = plan_of manifest cron_name digest (found_state demo []) creation

collected_first :
    collect_cron_project_state paths command demo (some crontab_path) machine
    ≡ (machine, ok (found_state demo []))
unfolding collect_cron_project_state inspect_cron_project read_crontab read_lines read_line
    crontab_path user_line demo codes
collected_first = rw (crontab_line, user_lines, read_lines, read_line, user_line-free) refl

shown_first :
    IsShown paths [] [] layout port registry command digest request context crontab_path manifest
      manifest_hashes machine
      (found_state demo [])
      first_plan
unfolding deployable validate select_backend require_backend get text_eq codes runtime_options
    create_options resolve_path build_project_plan desired_changes extra_changes index job_name
    put_all sort insert crontab_path
shown_first = record {
  valid = refl;
  chosen = refl;
  registered = refl;
  in_file = refl;
  collected = collected_first;
  planned = refl;
}

prepared :
    IsPrepared paths [] [] layout port registry command digest request context crontab_path manifest
      manifest_hashes world
      (found_state demo [])
      first_plan
      entry
      []
unfolding runtime_options create_options resolve_path cron_schedule_errors cron_incompatible_reason
    last_char but_last parse_int int_of
prepared = record {
  shown = shown_first;
  managed = refl;
  accepted = refl;
  applicable = record {
    for_cron = refl;
    jobs = refl;
    one_project = refl;
    word = demo-IsWord;
    rendered = (entry-IsRendered, tt);
    readable = (entry-IsReadable, tt);
    manageable = fresh (rw (crontab_line, user_lines) (user_line-free, tt));
  };
  distinct = (tt, tt);
  stable = λ m' applied ran. unfold validate in refl;
}

apply-status_example :
    (w' : World) × (result : ApplyProjectResult) × (w'' : World) × (shown : StatusProjectResult)
    × (apply paths [] [] layout port registry request context world ≡ (w', ok result))
    × (result.valid ≡ true)
    × (status paths [] [] layout port registry request context w' ≡ (w'', ok shown))
    × Perm (map id_and_kind shown.statuses) (map shown_deployed manifest.jobs)
apply-status_example =
    apply-status paths [] [] layout port registry command digest request context crontab_path
      manifest manifest_hashes world (found_state demo []) first_plan entry [] prepared

observable :
    (name : Text) (b : SchedulerBackend) → require_backend registry name ≡ ok b → IsObservable b
unfolding require_backend get text_eq codes
observable name b found = elim (Bool-cases (text_eq cron_name name)) [
  | inl e ↦
      subst IsObservable
        (ap (λ (r : Result NativeError SchedulerBackend). elim r [ ok x ↦ x | err x ↦ b ])
          (rw e at found))
        (cron_backend-IsObservable paths command layout digest)
  | inr e ↦ absurd (cc (rw e at found))
]

-- A project that is not valid.
abbrev empty_port : ManifestPort (Unit {0})
empty_port = record port { load = λ request context m. err (codes "no manifest") }

abbrev invalid : ValidateProjectResult
invalid = validate paths [] empty_port project context machine

abbrev refused : ApplyProjectResult
refused = record {
  valid = false;
  backend = none;
  plan_result = record {
    valid = false;
    validation = invalid;
    backend = none;
    state_path = none;
    changes = [];
    plan = none;
  };
  applied_state = none;
}

abbrev after_refusal : World
after_refusal = record world {
  sent =
      (codes "apply.calls", 1)
      ∷ (codes "status.calls", 1)
      ∷ (codes "status.failed", 1)
      ∷ (codes "apply.failed", 1)
      ∷ [];
}

refusal :
    apply paths [] [] layout empty_port registry request context world ≡ (after_refusal, ok refused)
unfolding apply status validate deployable send
refusal = refl

apply-refused_example : after_refusal.machine ≡ machine
apply-refused_example =
    apply-refused paths [] [] layout empty_port registry observable request context world
      after_refusal refused refusal refl

inspect-unchanged_example :
    (inspect paths [] [] layout port registry
      (λ plist. [])
      (record { project = project; job_identifier = job_name })
      context
      world).0.machine
    ≡ machine
inspect-unchanged_example =
    inspect-unchanged paths [] [] layout port registry (λ plist. []) observable
      (record { project = project; job_identifier = job_name }) context world
