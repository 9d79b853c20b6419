-- ===== src/Planner.antt =====
-- capabilities/xcron-capability-scheduler-native/src/xcron/capabilities/scheduler_native/domain.py:
-- the diff of desired and deployed jobs, and its projection to a status. The proofs are below.
mod Reasons
pub mod Kinds
pub mod Converge
pub mod Accounts
pub mod Status
pub mod Quiet
pub mod Order
use Reasons.{
  absent_reason, drift_reason, backend_reason, definition_reason, enable_reason, disable_reason,
  noop_reason, extra_reason, disabled_text, missing_text, ok_text, extra_text,
}
use xcron.Base.{
  Bool, true, false, not, ◌&&◌, if◌then◌else◌, Option, none, some, List, [], ◌∷◌, ◌++◌, map, Text,
  ◌==◌, text_Eq, text_leb, codes, Dict, get, put_all, from_list, contains, sort, is_empty, Result,
  ok, err, ◌>>=◌,
}
use xcron.Contracts.{
  NormalizedJob, NormalizedManifest, PlanChangeKind, StatusKind, DeployedJobState, ProjectState,
  PlanChange, StatusEntry, ProjectPlan,
}

-- What the code of the capability raises.
pub data NativeError : Type 0 where
  key_error : Text → NativeError
  value_error : Text → NativeError
  index_error : NativeError
  runtime_error : Text → NativeError
  unknown_backend : Text → NativeError

-- `d[k]`
unfoldable pub index {ℓ} : {V : Type ℓ} → Dict V → Text → Result NativeError V
index d k = elim (get k d) [ none ↦ err (key_error k) | some v ↦ ok v ]

-- `a or b` on texts, and where `a` may be None
abbrev pub or_else : Text → Text → Text
or_else [] b = b
or_else (c ∷ a) b = c ∷ a

abbrev pub some_or_else : Option Text → Text → Text
some_or_else none b = b
some_or_else (some a) b = or_else a b

-- `observed_hash is not None and observed_hash != desired_hash`
unfoldable pub has_drifted : DeployedJobState → Bool
has_drifted d = elim d.observed_hash [ none ↦ false | some h ↦ not (h == d.desired_hash) ]

module _ (backend desired_hash desired_definition_hash : Text) (job : NormalizedJob) where
  abbrev change : PlanChangeKind → Text → DeployedJobState → PlanChange
  change kind reason d = record {
    kind = kind;
    qualified_id = job.qualified_id;
    reason = reason;
    desired_job = some job;
    deployed_job = some d;
    desired_hash = some desired_hash;
    deployed_hash = some d.desired_hash;
  }

  -- The body of the loop over the desired jobs: one change for each.
  unfoldable pub compare_job : Option DeployedJobState → PlanChange
  unfolding has_drifted
  compare_job none = record {
    kind = PlanChangeKind.create;
    qualified_id = job.qualified_id;
    reason = absent_reason;
    desired_job = some job;
    deployed_job = none;
    desired_hash = some desired_hash;
    deployed_hash = none;
  }
  compare_job (some d) =
      if has_drifted d
      then change PlanChangeKind.drift drift_reason d
      else if not (d.backend == backend)
      then change PlanChangeKind.update (backend_reason d.backend backend) d
      else if not (some_or_else d.definition_hash d.desired_hash == desired_definition_hash)
      then change PlanChangeKind.update definition_reason d
      else if job.enabled && not d.enabled
      then change PlanChangeKind.enable enable_reason d
      else if not job.enabled && d.enabled
      then change PlanChangeKind.disable disable_reason d
      else change PlanChangeKind.noop noop_reason d

unfoldable pub remove_change : DeployedJobState → PlanChange
remove_change d = record {
  kind = PlanChangeKind.remove;
  qualified_id = d.qualified_id;
  reason = extra_reason;
  desired_job = none;
  deployed_job = some d;
  desired_hash = none;
  deployed_hash = some d.desired_hash;
}

abbrev pub kind_value : PlanChangeKind → Text
kind_value PlanChangeKind.create = codes "create"
kind_value PlanChangeKind.update = codes "update"
kind_value PlanChangeKind.remove = codes "remove"
kind_value PlanChangeKind.enable = codes "enable"
kind_value PlanChangeKind.disable = codes "disable"
kind_value PlanChangeKind.noop = codes "noop"
kind_value PlanChangeKind.drift = codes "drift"
kind_value PlanChangeKind.error = codes "error"

-- The order of the pairs `(item.qualified_id, item.kind.value)`.
unfoldable pub change_leb : PlanChange → PlanChange → Bool
change_leb a b =
    if a.qualified_id == b.qualified_id
    then text_leb (kind_value a.kind) (kind_value b.kind)
    else text_leb a.qualified_id b.qualified_id

unfoldable pub id_leb : DeployedJobState → DeployedJobState → Bool
id_leb a b = text_leb a.qualified_id b.qualified_id

module _ (backend : Text) (job_hashes definition_hashes : Dict Text)
    (deployed_by_id : Dict DeployedJobState) where
  unfoldable pub desired_changes : List NormalizedJob → Result NativeError (List PlanChange)
  desired_changes [] = ok []
  desired_changes (job ∷ jobs) = do
    desired_hash ← index job_hashes job.qualified_id
    definition_hash ← index definition_hashes job.qualified_id
    rest ← desired_changes jobs
    let change =
        compare_job backend desired_hash definition_hash job (get job.qualified_id deployed_by_id)
    ok (change ∷ rest)

unfoldable pub extra_changes : Dict NormalizedJob → List DeployedJobState → List PlanChange
extra_changes desired_by_id [] = []
extra_changes desired_by_id (d ∷ ds) =
    let rest = extra_changes desired_by_id ds in
    if contains d.qualified_id desired_by_id then rest else remove_change d ∷ rest

abbrev pub deployed_index : List DeployedJobState → Dict DeployedJobState
deployed_index = from_list (λ d. d.qualified_id) (λ d. d)

abbrev pub desired_index : List NormalizedJob → Dict NormalizedJob
desired_index = from_list (λ j. j.qualified_id) (λ j. j)

-- The plan with its changes in order, and the state that it records.
abbrev pub plan_of : NormalizedManifest → Text → Text → ProjectState → List PlanChange → ProjectPlan
plan_of manifest backend manifest_hash state changes = record {
  backend = backend;
  manifest = manifest;
  changes = sort change_leb changes;
  state = record {
    project_id = or_else state.project_id manifest.project_id;
    backend = backend;
    manifest_hash = some manifest_hash;
    jobs = state.jobs;
    updated_at = state.updated_at;
  };
}

unfoldable pub build_project_plan :
    NormalizedManifest
    → Text
    → Text
    → Dict Text
    → Dict Text
    → ProjectState
    → Result NativeError ProjectPlan
build_project_plan manifest backend manifest_hash job_hashes definition_hashes state = do
  changes ←
      desired_changes backend job_hashes definition_hashes (deployed_index state.jobs) manifest.jobs
  let extras = extra_changes (desired_index manifest.jobs) (sort id_leb state.jobs)
  ok (plan_of manifest backend manifest_hash state (changes ++ extras))

-- `change.desired_job is not None and not change.desired_job.enabled`
abbrev pub is_disabled : PlanChange → Bool
is_disabled change = elim change.desired_job [ none ↦ false | some job ↦ not job.enabled ]

abbrev status_kind : PlanChangeKind → Bool → StatusKind
status_kind PlanChangeKind.remove off = StatusKind.extra
status_kind PlanChangeKind.error off = StatusKind.error
status_kind PlanChangeKind.create off = if off then StatusKind.disabled else StatusKind.missing
status_kind PlanChangeKind.noop off = if off then StatusKind.disabled else StatusKind.ok
status_kind _ off = StatusKind.drift

-- The tests of the code cover every kind, so its last line, which raises, is not reached.
unfoldable pub status_kind_for_change : PlanChange → StatusKind
status_kind_for_change change = status_kind change.kind (is_disabled change)

abbrev status_reason : StatusKind → Bool → Text → Text
status_reason StatusKind.disabled off reason = if off then disabled_text else reason
status_reason StatusKind.missing off reason = missing_text
status_reason StatusKind.ok off reason = ok_text
status_reason StatusKind.extra off reason = extra_text
status_reason _ off reason = reason

unfoldable pub status_reason_for_change : PlanChange → Text
unfolding status_kind_for_change
status_reason_for_change change =
    status_reason (status_kind_for_change change) (is_disabled change) change.reason

unfoldable pub build_status_entries : ProjectPlan → List StatusEntry
unfolding status_kind_for_change status_reason_for_change
build_status_entries plan =
    map
      (λ (change : PlanChange). record {
        kind = status_kind_for_change change;
        qualified_id = change.qualified_id;
        reason = status_reason_for_change change;
        desired_job = change.desired_job;
        deployed_job = change.deployed_job;
      })
      plan.changes
