-- ===== src/Planner/Converge.antt =====
-- When the deployed jobs are what the manifest asks for, the plan changes nothing.

use xcron.Base.{
  true, ◌≡◌, refl, some, List, [], ◌∷◌, append-nil, Text, text_Eq, All, Dict, get, contains, ok,
  sort, All-sort,
}
use xcron.Contracts.{
  NormalizedJob, NormalizedManifest, PlanChangeKind, DeployedJobState, ProjectState, PlanChange,
  ProjectPlan,
}
use xcron.Planner.{
  index, compare_job, desired_changes, extra_changes, build_project_plan, deployed_index,
  desired_index, change_leb, id_leb, plan_of,
}
use xcron.Planner.Kinds.{InSync, InSync→noop}

-- The hashes and the deployed job that the plan finds for a job.
pub record IsDeployed (backend : Text) (job_hashes definition_hashes : Dict Text)
    (deployed : Dict DeployedJobState) (job : NormalizedJob) : Type 0 where
  pub desired_hash : Text
  pub definition_hash : Text
  pub state : DeployedJobState
  pub hashed : get job.qualified_id job_hashes ≡ some desired_hash
  pub defined : get job.qualified_id definition_hashes ≡ some definition_hash
  pub present : get job.qualified_id deployed ≡ some state
  pub in_sync : InSync backend definition_hash job state

pub index-eq_ok {ℓ} :
    {V : Type ℓ} (d : Dict V) (k : Text) {v : V} → get k d ≡ some v → index d k ≡ ok v
unfolding index
index-eq_ok d k h = rw (h, index)

module _ (backend : Text) (job_hashes definition_hashes : Dict Text)
    (deployed : Dict DeployedJobState) where
  desired_changes-noop :
      (jobs : List NormalizedJob)
      → All (IsDeployed backend job_hashes definition_hashes deployed) jobs
      → (cs : List PlanChange) × (desired_changes backend job_hashes definition_hashes deployed jobs
          ≡ ok cs)
        × All (λ c. c.kind ≡ PlanChangeKind.noop) cs
  unfolding desired_changes
  desired_changes-noop [] h = ([], refl, tt)
  desired_changes-noop (job ∷ jobs) h =
      let (cs, e, all) = desired_changes-noop jobs h.1 in
      let d = h.0 in
      (
        compare_job backend d.desired_hash d.definition_hash job (some d.state) ∷ cs,
        rw (
          index-eq_ok job_hashes _ d.hashed,
          index-eq_ok definition_hashes _ d.defined,
          e,
          d.present,
        ),
        (InSync→noop backend d.desired_hash d.definition_hash job d.state d.in_sync, all),
      )

extra_changes-nil :
    (desired : Dict NormalizedJob) (ds : List DeployedJobState)
    → All (λ d. contains d.qualified_id desired ≡ true) ds
    → extra_changes desired ds ≡ []
unfolding extra_changes
extra_changes-nil desired [] h = refl
extra_changes-nil desired (d ∷ ds) h = rw h.0 (extra_changes-nil desired ds h.1)

-- If each desired job is deployed as the manifest asks, and no other job is deployed, then the
-- plan is made and holds no change but noop.
pub build_project_plan-noop :
    (manifest : NormalizedManifest) (backend manifest_hash : Text)
    (job_hashes definition_hashes : Dict Text) (state : ProjectState)
    → All
        (IsDeployed backend job_hashes definition_hashes (deployed_index state.jobs))
        manifest.jobs
    → All (λ d. contains d.qualified_id (desired_index manifest.jobs) ≡ true) state.jobs
    → (plan : ProjectPlan) × (build_project_plan manifest backend manifest_hash job_hashes
          definition_hashes state
        ≡ ok plan)
      × All (λ c. c.kind ≡ PlanChangeKind.noop) plan.changes
unfolding build_project_plan
build_project_plan-noop manifest backend manifest_hash job_hashes definition_hashes state here
      none_else =
    let (cs, e, all) =
      desired_changes-noop backend job_hashes definition_hashes (deployed_index state.jobs)
        manifest.jobs here in
    let no_extra =
      extra_changes-nil (desired_index manifest.jobs) (sort id_leb state.jobs)
        (All-sort id_leb _ state.jobs none_else) in
    (
      plan_of manifest backend manifest_hash state cs,
      rw (e, no_extra, append-nil),
      All-sort change_leb _ cs all,
    )
