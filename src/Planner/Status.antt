-- ===== src/Planner/Status.antt =====
-- What the status of a desired job says about its deployment.
use xcron.Base.{
  true, false, if◌then◌else◌, refl, ◌≡◌, ◌≢◌, ◌↔◌, ◌⊎◌, inl, inr, Option, none, some, Text, arith,
}
use xcron.Contracts.{NormalizedJob, PlanChangeKind, StatusKind, DeployedJobState, PlanChange}
use xcron.Planner.{compare_job, status_kind_for_change}
use xcron.Planner.Kinds.{InSync, InSync→noop, noop→InSync}

module _ (backend desired_hash definition_hash : Text) (job : NormalizedJob) where
  abbrev change_of : Option DeployedJobState → PlanChange
  change_of = compare_job backend desired_hash definition_hash job

  -- The status that is shown for the job when it is deployed so, or is absent.
  abbrev pub shown : Option DeployedJobState → StatusKind
  shown o = status_kind_for_change (change_of o)

  desired_job-change_of : (d : DeployedJobState) → (change_of (some d)).desired_job ≡ some job
  unfolding compare_job
  desired_job-change_of d = ground arith

  kind-ne-create : (d : DeployedJobState) → (change_of (some d)).kind ≢ PlanChangeKind.create
  unfolding compare_job
  kind-ne-create d e = ground arith

  shown-absent : shown none ≡ (if job.enabled then StatusKind.missing else StatusKind.disabled)
  unfolding status_kind_for_change compare_job
  shown-absent = ground arith

  shown-noop :
      (d : DeployedJobState)
      → (change_of (some d)).kind ≡ PlanChangeKind.noop
      → shown (some d) ≡ (if job.enabled then StatusKind.ok else StatusKind.disabled)
  unfolding status_kind_for_change
  shown-noop d e = ground (arith, desired_job-change_of d)

  noop-of_shown :
      (d : DeployedJobState)
      → (shown (some d) ≡ StatusKind.ok) ⊎ (shown (some d) ≡ StatusKind.disabled)
      → (change_of (some d)).kind ≡ PlanChangeKind.noop
  unfolding status_kind_for_change
  noop-of_shown d e = ground (arith, desired_job-change_of d, kind-ne-create d)

  abbrev Deployed : Option DeployedJobState → Type 0
  Deployed o = (d : DeployedJobState) × (o ≡ some d) × InSync backend definition_hash job d

  -- A desired job is shown as ok exactly when it is enabled and deployed as the manifest asks.
  pub status-ok_iff :
      (o : Option DeployedJobState)
      → (shown o ≡ StatusKind.ok) ↔ ((job.enabled ≡ true) × Deployed o)
  status-ok_iff none = (λ e. absurd (ground (arith, shown-absent)), λ (_, (d, e, _)). absurd (cc))
  status-ok_iff (some d) = (
    λ e.
        let quiet = noop-of_shown d (inl e) in
        (
          ground (arith, shown-noop d quiet),
          (d, refl, noop→InSync backend desired_hash definition_hash job d quiet),
        ),
    λ (on, (d', e, s)).
        let quiet = InSync→noop backend desired_hash definition_hash job d' s in
        ground (arith, shown-noop d' quiet),
  )

  -- It is shown as disabled exactly when it is disabled and either absent or deployed as asked.
  pub status-disabled_iff :
      (o : Option DeployedJobState)
      → (shown o ≡ StatusKind.disabled) ↔ ((job.enabled ≡ false) × ((o ≡ none) ⊎ Deployed o))
  status-disabled_iff none =
      (λ e. (ground (arith, shown-absent), inl refl), λ (off, _). ground (arith, shown-absent))
  status-disabled_iff (some d) = (
    λ e.
        let quiet = noop-of_shown d (inr e) in
        (
          ground (arith, shown-noop d quiet),
          inr (d, refl, noop→InSync backend desired_hash definition_hash job d quiet),
        ),
    λ (off, h). elim h [
      | inl e ↦ absurd (cc)
      | inr (d', e, s) ↦
          let quiet = InSync→noop backend desired_hash definition_hash job d' s in
          ground (arith, shown-noop d' quiet)
    ],
  )
