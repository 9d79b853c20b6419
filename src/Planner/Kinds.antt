-- ===== src/Planner/Kinds.antt =====
-- Which change a job gets, and the status that is shown for it.
use xcron.Base.{false, ◌≡◌, some, Text, text_Eq, text_eq_iff, arith, Option-cases, inl, inr}
use xcron.Contracts.{NormalizedJob, PlanChangeKind, DeployedJobState}
use xcron.Planner.{some_or_else, has_drifted, compare_job}

-- The deployed job is what the manifest asks for: nothing has edited its artifact, it stands in
-- the selected backend, and its definition and its enabled state are the desired ones.
pub record InSync (backend definition_hash : Text) (job : NormalizedJob) (d : DeployedJobState)
    : Type 0 where
  pub untouched : (h : Text) → d.observed_hash ≡ some h → h ≡ d.desired_hash
  pub same_backend : d.backend ≡ backend
  pub same_definition : some_or_else d.definition_hash d.desired_hash ≡ definition_hash
  pub same_enabled : d.enabled ≡ job.enabled

untouched→not_drifted :
    (d : DeployedJobState)
    → ((h : Text) → d.observed_hash ≡ some h → h ≡ d.desired_hash)
    → has_drifted d ≡ false
unfolding has_drifted
untouched→not_drifted d u = elim (Option-cases d.observed_hash) [
  | inl e ↦ rw e
  | inr (h, e) ↦ ground (arith, u h e, text_eq_iff h d.desired_hash)
]

module _ (backend desired_hash definition_hash : Text) (job : NormalizedJob) where
  pub InSync→noop :
      (d : DeployedJobState)
      → InSync backend definition_hash job d
      → (compare_job backend desired_hash definition_hash job (some d)).kind ≡ PlanChangeKind.noop
  unfolding compare_job
  InSync→noop d s = ground (
    arith,
    untouched→not_drifted d s.untouched,
    text_eq_iff d.backend backend,
    text_eq_iff (some_or_else d.definition_hash d.desired_hash) definition_hash,
  )

  pub noop→InSync :
      (d : DeployedJobState)
      → (compare_job backend desired_hash definition_hash job (some d)).kind ≡ PlanChangeKind.noop
      → InSync backend definition_hash job d
  unfolding compare_job
  noop→InSync d h = record {
    untouched = λ o e. ground (arith, text_eq_iff o d.desired_hash);
    same_backend = ground (arith, text_eq_iff d.backend backend);
    same_definition =
        ground (arith, text_eq_iff (some_or_else d.definition_hash d.desired_hash) definition_hash);
    same_enabled = ground arith;
  }
