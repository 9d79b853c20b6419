-- ===== src/Planner/Accounts.antt =====
-- A plan accounts for every desired job and for every deployed job that is not desired, once each.
use mathlib.Core.List.Perm
use mathlib.Core.List.{Perm}
use xcron.Base.{
  Bool, not, ◌≡◌, refl, Option, none, some, List, [], ◌∷◌, ◌++◌, map, map-append, Text, arith, keep,
  Dict, get, contains, ok, >>=-eq-ok, sort, sort-perm, keep-sort-perm,
}
use xcron.Contracts.{
  NormalizedJob, NormalizedManifest, DeployedJobState, ProjectState, PlanChange, ProjectPlan,
}
use xcron.Planner.{
  index, compare_job, remove_change, desired_changes, extra_changes, build_project_plan,
  deployed_index, desired_index, change_leb, id_leb, plan_of,
}

abbrev pub change_ids : List PlanChange → List Text
change_ids cs = map (λ c. c.qualified_id) cs

abbrev pub job_ids : List NormalizedJob → List Text
job_ids jobs = map (λ j. j.qualified_id) jobs

abbrev pub deployed_ids : List DeployedJobState → List Text
deployed_ids ds = map (λ d. d.qualified_id) ds

abbrev pub is_extra : List NormalizedJob → DeployedJobState → Bool
is_extra jobs d = not (contains d.qualified_id (desired_index jobs))

pub qualified_id-compare_job :
    (backend h dh : Text) (job : NormalizedJob) (o : Option DeployedJobState)
    → (compare_job backend h dh job o).qualified_id ≡ job.qualified_id
unfolding compare_job
qualified_id-compare_job backend h dh job none = refl
qualified_id-compare_job backend h dh job (some d) = ground arith

module _ (backend : Text) (job_hashes definition_hashes : Dict Text)
    (deployed : Dict DeployedJobState) where
  desired_changes-ids :
      (jobs : List NormalizedJob) (cs : List PlanChange)
      → desired_changes backend job_hashes definition_hashes deployed jobs ≡ ok cs
      → change_ids cs ≡ job_ids jobs
  unfolding desired_changes
  desired_changes-ids [] cs h = ground arith
  desired_changes-ids (job ∷ jobs) cs h =
      let (a, ea, h') = >>=-eq-ok (index job_hashes job.qualified_id) _ h in
      let (b, eb, h'') = >>=-eq-ok (index definition_hashes job.qualified_id) _ h' in
      let (rest, er, last) =
        >>=-eq-ok (desired_changes backend job_hashes definition_hashes deployed jobs) _ h'' in
      ground (
        arith,
        desired_changes-ids jobs rest er,
        qualified_id-compare_job backend a b job (get job.qualified_id deployed),
      )

extra_changes-ids :
    (jobs : List NormalizedJob) (ds : List DeployedJobState)
    → change_ids (extra_changes (desired_index jobs) ds) ≡ deployed_ids (keep (is_extra jobs) ds)
unfolding extra_changes remove_change
extra_changes-ids jobs [] = refl
extra_changes-ids jobs (d ∷ ds) = ground (arith, extra_changes-ids jobs ds)

module _ (manifest : NormalizedManifest) (backend manifest_hash : Text)
    (job_hashes definition_hashes : Dict Text) (state : ProjectState) (plan : ProjectPlan)
    (made : build_project_plan manifest backend manifest_hash job_hashes definition_hashes state
      ≡ ok plan) where
  pub made_from :
      (cs : List PlanChange) × (desired_changes backend job_hashes definition_hashes
          (deployed_index state.jobs)
          manifest.jobs
        ≡ ok cs)
      × (plan
          ≡ plan_of manifest backend manifest_hash state
              (cs ++ extra_changes (desired_index manifest.jobs) (sort id_leb state.jobs)))
  unfolding build_project_plan
  made_from = let (cs, e, last) = >>=-eq-ok (desired_changes _ _ _ _ _) _ made in (cs, e, cc)

  -- The changes of a plan are, up to their order, one for each desired job and one for each
  -- deployed job whose id no desired job has.
  pub plan-ids-perm :
      Perm
        (change_ids plan.changes)
        (job_ids manifest.jobs ++ deployed_ids (keep (is_extra manifest.jobs) state.jobs))
  plan-ids-perm =
      let (cs, e, made_so) = made_from in
      let extras = extra_changes (desired_index manifest.jobs) (sort id_leb state.jobs) in
      let kept = keep-sort-perm id_leb (is_extra manifest.jobs) state.jobs in
      rw made_so (
        Perm.trans
          (Perm.map (λ (c : PlanChange). c.qualified_id) (sort-perm change_leb (cs ++ extras)))
          (rw (map-append, desired_changes-ids _ _ _ _ manifest.jobs cs e, extra_changes-ids)
            (Perm.append_left (job_ids manifest.jobs)
              (Perm.map (λ (d : DeployedJobState). d.qualified_id) kept))))
