-- ===== src/Examples/Order.antt =====
-- A plan with a job to keep and one to remove, in order.
use xcron.Base.{
  ◌≡◌, refl, some, [], ◌∷◌, codes, ok, sort, insert, get, put, put_all, contains, text_eq, text_leb,
}
use xcron.Contracts.{DeployedJobState, ProjectState, ProjectPlan}
use xcron.Planner.{
  index, compare_job, remove_change, desired_changes, extra_changes, build_project_plan, change_leb,
  id_leb, plan_of,
}
use xcron.Planner.Order.{IsBefore, plan-IsBefore}
use xcron.Examples.{job, job_name, manifest, digest, hashes, backend, deployed, state}

abbrev aside : DeployedJobState
aside = record deployed { qualified_id = codes "aside" }

abbrev two_deployed : ProjectState
two_deployed = record state { jobs = deployed ∷ aside ∷ [] }

abbrev ordered : ProjectPlan
ordered = record (plan_of manifest backend digest two_deployed []) {
  changes = remove_change aside ∷ compare_job backend digest digest job (some deployed) ∷ [];
}

ordered_made : build_project_plan manifest backend digest hashes hashes two_deployed ≡ ok ordered
unfolding build_project_plan desired_changes extra_changes index get contains put_all put text_eq
    job_name digest backend sort insert id_leb change_leb compare_job remove_change text_leb codes
ordered_made = refl

plan-IsBefore_example :
    IsBefore (remove_change aside) (compare_job backend digest digest job (some deployed))
plan-IsBefore_example =
    plan-IsBefore manifest backend digest hashes hashes two_deployed ordered [] [] []
      (remove_change aside) (compare_job backend digest digest job (some deployed)) ordered_made
      refl
