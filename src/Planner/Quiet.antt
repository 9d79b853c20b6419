-- ===== src/Planner/Quiet.antt =====
-- The statuses of a plan that has nothing to do.
use mathlib.Core.List.Perm
use mathlib.Core.List.{Perm}
use xcron.Base.{
  if◌then◌else◌, ◌≡◌, refl, ap, ◌∙◌, subst, inl, inr, Bool-cases, Option, none, some, List, [], ◌∷◌,
  ◌++◌, map, append-nil, Text, arith, Dict, get, contains, ok, >>=-eq-ok, sort, sort-perm, All,
  All-append_left, All-append_right, All-of_sort, map-map,
}
use xcron.Contracts.{
  NormalizedJob, NormalizedManifest, DeployedJobState, ProjectState, PlanChangeKind, PlanChange,
  StatusKind, StatusEntry, ProjectPlan,
}
use xcron.Planner.{
  index, compare_job, remove_change, desired_changes, extra_changes, build_project_plan,
  build_status_entries, status_kind_for_change, deployed_index, desired_index, change_leb, id_leb,
}
use xcron.Planner.Accounts.{made_from}

abbrev IsNoop : PlanChange → Type 0
IsNoop c = c.kind ≡ PlanChangeKind.noop

-- The id and the kind of a status.
abbrev pub id_and_kind : StatusEntry → Text × StatusKind
id_and_kind entry = (entry.qualified_id, entry.kind)

-- The id of a job, and how the job is shown where it is deployed as the manifest asks.
abbrev pub shown_deployed : NormalizedJob → Text × StatusKind
shown_deployed job = (job.qualified_id, if job.enabled then StatusKind.ok else StatusKind.disabled)

abbrev change_shown : PlanChange → Text × StatusKind
change_shown c = (c.qualified_id, status_kind_for_change c)

compare_job-shown :
    (backend h dh : Text) (job : NormalizedJob) (o : Option DeployedJobState)
    → IsNoop (compare_job backend h dh job o)
    → change_shown (compare_job backend h dh job o) ≡ shown_deployed job
unfolding compare_job status_kind_for_change
compare_job-shown backend h dh job none quiet = absurd (cc)
compare_job-shown backend h dh job (some d) quiet = ground arith

module _ (backend : Text) (job_hashes definition_hashes : Dict Text)
    (deployed : Dict DeployedJobState) where
  desired_changes-shown :
      (jobs : List NormalizedJob) (cs : List PlanChange)
      → desired_changes backend job_hashes definition_hashes deployed jobs ≡ ok cs
      → All IsNoop cs
      → map change_shown cs ≡ map shown_deployed jobs
  unfolding desired_changes
  desired_changes-shown [] cs h quiet = ground arith
  desired_changes-shown (job ∷ jobs) cs h quiet =
      let (a, ea, h') = >>=-eq-ok (index job_hashes job.qualified_id) _ h in
      let (b, eb, h'') = >>=-eq-ok (index definition_hashes job.qualified_id) _ h' in
      let (rest, er, last) =
        >>=-eq-ok (desired_changes backend job_hashes definition_hashes deployed jobs) _ h'' in
      let c = compare_job backend a b job (get job.qualified_id deployed) in
      let here : cs ≡ c ∷ rest = cc in
      let quiet' = subst (All IsNoop) here quiet in
      ap (map change_shown) here
      ∙ ap (λ x. x ∷ map change_shown rest)
          (compare_job-shown backend a b job (get job.qualified_id deployed) quiet'.0)
      ∙ ap (λ l. shown_deployed job ∷ l) (desired_changes-shown jobs rest er quiet'.1)

extra_changes-quiet :
    (desired : Dict NormalizedJob) (ds : List DeployedJobState)
    → All IsNoop (extra_changes desired ds)
    → extra_changes desired ds ≡ []
unfolding extra_changes remove_change
extra_changes-quiet desired [] h = refl
extra_changes-quiet desired (d ∷ ds) h = elim (Bool-cases (contains d.qualified_id desired)) [
  | inl e ↦ rw e (extra_changes-quiet desired ds (rw e at h))
  | inr e ↦ let quiet = rw e at h in absurd (cc (quiet.0))
]

-- Where every change of a plan is noop, the statuses are, up to order, those of the desired jobs.
pub statuses-perm :
    (manifest : NormalizedManifest) (backend manifest_hash : Text)
    (job_hashes definition_hashes : Dict Text) (state : ProjectState) (plan : ProjectPlan)
    → build_project_plan manifest backend manifest_hash job_hashes definition_hashes state ≡ ok plan
    → All IsNoop plan.changes
    → Perm (map id_and_kind (build_status_entries plan)) (map shown_deployed manifest.jobs)
unfolding build_status_entries
statuses-perm manifest backend manifest_hash job_hashes definition_hashes state plan made quiet =
    let (cs, e, so) =
      made_from manifest backend manifest_hash job_hashes definition_hashes state plan made in
    let extras = extra_changes (desired_index manifest.jobs) (sort id_leb state.jobs) in
    let quiet' : All IsNoop (cs ++ extras) =
      All-of_sort change_leb IsNoop (cs ++ extras)
        (subst (λ (p : ProjectPlan). All IsNoop p.changes) so quiet) in
    let none_left =
      extra_changes-quiet (desired_index manifest.jobs) (sort id_leb state.jobs)
        (All-append_right IsNoop cs extras quiet') in
    let shown =
      desired_changes-shown backend job_hashes definition_hashes (deployed_index state.jobs)
        manifest.jobs cs e (All-append_left IsNoop cs extras quiet') in
    let same : map change_shown (cs ++ extras) ≡ map shown_deployed manifest.jobs =
      ap (λ more. map change_shown (cs ++ more)) none_left
      ∙ ap (map change_shown) (append-nil cs)
      ∙ shown in
    rw (so, map-map)
      (subst (λ l. Perm (map change_shown (sort change_leb (cs ++ extras))) l) same
        (Perm.map change_shown (sort-perm change_leb (cs ++ extras))))
