-- ===== src/Cron/Adapter/Settled.antt =====
-- The plan that is made from what was collected after a plan was applied.
use xcron.Base.{
  true, ◌≡◌, refl, sym, subst, Option, some, List, [], ◌∷◌, map, Text, Dict, get, contains,
  contains-eq-get, All, All-imp, All-map, Distinct, get-put_all, List-cases, Bool-cases, inl, inr,
  ok,
}
use xcron.Contracts.{DeployedJobState, ProjectState, PlanChangeKind, ProjectPlan}
use xcron.Planner.{build_project_plan, deployed_index, desired_index}
use xcron.Planner.Kinds.{InSync}
use xcron.Planner.Converge.{IsDeployed, build_project_plan-noop}
use xcron.Layout.{Pathlib, RuntimeLayout}
use xcron.Cron.Inspect.{inspection}
use xcron.Cron.Inspect.RoundTrip.{Entry, IsReadable, inspection_of}
use xcron.Cron.Machine.{Machine, CrontabCommand}
use xcron.Cron.Adapter.{
  DeploymentPlan, cron_name, deployed_of, apply_cron_plan, collect_cron_project_state,
}
use xcron.Cron.Adapter.Render.{IsRendered, jobs_of}
use xcron.Cron.Adapter.Apply.{IsApplicable, collected, apply_cron_plan-collect}

contains-of_get :
    {V : Type 0} (k : Text) (d : Dict V) (v : V) → get k d ≡ some v → contains k d ≡ true
contains-of_get k d v h = elim (Bool-cases (contains k d)) [
  | inl e ↦ e
  | inr e ↦ absurd (cc (contains-eq-get k d e, h))
]

module _ {A B : Type 0} (f : A → B) where
  All-unmap : (P : B → Type 0) (xs : List A) → All P (map f xs) → All (λ x. P (f x)) xs
  All-unmap P [] h = tt
  All-unmap P (x ∷ xs) h = (h.0, All-unmap P xs h.1)

  Distinct-map :
      (key : B → Text) (xs : List A) → Distinct (λ x. key (f x)) xs → Distinct key (map f xs)
  Distinct-map key [] h = tt
  Distinct-map key (x ∷ xs) h = (All-map _ f xs h.0, Distinct-map key xs h.1)

  Distinct-unmap :
      (key : B → Text) (xs : List A) → Distinct key (map f xs) → Distinct (λ x. key (f x)) xs
  Distinct-unmap key [] h = tt
  Distinct-unmap key (x ∷ xs) h = (All-unmap _ xs h.0, Distinct-unmap key xs h.1)

module _ (paths : Pathlib) (artifact_path : Text) where
  abbrev found : Entry → DeployedJobState
  found e = deployed_of (inspection_of paths artifact_path e)

  found-InSync : (e : Entry) → IsReadable e → InSync cron_name e.definition_hash e.job (found e)
  unfolding inspection
  found-InSync e h = record {
    untouched = λ o k. cc;
    same_backend = refl;
    same_definition = elim (List-cases e.definition_hash) [
      | inl blank ↦ absurd (h.definition_hash_word.filled blank)
      | inr (c, rest, shape) ↦ rw shape
    ];
    same_enabled = elim (Bool-cases e.job.enabled) [ inl on ↦ rw on | inr off ↦ rw off ];
  }

  abbrev found_all : List Entry → List DeployedJobState
  found_all es = map deployed_of (map (inspection_of paths artifact_path) es)

  -- Each entry is found under the id of its job, where the ids are distinct.
  found_all-get :
      (es : List Entry)
      → Distinct (λ j. j.qualified_id) (jobs_of es)
      → All (λ e. get e.job.qualified_id (deployed_index (found_all es)) ≡ some (found e)) es
  unfolding inspection
  found_all-get es distinct = All-unmap (inspection_of paths artifact_path) _ es (
      All-unmap deployed_of _ (map (inspection_of paths artifact_path) es) (
        get-put_all (λ d. d.qualified_id) (λ d. d) [] (found_all es)
          (Distinct-map deployed_of _ _ (
            Distinct-map (inspection_of paths artifact_path) _ es
              (Distinct-unmap (λ x. x.job) (λ j. j.qualified_id) es distinct)))))

  desired-contains :
      (es : List Entry)
      → Distinct (λ j. j.qualified_id) (jobs_of es)
      → All (λ d. contains d.qualified_id (desired_index (jobs_of es)) ≡ true) (found_all es)
  unfolding inspection
  desired-contains es distinct = All-map _ deployed_of _ (
      All-map _ (inspection_of paths artifact_path) es (
        All-imp _ _ es (λ e k. contains-of_get e.job.qualified_id _ _ k)
          (All-unmap (λ x. x.job) _ es
            (get-put_all (λ j. j.qualified_id) (λ j. j) [] (jobs_of es) distinct))))

  module _ (layout : RuntimeLayout) (state_root : Option Text)
      (desired_hashes definition_hashes : Dict Text) (deployed : Dict DeployedJobState) where
    jobs_of-IsDeployed :
        (es : List Entry)
        → All (IsRendered layout state_root desired_hashes definition_hashes) es
        → All IsReadable es
        → All (λ e. get e.job.qualified_id deployed ≡ some (found e)) es
        → All (IsDeployed cron_name desired_hashes definition_hashes deployed) (jobs_of es)
    jobs_of-IsDeployed [] h k g = tt
    jobs_of-IsDeployed (e ∷ es) h k g = (
      record {
        desired_hash = e.desired_hash;
        definition_hash = e.definition_hash;
        state = found e;
        hashed = h.0.hashed;
        defined = h.0.defined;
        present = g.0;
        in_sync = found-InSync e k.0;
      },
      jobs_of-IsDeployed es h.1 k.1 g.1,
    )

module _ (paths : Pathlib) (layout : RuntimeLayout) (command : CrontabCommand)
    (state_root : Option Text) (path : Text) (deployment : DeploymentPlan) (timestamp : Text)
    (e : Entry) (es : List Entry) (m : Machine)
    (h : IsApplicable paths layout command state_root path deployment e es m) where
  abbrev pub state_after : ProjectState
  state_after = collected paths layout command state_root path deployment timestamp e es m h

  -- A plan for cron with at least one job, whose ids are distinct and whose jobs can be rendered
  -- and written as words and schedules of five fields, is applied to a crontab in a file; from the
  -- crontab a state is then collected, and the plan for the same manifest and hashes that is made
  -- from this state holds no change but noop.
  pub apply_cron_plan-settled :
      Distinct (λ j. j.qualified_id) (jobs_of (e ∷ es))
      → (m' : Machine) × (state : ProjectState) × (plan : ProjectPlan) × (apply_cron_plan layout
            command state_root
            (some path)
            true
            deployment
            timestamp
            m
          ≡ (m', ok state))
        × (collect_cron_project_state paths command deployment.plan.manifest.project_id
              (some path)
              m'
            ≡ (m', ok state_after))
        × (build_project_plan deployment.plan.manifest cron_name deployment.manifest_hash
              deployment.job_hashes deployment.job_definition_hashes state_after
            ≡ ok plan)
        × All (λ c. c.kind ≡ PlanChangeKind.noop) plan.changes
  apply_cron_plan-settled distinct =
      let (m', state, applied, there) =
        apply_cron_plan-collect paths layout command state_root path deployment timestamp e es m
          h in
      let all = e ∷ es in
      let here =
        jobs_of-IsDeployed paths path layout state_root deployment.job_hashes
          deployment.job_definition_hashes (deployed_index state_after.jobs) all h.rendered
          h.readable (found_all-get paths path all distinct) in
      let (plan, made, quiet) =
        build_project_plan-noop deployment.plan.manifest cron_name deployment.manifest_hash
          deployment.job_hashes deployment.job_definition_hashes state_after
          (subst (All (IsDeployed _ _ _ _)) (sym h.jobs) here)
          (subst
            (λ js.
              All (λ (d : DeployedJobState). contains d.qualified_id (desired_index js) ≡ true)
                (found_all paths path all))
            (sym h.jobs) (desired-contains paths path all distinct)) in
      (m', state, plan, applied, there, made, quiet)
