-- ===== src/Manifest/Hashes/Planned.antt =====
-- The hashes of a manifest are enough for the planner.
use xcron.Base.{
  ◌≡◌, refl, ◌∙◌, inl, inr, some, List, [], ◌∷◌, ◌++◌, Text, text_eq, text_eq_iff, Dict, get, put,
  put_all, get-put, All, ok, sort, Bool-cases,
}
use xcron.Contracts.{
  NormalizedJob, NormalizedManifest, ProjectState, PlanChange, ProjectPlan, DeployedJobState,
}
use xcron.Planner.{
  compare_job, desired_changes, build_project_plan, deployed_index, desired_index, extra_changes,
  id_leb, plan_of,
}
use xcron.Planner.Converge.{index-eq_ok}
use xcron.Manifest.Json.{Json}
use xcron.Manifest.Hashes.{
  hash_normalized_job, hash_normalized_job_definition, build_manifest_hashes, job_hashes_of,
  definition_hashes_of,
}

-- A key that was put stays, whatever is put after it.
module _ {A V : Type 0} (key : A → Text) (value : A → V) where
  abbrev Has : Dict V → Text → Type 0
  Has d k = (v : V) × (get k d ≡ some v)

  Has-put : (k j : Text) (v : V) (d : Dict V) → Has d k → Has (put j v d) k
  Has-put k j v d (w, h) = elim (Bool-cases (text_eq j k)) [
    | inl e ↦ (v, get-put j k v d ∙ rw e refl)
    | inr e ↦ (w, get-put j k v d ∙ rw e h)
  ]

  Has-put_all : (k : Text) (d : Dict V) (xs : List A) → Has d k → Has (put_all key value d xs) k
  unfolding put_all
  Has-put_all k d [] h = h
  Has-put_all k d (x ∷ xs) h =
      Has-put_all k (put (key x) (value x) d) xs (Has-put k (key x) (value x) d h)

  All-Has : (d : Dict V) (xs : List A) → All (λ x. Has (put_all key value d xs) (key x)) xs
  unfolding put_all
  All-Has d [] = tt
  All-Has d (x ∷ xs) = (
    Has-put_all (key x) (put (key x) (value x) d) xs (
      value x,
      get-put (key x) (key x) (value x) d ∙ rw ((text_eq_iff (key x) (key x)).1 refl) refl,
    ),
    All-Has (put (key x) (value x) d) xs,
  )

module _ (backend : Text) (job_hashes definition_hashes : Dict Text)
    (deployed : Dict DeployedJobState) where
  desired_changes-ok :
      (jobs : List NormalizedJob)
      → All (λ j. (h : Text) × (get j.qualified_id job_hashes ≡ some h)) jobs
      → All (λ j. (h : Text) × (get j.qualified_id definition_hashes ≡ some h)) jobs
      → (changes : List PlanChange) × (desired_changes backend job_hashes definition_hashes deployed
            jobs
          ≡ ok changes)
  unfolding desired_changes
  desired_changes-ok [] h k = ([], refl)
  desired_changes-ok (j ∷ jobs) h k =
      let (changes, made) = desired_changes-ok jobs h.1 k.1 in
      (
        compare_job backend h.0.0 k.0.0 j (get j.qualified_id deployed) ∷ changes,
        rw
            (
              index-eq_ok job_hashes j.qualified_id h.0.1,
              index-eq_ok definition_hashes j.qualified_id k.0.1,
              made,
            )
            refl,
      )

module _ (stable_hash : Json → Text) where
  -- For every manifest, backend and state a plan is made with the hashes of the manifest: no hash
  -- is missing.
  pub build_project_plan-hashes :
      (manifest : NormalizedManifest) (backend : Text) (state : ProjectState)
      → (plan : ProjectPlan) × (build_project_plan manifest backend
            (build_manifest_hashes stable_hash manifest).manifest_hash
            (build_manifest_hashes stable_hash manifest).job_hashes
            (build_manifest_hashes stable_hash manifest).job_definition_hashes
            state
          ≡ ok plan)
  unfolding build_project_plan build_manifest_hashes
  build_project_plan-hashes manifest backend state =
      let (changes, made) =
        desired_changes-ok backend (job_hashes_of stable_hash manifest.jobs)
          (definition_hashes_of stable_hash manifest.jobs) (deployed_index state.jobs) manifest.jobs
          (All-Has (λ j. j.qualified_id) (hash_normalized_job stable_hash) [] manifest.jobs)
          (All-Has (λ j. j.qualified_id) (hash_normalized_job_definition stable_hash) []
            manifest.jobs) in
      (
        plan_of manifest backend (build_manifest_hashes stable_hash manifest).manifest_hash state
            (changes ++ extra_changes (desired_index manifest.jobs) (sort id_leb state.jobs)),
        rw made refl,
      )
