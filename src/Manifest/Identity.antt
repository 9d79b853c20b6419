-- ===== src/Manifest/Identity.antt =====
-- The ids of the normalized jobs.
use xcron.Base.{
  Bool, ◌≡◌, ◌≢◌, sym, inl, inr, List, [], ◌∷◌, ◌++◌, map, Text, codes, insert, sort, All, All-imp,
  All-map, All-sort, Distinct, Bool-cases,
}
use xcron.Contracts.{build_qualified_job_id}
use xcron.Manifest.{
  JobDefinition, ProjectManifest, Runtime, normalize_job, normalize_manifest, job_leb,
}

append-cancel : (p a b : Text) → p ++ a ≡ p ++ b → a ≡ b
append-cancel [] a b h = h
append-cancel (c ∷ p) a b h = append-cancel p a b (cc)

-- Two jobs of a project have one qualified id only if they have one id.
build_qualified_job_id-injective :
    (p a b : Text) → build_qualified_job_id p a ≡ build_qualified_job_id p b → a ≡ b
unfolding build_qualified_job_id
build_qualified_job_id-injective p a b h = append-cancel (p ++ codes ".") a b h

module _ {A : Type 0} (le : A → A → Bool) (key : A → Text) where
  All-insert_key :
      (k : Text) (x : A) (xs : List A)
      → key x ≢ k
      → All (λ y. key y ≢ k) xs
      → All (λ y. key y ≢ k) (insert le x xs)
  unfolding insert
  All-insert_key k x [] n h = (n, tt)
  All-insert_key k x (y ∷ ys) n h = elim (Bool-cases (le x y)) [
    | inl e ↦ rw e (n, h)
    | inr e ↦ rw e (h.0, All-insert_key k x ys n h.1)
  ]

  Distinct-insert :
      (x : A) (xs : List A)
      → All (λ y. key y ≢ key x) xs
      → Distinct key xs
      → Distinct key (insert le x xs)
  unfolding insert
  Distinct-insert x [] n d = (tt, tt)
  Distinct-insert x (y ∷ ys) n d = elim (Bool-cases (le x y)) [
    | inl e ↦ rw e (n, d)
    | inr e ↦
        rw e (All-insert_key (key y) x ys (λ h. n.0 (sym h)) d.0, Distinct-insert x ys n.1 d.1)
  ]

  Distinct-sort : (xs : List A) → Distinct key xs → Distinct key (sort le xs)
  unfolding sort
  Distinct-sort [] d = tt
  Distinct-sort (x ∷ xs) d =
      Distinct-insert x (sort le xs) (All-sort le _ xs d.0) (Distinct-sort xs d.1)

module _ (runtime : Runtime) (manifest : ProjectManifest) (project_root : Text) where
  Distinct-normalize :
      (jobs : List JobDefinition)
      → Distinct (λ j. j.id) jobs
      → Distinct (λ j. j.qualified_id) (map (normalize_job runtime manifest project_root) jobs)
  unfolding normalize_job
  Distinct-normalize [] d = tt
  Distinct-normalize (j ∷ jobs) d = (
    All-map _ (normalize_job runtime manifest project_root) jobs (
        All-imp _ _ jobs
          (λ x n h. n (build_qualified_job_id-injective manifest.project.id x.id j.id h)) d.0),
    Distinct-normalize jobs d.1,
  )

  -- Where the ids of the jobs of a manifest are distinct, so are the qualified ids of the
  -- normalized jobs.
  pub normalize_manifest-Distinct :
      (manifest_path : Text)
      → Distinct (λ j. j.id) manifest.jobs
      → Distinct
          (λ j. j.qualified_id)
          (normalize_manifest runtime manifest project_root manifest_path).jobs
  unfolding normalize_manifest
  normalize_manifest-Distinct manifest_path d =
      Distinct-normalize (sort job_leb manifest.jobs)
        (Distinct-sort job_leb (λ j. j.id) manifest.jobs d)
