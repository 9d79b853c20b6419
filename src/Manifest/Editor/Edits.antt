-- ===== src/Manifest/Editor/Edits.antt =====
-- A job that was added is found again, and removing it gives the jobs from before.
use xcron.Base.{
  true, false, ◌≡◌, refl, sym, ap, ◌∙◌, inl, inr, is_empty, length, ℕ, suc, ◌+◌, Option, none, some,
  List, [], ◌∷◌, ◌++◌, Text, text_Eq, text_eq, text_eq_self, codes, Dict, get, get-put, arith,
  Bool-cases, Result-cases, Result, ok, err,
}
use xcron.Manifest.Json.{Json, null, dict, list, elements-items_of, entries-members_of}
use xcron.Manifest.Editor.{
  EditError, jobs_list, with_jobs, as_job, id_of, is_sought, find_from, qualified_of, project_id_in,
  find_job, id_or_none, has_id, has_dot, add_manifest_job, remove_manifest_job, remove_at, str,
  str_or_empty,
}

jobs_list-with_jobs :
    (raw_data : Dict Json) (jobs : List Json) → jobs_list (with_jobs raw_data jobs) ≡ ok jobs
unfolding jobs_list
jobs_list-with_jobs raw_data jobs =
    rw (get-put (codes "jobs") (codes "jobs") (list jobs) raw_data, text_eq_self (codes "jobs"))
      (ap ok (elements-items_of jobs))

remove_at-last : (jobs : List Json) (x : Json) → remove_at (length jobs) (jobs ++ x ∷ []) ≡ jobs
remove_at-last [] x = refl
remove_at-last (y ∷ jobs) x = ap (λ ys. y ∷ ys) (remove_at-last jobs x)

text_eq-append_append : (p a b : Text) → text_eq (p ++ a) (p ++ b) ≡ text_eq a b
unfolding text_eq
text_eq-append_append [] a b = refl
text_eq-append_append (c ∷ p) a b = ground (arith, text_eq-append_append p a b)

-- A text without a dot does not begin with one.
dotted : (k s : Text) → has_dot s ≡ false → text_eq (b'.' ∷ k) s ≡ false
unfolding text_eq
dotted k [] h = refl
dotted k (c ∷ s) h = ground (arith, h)

zero_plus : (n : ℕ) → 0 + n ≡ n
zero_plus n = omega arith

empty_other : (s : Text) → is_empty s ≡ false → text_eq [] s ≡ false
unfolding text_eq
empty_other [] h = absurd (cc)
empty_other (c ∷ s) h = refl

module _ (show : Json → Text) where
  -- No other id is taken for an id without a dot.
  is_sought-other :
      (project_id identifier k : Text)
      → has_dot identifier ≡ false
      → text_eq k identifier ≡ false
      → is_sought show project_id identifier (qualified_of show project_id identifier) k ≡ false
  unfolding codes
  is_sought-other [] identifier k h e = rw e (dotted k identifier h)
  is_sought-other (c ∷ p) identifier k h e =
      rw (h, text_eq-append_append ((c ∷ p) ++ codes ".") k identifier, e) refl

  id-other :
      (job : Dict Json) (identifier : Text)
      → is_empty identifier ≡ false
      → text_eq (id_or_none show job) identifier ≡ false
      → text_eq (id_of show job) identifier ≡ false
  unfolding id_of
  id-other job identifier filled h = go (get (codes "id") job) h
    where
      go :
          (o : Option Json)
          → text_eq (elim o [ none ↦ str show null | some value ↦ str show value ]) identifier
            ≡ false
          → text_eq (str_or_empty show o) identifier ≡ false
      go none k = empty_other identifier filled
      go (some value) k = k

  module _ (new_job : Dict Json) (project_id : Text)
      (filled : is_empty (id_of show new_job) ≡ false)
      (dotless : has_dot (id_of show new_job) ≡ false) where
    abbrev identifier : Text
    identifier = id_of show new_job

    find_from-added :
        (index : ℕ) (jobs : List Json)
        → has_id show identifier jobs ≡ ok false
        → find_from show project_id identifier
            (qualified_of show project_id identifier)
            index
            (jobs ++ dict new_job ∷ [])
          ≡ ok (index + length jobs, new_job)
    unfolding find_from has_id
    find_from-added index [] h =
        rw (entries-members_of new_job, text_eq_self identifier)
          (ap (λ n. ok (n, new_job)) (omega arith))
    find_from-added index (value ∷ jobs) h = elim (Result-cases (as_job value)) [
      | inr (x, e) ↦ absurd (cc (rw e at h))
      | inl (job, e) ↦ elim (Bool-cases (text_eq (id_or_none show job) identifier)) [
        | inl f ↦ absurd (cc (rw (e, f) at h))
        | inr f ↦
            rw
              (
                e,
                is_sought-other project_id identifier (id_of show job) dotless
                    (id-other job identifier filled f),
              )
              (find_from-added (suc index) jobs (rw (e, f) at h)
                ∙ ap (λ n. ok (n, new_job)) (omega arith))
      ]
    ]

    -- What an addition that returned has found out.
    add-found :
        (raw_data raw_data' : Dict Json) (job : Option (Dict Json)) (jobs : List Json)
        → jobs_list raw_data ≡ ok jobs
        → add_manifest_job show new_job raw_data ≡ ok (raw_data', job)
        → (has_id show identifier jobs ≡ ok false)
          × (raw_data' ≡ with_jobs raw_data (jobs ++ dict new_job ∷ []))
    unfolding add_manifest_job
    add-found raw_data raw_data' job jobs listed added =
        elim (Result-cases (has_id show identifier jobs)) [
          | inr (x, e) ↦ absurd (cc (rw (listed, filled, e) at added))
          | inl (true, e) ↦ absurd (cc (rw (listed, filled, e) at added))
          | inl (false, e) ↦ (
            e,
            sym (
                ap
                  (λ (r : Result EditError (Dict Json × Option (Dict Json))). elim r [
                    | ok p ↦ p.0
                    | err x ↦ raw_data'
                  ])
                  (rw (listed, filled, e) at added)),
          )
        ]

  project_id-with_jobs :
      (raw_data : Dict Json) (jobs : List Json)
      → project_id_in show (with_jobs raw_data jobs) ≡ project_id_in show raw_data
  unfolding project_id_in
  project_id-with_jobs raw_data jobs =
      rw (get-put (codes "jobs") (codes "project") (list jobs) raw_data)
        (unfold codes text_eq in refl)

  -- Where a job is added to a manifest whose project can be read, under an id that has no dot,
  -- removing this id gives the manifest with the jobs from before.
  pub remove-add :
      (new_job raw_data raw_data' : Dict Json) (job : Option (Dict Json)) (jobs : List Json)
      (project_id : Text)
      → jobs_list raw_data ≡ ok jobs
      → project_id_in show raw_data ≡ ok project_id
      → is_empty (id_of show new_job) ≡ false
      → has_dot (id_of show new_job) ≡ false
      → add_manifest_job show new_job raw_data ≡ ok (raw_data', job)
      → remove_manifest_job show (id_of show new_job) raw_data'
        ≡ ok (with_jobs raw_data' jobs, none)
  unfolding remove_manifest_job find_job
  remove-add new_job raw_data raw_data' job jobs project_id listed named filled dotless added =
      let (fresh, made) =
        add-found new_job project_id filled dotless raw_data raw_data' job jobs listed added in
      let all = jobs ++ dict new_job ∷ [] in
      let found =
        find_from-added new_job project_id filled dotless 0 jobs fresh
        ∙ ap (λ n. ok (n, new_job)) (zero_plus (length jobs)) in
      rw (made, project_id-with_jobs raw_data all, named, jobs_list-with_jobs raw_data all, found)
        (ap (λ (js : List Json). ok (with_jobs (with_jobs raw_data all) js, none))
          (remove_at-last jobs (dict new_job)))
