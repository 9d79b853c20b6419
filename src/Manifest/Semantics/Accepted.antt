-- ===== src/Manifest/Semantics/Accepted.antt =====
-- What a manifest promises in which the semantic validation finds no error.
use xcron.Base.{
  Bool, true, false, ◌≡◌, refl, sym, ap, inl, inr, nat_eq, ℕ, ◌+◌, any, keep, List, [], ◌∷◌, ◌++◌,
  length, Text, text_Eq, text_eq, text_eq_iff, text_eq_self, ◌==◌, codes, split, All, All-imp,
  Distinct, Result, ok, err, subst, nat_eq_iff, ◌⊎◌, >>=-eq-ok, Bool-cases,
}
use xcron.Contracts.{ScheduleKind, ValidationMessage}
use xcron.Planner.{NativeError}
use xcron.Manifest.{JobDefinition, ProjectManifest, Runtime, normalize_manifest}
use xcron.Manifest.Identity.{normalize_manifest-Distinct}
use xcron.Manifest.Semantics.{
  Host, is_error, error_if, job_messages, id_messages, command_messages, blank_shell,
  schedule_messages, directory_messages, directory_of, job_path, jobs_messages, validate_schedule,
  validate_semantics, split_validation_messages, default_timezone,
}

-- No error is among the messages.
abbrev pub IsClean : List ValidationMessage → Type 0
IsClean messages = keep is_error messages ≡ []

IsClean-append : (xs ys : List ValidationMessage) → IsClean (xs ++ ys) → IsClean xs × IsClean ys
IsClean-append [] ys h = (refl, h)
IsClean-append (x ∷ xs) ys h = elim (Bool-cases (is_error x)) [
  | inl e ↦ absurd (cc (rw e at h))
  | inr e ↦ let (a, b) = IsClean-append xs ys (rw e at h) in (rw e a, b)
]

error_if-IsClean : (b : Bool) (path message : Text) → IsClean (error_if b path message) → b ≡ false
error_if-IsClean true path message h = absurd (cc (rw (text_eq_self (codes "error")) at h))
error_if-IsClean false path message h = refl

-- An id that is not among the ids `k ∷ seen`.
head_ne :
    (k j : Text) (seen : List Text) → any (λ x. x == j) (k ∷ seen) ≡ false → text_eq k j ≡ false
head_ne k j seen h = elim (Bool-cases (text_eq k j)) [ inl e ↦ absurd (cc (rw e at h)) | inr e ↦ e ]

tail_free :
    (k j : Text) (seen : List Text)
    → any (λ x. x == j) (k ∷ seen) ≡ false
    → any (λ x. x == j) seen ≡ false
tail_free k j seen h = rw (head_ne k j seen h) at h

-- The first and the fourth of five lists.
IsClean-five :
    (a b c d e : List ValidationMessage)
    → IsClean (a ++ (b ++ (c ++ (d ++ e))))
    → IsClean a × IsClean d
IsClean-five a b c d e h =
    let (first, rest) = IsClean-append a (b ++ (c ++ (d ++ e))) h in
    let (_, more) = IsClean-append b (c ++ (d ++ e)) rest in
    let (_, last) = IsClean-append c (d ++ e) more in (first, (IsClean-append d e last).0)

module _ (runtime : Runtime) (host : Host) (manifest : ProjectManifest) (project_root : Text) where
  job-IsClean :
      (seen : List Text) (index : ℕ) (job : JobDefinition)
      → IsClean (job_messages runtime host manifest project_root seen index job)
      → IsClean (id_messages seen (job_path index) job)
        × IsClean (schedule_messages (job_path index) job)
  unfolding job_messages
  job-IsClean seen index job h =
      IsClean-five (id_messages seen (job_path index) job) (command_messages (job_path index) job)
        (blank_shell (job_path index) job.shell) (schedule_messages (job_path index) job)
        (directory_messages runtime host manifest project_root
          (job_path index ++ codes "/working_dir")
          (directory_of runtime host manifest project_root job))
        h

  job-unseen :
      (seen : List Text) (index : ℕ) (job : JobDefinition)
      → IsClean (job_messages runtime host manifest project_root seen index job)
      → any (λ k. k == job.id) seen ≡ false
  job-unseen seen index job h =
      error_if-IsClean (any (λ k. k == job.id) seen) _ _ (job-IsClean seen index job h).0

  jobs-Distinct :
      (seen : List Text) (index : ℕ) (jobs : List JobDefinition)
      → IsClean (jobs_messages runtime host manifest project_root seen index jobs)
      → All (λ j. any (λ k. k == j.id) seen ≡ false) jobs × Distinct (λ j. j.id) jobs
  unfolding jobs_messages
  jobs-Distinct seen index [] h = (tt, tt)
  jobs-Distinct seen index (job ∷ jobs) h =
      let (here, there) =
        IsClean-append (job_messages runtime host manifest project_root seen index job) _ h in
      let (fresh, distinct) = jobs-Distinct (job.id ∷ seen) (index + 1) jobs there in
      (
        (
          job-unseen seen index job here,
          All-imp _ _ jobs (λ j k. tail_free job.id j.id seen k) fresh,
        ),
        (
          All-imp _ _ jobs
              (λ j k. λ same.
                absurd (cc (head_ne job.id j.id seen k, (text_eq_iff job.id j.id).1 (sym same))))
              fresh,
          distinct,
        ),
      )

  validate_semantics-jobs :
      (messages : List ValidationMessage)
      → validate_semantics runtime host manifest project_root ≡ ok messages
      → IsClean messages
      → IsClean (jobs_messages runtime host manifest project_root [] 0 manifest.jobs)
  unfolding validate_semantics
  validate_semantics-jobs messages ran clean =
      let (zones, _, made) =
        >>=-eq-ok (default_timezone runtime host manifest project_root manifest.defaults.timezone) _
          ran in
      let all_clean =
        subst IsClean
          (sym (
            ap
              (λ (r : Result NativeError (List ValidationMessage)). elim r [
                | ok m ↦ m
                | err x ↦ []
              ])
              made))
          clean in
      (IsClean-append zones _ (IsClean-append _ _ all_clean).1).1

  -- Where the semantic validation finds no error, the qualified ids of the normalized jobs are
  -- distinct.
  pub validate_semantics-Distinct :
      (manifest_path : Text) (messages : List ValidationMessage)
      → validate_semantics runtime host manifest project_root ≡ ok messages
      → (split_validation_messages messages).0 ≡ []
      → Distinct
          (λ j. j.qualified_id)
          (normalize_manifest runtime manifest project_root manifest_path).jobs
  unfolding split_validation_messages
  validate_semantics-Distinct manifest_path messages ran clean =
      normalize_manifest-Distinct runtime manifest project_root manifest_path
        (jobs-Distinct [] 0 manifest.jobs (validate_semantics-jobs messages ran clean)).1

  -- What the validation makes sure of for a schedule.
  abbrev pub HasFields : JobDefinition → Type 0
  HasFields job = (job.schedule.kind ≡ ScheduleKind.every) ⊎ (length (split job.schedule.value) ≡ 5)

  schedule-HasFields :
      (kind : ScheduleKind) (value path : Text)
      → IsClean (validate_schedule kind value path)
      → (kind ≡ ScheduleKind.every) ⊎ (length (split value) ≡ 5)
  unfolding validate_schedule
  schedule-HasFields ScheduleKind.every value path h = inl refl
  schedule-HasFields ScheduleKind.cron value path h =
      elim (Bool-cases (nat_eq (length (split value)) 5)) [
        | inl e ↦ inr ((nat_eq_iff _ _).0 e)
        | inr e ↦ absurd (cc (rw (e, text_eq_self (codes "error")) at h))
      ]

  job-HasFields :
      (seen : List Text) (index : ℕ) (job : JobDefinition)
      → IsClean (job_messages runtime host manifest project_root seen index job)
      → HasFields job
  job-HasFields seen index job h =
      schedule-HasFields job.schedule.kind job.schedule.value (job_path index ++ codes "/schedule")
        (job-IsClean seen index job h).1

  jobs-HasFields :
      (seen : List Text) (index : ℕ) (jobs : List JobDefinition)
      → IsClean (jobs_messages runtime host manifest project_root seen index jobs)
      → All HasFields jobs
  unfolding jobs_messages
  jobs-HasFields seen index [] h = tt
  jobs-HasFields seen index (job ∷ jobs) h =
      let (here, there) =
        IsClean-append (job_messages runtime host manifest project_root seen index job) _ h in
      (job-HasFields seen index job here, jobs-HasFields (job.id ∷ seen) (index + 1) jobs there)

  -- Where the semantic validation finds no error, each schedule is an interval or has five fields.
  pub validate_semantics-HasFields :
      (messages : List ValidationMessage)
      → validate_semantics runtime host manifest project_root ≡ ok messages
      → (split_validation_messages messages).0 ≡ []
      → All HasFields manifest.jobs
  unfolding split_validation_messages
  validate_semantics-HasFields messages ran clean =
      jobs-HasFields [] 0 manifest.jobs (validate_semantics-jobs messages ran clean)
