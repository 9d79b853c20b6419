-- ===== src/Launchd/Plist/Recovered.antt =====
-- What is read out of a property list is what it was rendered for.
use xcron.Base.{
  Bool, true, false, not, ◌≡◌, ◌≢◌, ◌↔◌, refl, sym, ap, ◌∙◌, inl, inr, Option, none, some, List, [],
  ◌∷◌, Text, text_eq, text_Eq, codes, Dict, get, put, List-cases, ok,
}
use xcron.Contracts.{
  NormalizedJob, PlanChangeKind, DeployedJobState, PlistValue, string, strings, string_dict,
}
use xcron.Planner.{compare_job, or_else}
use xcron.Planner.Kinds.{InSync, InSync→noop, noop→InSync}
use xcron.Layout.{Pathlib, wrapper_log_paths, wrapper_event_log_path}
use xcron.Launchd.Schedule.{LaunchdSchedule, start_interval, start_calendar, start_calendars}
use xcron.Launchd.Plist.{
  launchd_name, build_launchd_label, plist_of, LaunchdInspection, is_listed, inspect_plist,
  launchd_deployed,
}

or_else_nil : (s : Text) → or_else s [] ≡ s
or_else_nil [] = refl
or_else_nil (c ∷ s) = refl

not-not : (b : Bool) → not (not b) ≡ b
not-not true = refl
not-not false = refl

not-eq : (a b : Bool) → not a ≡ b → a ≡ not b
not-eq a b h = sym (not-not a) ∙ ap not h

module _ (job : NormalizedJob) (desired_hash definition_hash wrapper_path : Text) where
  abbrev pub plist : LaunchdSchedule → Dict PlistValue
  plist = plist_of job desired_hash definition_hash wrapper_path

  abbrev variables : Dict Text
  variables =
      (codes "XCRON_PROJECT_ID", job.project_id)
      ∷ (codes "XCRON_JOB_ID", job.job_id)
      ∷ (codes "XCRON_QUALIFIED_ID", job.qualified_id)
      ∷ (codes "XCRON_DESIRED_HASH", desired_hash)
      ∷ (codes "XCRON_DEFINITION_HASH", definition_hash)
      ∷ []

  plist-label :
      (schedule : LaunchdSchedule)
      → get (codes "Label") (plist schedule) ≡ some (string (build_launchd_label job))
  unfolding plist_of put get codes text_eq
  plist-label (start_interval n) = refl
  plist-label (start_calendar d) = refl
  plist-label (start_calendars ds) = refl

  plist-arguments :
      (schedule : LaunchdSchedule)
      → get (codes "ProgramArguments") (plist schedule) ≡ some (strings (wrapper_path ∷ []))
  unfolding plist_of put get codes text_eq
  plist-arguments (start_interval n) = refl
  plist-arguments (start_calendar d) = refl
  plist-arguments (start_calendars ds) = refl

  plist-environment :
      (schedule : LaunchdSchedule)
      → get (codes "EnvironmentVariables") (plist schedule) ≡ some (string_dict variables)
  unfolding plist_of put get codes text_eq
  plist-environment (start_interval n) = refl
  plist-environment (start_calendar d) = refl
  plist-environment (start_calendars ds) = refl

  module _ (paths : Pathlib) (disabled : List Text) (service_status : Text → Bool × Option Text)
      (plist_path : Text) (raw : Dict PlistValue) where
    abbrev label : Text
    label = build_launchd_label job

    abbrev pub recovered : LaunchdInspection
    recovered =
        let wrapper = paths.of_text wrapper_path in
        record {
          qualified_id = job.qualified_id;
          job_id = some job.job_id;
          label = label;
          plist_path = plist_path;
          wrapper_path = some wrapper;
          desired_hash = some desired_hash;
          definition_hash = some definition_hash;
          enabled = not (is_listed label disabled);
          loaded = (service_status label).0;
          raw_plist = raw;
          stdout_log_path = some (wrapper_log_paths paths wrapper).0;
          stderr_log_path = some (wrapper_log_paths paths wrapper).1;
          event_log_path = some (wrapper_event_log_path paths wrapper);
          launchctl_print = (service_status label).1;
        }

    -- Where a list that was rendered for a job comes back with the same entries, it is inspected
    -- as this job, with its ids, its label, its hashes and its wrapper.
    pub inspect_plist-recovered :
        (schedule : LaunchdSchedule)
        → ((k : Text) → get k raw ≡ get k (plist schedule))
        → inspect_plist paths disabled service_status plist_path raw ≡ ok recovered
    unfolding inspect_plist
    inspect_plist-recovered schedule same =
        rw
          (
            same (codes "EnvironmentVariables"),
            plist-environment schedule,
            same (codes "Label"),
            plist-label schedule,
            same (codes "ProgramArguments"),
            plist-arguments schedule,
          )
          (unfold get codes text_eq in refl)

    abbrev found : DeployedJobState
    found = launchd_deployed recovered

    found-InSync :
        definition_hash ≢ []
        → is_listed label disabled ≡ not job.enabled
        → InSync launchd_name definition_hash job found
    unfolding launchd_deployed
    found-InSync filled listed = record {
      untouched = λ h e.
          sym (ap (λ o. elim o [ none ↦ h | some x ↦ x ]) e) ∙ sym (or_else_nil desired_hash);
      same_backend = refl;
      same_definition = elim (List-cases definition_hash) [
        | inl blank ↦ absurd (filled blank)
        | inr (c, rest, shape) ↦ rw shape refl
      ];
      same_enabled = rw listed (not-not job.enabled);
    }

    -- Where the definition hash is not empty, the job that was read out of its property list is
    -- planned to stay as it is exactly when its label is disabled where the job is.
    pub compare_job-recovered :
        definition_hash ≢ []
        → ((compare_job launchd_name desired_hash definition_hash job
              (some (launchd_deployed recovered))).kind
            ≡ PlanChangeKind.noop)
          ↔ (is_listed (build_launchd_label job) disabled ≡ not job.enabled)
    unfolding launchd_deployed
    compare_job-recovered filled = (
      λ quiet.
          not-eq (is_listed label disabled) job.enabled
            (noop→InSync launchd_name desired_hash definition_hash job found quiet).same_enabled,
      λ listed.
          InSync→noop launchd_name desired_hash definition_hash job found
            (found-InSync filled listed),
    )
