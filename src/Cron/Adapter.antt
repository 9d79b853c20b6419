-- ===== src/Cron/Adapter.antt =====
-- The operations of adapters/cron.py on a machine: `render_cron_block`, `inspect_cron_project`,
-- `collect_cron_project_state`, `apply_cron_plan` and `prune_cron_project`, with `write_wrapper` of
-- wrapper.py and `save_project_state` of state_store.py.
pub mod Render
pub mod Apply
pub mod Settled
use xcron.Base.{
  Bool, true, false, not, if◌then◌else◌, Option, none, some, List, [], ◌∷◌, ◌++◌, map, Text, codes,
  text_Eq, ◌==◌, Dict, get, put, remove, sort, lf, join_lines, splitlines, Result, ok, err,
}
use xcron.Contracts.{NormalizedJob, ProjectPlan, ProjectState, DeployedJobState}
use xcron.Planner.{NativeError, value_error, index, id_leb, or_else, some_or_else}
use xcron.Layout.{Pathlib, RuntimeLayout}
use xcron.Wrapper.{RenderedWrapper, render_wrapper}
use xcron.Cron.Schedule.{render_cron_schedule}
use xcron.Cron.Block.{begin_line, end_marker, job_lines, replace_project_block}
use xcron.Cron.Inspect.{CronInspection, outside, read_lines}
use xcron.Cron.Machine.{
  Machine, Run, ◌>>=◌, ◌>>◌, return, lift, change, CrontabCommand, read_crontab, write_crontab,
}

pub record DeploymentPlan : Type 0 where
  pub backend : Text
  pub plan : ProjectPlan
  pub state_path : Text
  pub manifest_hash : Text
  pub job_hashes : Dict Text
  pub job_definition_hashes : Dict Text

-- `write_text` and `chmod(0o755)`; the directories are made where they are missing.
unfoldable pub write_wrapper : RenderedWrapper → Run Text
write_wrapper rendered = do
  let path = rendered.runtime_paths.wrapper_path
  change (λ m. record m { files = put path rendered.content m.files; modes = put path 493 m.modes })
  return path

abbrev pub cron_name : Text
cron_name = codes "cron"

-- The path of the crontab in what the inspection says, where it is the user's own.
abbrev pub artifact_of : Option Text → Text
artifact_of none = codes "<user crontab>"
artifact_of (some path) = path

abbrev pub deployed_of : CronInspection → DeployedJobState
deployed_of item = record {
  qualified_id = item.qualified_id;
  job_id = some_or_else item.job_id item.qualified_id;
  artifact_id = item.qualified_id;
  backend = cron_name;
  enabled = item.enabled;
  desired_hash = item.desired_hash;
  definition_hash = some item.definition_hash;
  observed_hash = some item.desired_hash;
  label = none;
  artifact_path = some item.artifact_path;
  wrapper_path = some item.wrapper_path;
  stdout_log_path = some item.stdout_log_path;
  stderr_log_path = some item.stderr_log_path;
  event_log_path = some item.event_log_path;
  last_applied_at = none;
}

abbrev pub found_state : Text → List CronInspection → ProjectState
found_state project_id inspections = record {
  project_id = project_id;
  backend = cron_name;
  manifest_hash = none;
  jobs = map deployed_of inspections;
  updated_at = none;
}

module _ (paths : Pathlib) (command : CrontabCommand) where
  unfoldable pub inspect_cron_project : Text → Option Text → Run (List CronInspection)
  inspect_cron_project project_id crontab_path = do
    content ← read_crontab command crontab_path
    lift (read_lines paths (artifact_of crontab_path) project_id outside (splitlines content))

  unfoldable pub collect_cron_project_state : Text → Option Text → Run ProjectState
  collect_cron_project_state project_id crontab_path = do
    inspections ← inspect_cron_project project_id crontab_path
    return (found_state project_id inspections)

module _ (layout : RuntimeLayout) (state_root : Option Text) where
  module _ (desired_hashes definition_hashes : Dict Text) where
    -- The loop of `render_cron_block`: the lines it adds, and `wrapper_paths`.
    unfoldable pub render_jobs : List NormalizedJob → Dict Text → Run (List Text × Dict Text)
    render_jobs [] wrapper_paths = return ([], wrapper_paths)
    render_jobs (job ∷ jobs) wrapper_paths = do
      desired_hash ← lift (index desired_hashes job.qualified_id)
      definition_hash ← lift (index definition_hashes job.qualified_id)
      wrapper_path ← write_wrapper (render_wrapper layout job desired_hash state_root)
      schedule ← lift (render_cron_schedule job)
      (lines, all_paths) ← render_jobs jobs (put job.qualified_id wrapper_path wrapper_paths)
      return (job_lines job desired_hash definition_hash schedule wrapper_path ++ lines, all_paths)

    unfoldable pub render_cron_block : List NormalizedJob → Run (Text × Dict Text)
    render_cron_block [] =
        lift (err (value_error (codes "cannot render cron block without any jobs")))
    render_cron_block (first ∷ jobs) = do
      (lines, wrapper_paths) ← render_jobs (first ∷ jobs) []
      let project_id = first.project_id
      return (
        join_lines (begin_line project_id ∷ (lines ++ end_marker project_id ∷ [])) ++ lf ∷ [],
        wrapper_paths,
      )

    -- The block of the jobs, if there are any, and `wrapper_paths`.
    unfoldable pub render_replacement : List NormalizedJob → Run (Option Text × Dict Text)
    render_replacement [] = return (none, [])
    render_replacement (job ∷ jobs) = do
      (block, wrapper_paths) ← render_cron_block (job ∷ jobs)
      return (some block, wrapper_paths)

    module _ (crontab_path : Option Text) (timestamp : Text) (wrapper_paths : Dict Text) where
      abbrev pub applied_state : NormalizedJob → Text → Text → Text → DeployedJobState
      applied_state job desired_hash definition_hash wrapper_path =
          let runtime_paths = layout.runtime_paths job state_root in
          record {
            qualified_id = job.qualified_id;
            job_id = job.job_id;
            artifact_id = job.artifact_id;
            backend = cron_name;
            enabled = job.enabled;
            desired_hash = desired_hash;
            definition_hash = some definition_hash;
            observed_hash = some desired_hash;
            label = none;
            artifact_path = crontab_path;
            wrapper_path = some wrapper_path;
            stdout_log_path = some runtime_paths.stdout_log_path;
            stderr_log_path = some runtime_paths.stderr_log_path;
            event_log_path = some runtime_paths.event_log_path;
            last_applied_at = some timestamp;
          }

      -- The loop over the jobs, which records what was applied.
      unfoldable pub applied_jobs : List NormalizedJob → Run (List DeployedJobState)
      applied_jobs [] = return []
      applied_jobs (job ∷ jobs) = do
        desired_hash ← lift (index desired_hashes job.qualified_id)
        definition_hash ← lift (index definition_hashes job.qualified_id)
        wrapper_path ← lift (index wrapper_paths job.qualified_id)
        states ← applied_jobs jobs
        return (applied_state job desired_hash definition_hash wrapper_path ∷ states)

  -- `updated_at or utc_timestamp()`: the clock is read again, where the state has no time.
  unfoldable pub save_project_state : Text → ProjectState → Run (Unit {0})
  save_project_state now state = change (λ m. record m {
    states =
        put (layout.project_state_path state.project_id state_root)
          (record state { updated_at = some (some_or_else state.updated_at now) }) m.states;
  })

module _ (layout : RuntimeLayout) (command : CrontabCommand) (state_root crontab_path : Option Text)
    (manage_crontab : Bool) where
  -- `timestamp` is what the clock shows.
  unfoldable pub apply_cron_plan : DeploymentPlan → Text → Run ProjectState
  apply_cron_plan deployment timestamp =
      let manifest = deployment.plan.manifest in
      if not (deployment.backend == cron_name)
      then lift
          (err (value_error (codes "cron backend received non-cron plan: " ++ deployment.backend)))
      else do
        current_content ← if manage_crontab then read_crontab command crontab_path else return []
        (block, wrapper_paths) ←
            render_replacement layout state_root deployment.job_hashes
              deployment.job_definition_hashes manifest.jobs
        let new_content = replace_project_block current_content manifest.project_id block
        if manage_crontab then write_crontab command new_content crontab_path else return tt
        state_jobs ←
            applied_jobs layout state_root deployment.job_hashes deployment.job_definition_hashes
              crontab_path timestamp wrapper_paths manifest.jobs
        let state : ProjectState = record {
          project_id = manifest.project_id;
          backend = cron_name;
          manifest_hash = some deployment.manifest_hash;
          jobs = sort id_leb state_jobs;
          updated_at = some timestamp;
        }
        save_project_state layout state_root timestamp state
        return state

-- `unlink(missing_ok=True)` of each wrapper
unfoldable pub unlink_wrappers : List CronInspection → Machine → Machine
unlink_wrappers [] m = m
unlink_wrappers (item ∷ items) m = unlink_wrappers items (record m {
  files = remove item.wrapper_path m.files;
  modes = remove item.wrapper_path m.modes;
})

module _ (paths : Pathlib) (command : CrontabCommand) where
  unfoldable pub prune_cron_project : Text → Option Text → Bool → Run (List CronInspection)
  prune_cron_project project_id crontab_path manage_crontab = do
    inspections ← inspect_cron_project paths command project_id crontab_path
    content ← read_crontab command crontab_path
    let new_content = replace_project_block content project_id none
    if manage_crontab then write_crontab command new_content crontab_path else return tt
    change (unlink_wrappers inspections)
    return inspections
