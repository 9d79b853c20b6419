-- ===== src/Wrapper.antt =====
-- capabilities/xcron-capability-scheduler-native/src/xcron/capabilities/scheduler_native/wrapper.py:
-- the shell script that is installed for a job.
pub mod Script
pub mod Quote
pub mod Unquote
use Script.{metric_function, event_function, replay_function}
use Quote.{shell_quote}
use xcron.Base.{
  Bool, if◌then◌else◌, Option, none, some, List, [], ◌∷◌, ◌++◌, Text, codes, Dict, join_lines,
}
use xcron.Contracts.{NormalizedJob, OverlapPolicy, allow, forbid, RuntimePaths}
use xcron.Layout.{RuntimeLayout}

pub record RenderedWrapper : Type 0 where
  pub job : NormalizedJob
  pub desired_hash : Text
  pub runtime_paths : RuntimePaths
  pub content : Text

-- `export TZ=...`, where the timezone is there and not empty
abbrev timezone_lines : Option Text → List Text
timezone_lines none = []
timezone_lines (some []) = []
timezone_lines (some (c ∷ s)) = (codes "export TZ=" ++ shell_quote (c ∷ s)) ∷ []

abbrev env_lines : Dict Text → List Text
env_lines [] = []
env_lines ((key, value) ∷ env) =
    (codes "export " ++ (key ++ (codes "=" ++ shell_quote value))) ∷ env_lines env

module _ (job : NormalizedJob) (desired_hash : Text) (runtime_paths : RuntimePaths) where
  abbrev prologue : List Text
  prologue =
      codes "#!/bin/sh"
      ∷ codes "# xcron managed wrapper"
      ∷ (codes "# qualified_id: " ++ job.qualified_id)
      ∷ (codes "# desired_hash: " ++ desired_hash)
      ∷ codes "set -eu"
      ∷ []
      ∷ (codes "mkdir -p " ++ shell_quote runtime_paths.logs_dir)
      ∷ (codes "mkdir -p " ++ shell_quote runtime_paths.locks_dir)
      ∷ (codes "exec >>"
          ++ (shell_quote runtime_paths.stdout_log_path
              ++ (codes " 2>>" ++ shell_quote runtime_paths.stderr_log_path)))
      ∷ (codes "EVENT_LOG_PATH=" ++ shell_quote runtime_paths.event_log_path)
      ∷ (codes "STDOUT_LOG_PATH=" ++ shell_quote runtime_paths.stdout_log_path)
      ∷ (codes "STDERR_LOG_PATH=" ++ shell_quote runtime_paths.stderr_log_path)
      ∷ (codes "QUALIFIED_ID=" ++ shell_quote job.qualified_id)
      ∷ (codes "DESIRED_HASH=" ++ shell_quote desired_hash)
      ∷ (codes "JOB_COMMAND=" ++ shell_quote job.execution.command)
      ∷ (codes "JOB_WORKING_DIR=" ++ shell_quote job.execution.working_dir)
      ∷ codes "RUN_ID=$(date -u +\"%Y%m%dT%H%M%SZ\")-$$"
      ∷ codes "RUN_STARTED=0"
      ∷ codes "FINISH_REPORTED=0"
      ∷ codes "STDOUT_TMP="
      ∷ codes "STDERR_TMP="
      ∷ []

  abbrev finish_lines : List Text
  finish_lines =
      []
      ∷ codes "finish_run() {"
      ∷ codes "  status=$1"
      ∷ codes "  if [ \"${FINISH_REPORTED:-0}\" -eq 1 ]; then"
      ∷ codes "    return"
      ∷ codes "  fi"
      ∷ codes "  FINISH_REPORTED=1"
      ∷ codes "  if [ \"${RUN_STARTED:-0}\" -eq 1 ]; then"
      ∷ codes "    FINISHED_AT=$(date -u +\"%Y-%m-%dT%H:%M:%SZ\")"
      ∷ codes "    FINISHED_EPOCH=$(date +%s)"
      ∷ codes "    DURATION_SECONDS=$((FINISHED_EPOCH - STARTED_EPOCH))"
      ∷ codes "    xcron_metric ticks.finished"
      ∷ codes
          "    XCRON_EXIT_CODE=\"$status\" XCRON_DURATION_SECONDS=\"$DURATION_SECONDS\" xcron_event job_finished"
      ∷ (codes "    printf \"%s event=job_finished run_id=%s qualified_id="
          ++ (job.qualified_id
              ++ (codes " desired_hash="
                  ++ (desired_hash
                      ++ codes
                          " exit_code=%s duration_seconds=%s\\n\" \"$FINISHED_AT\" \"$RUN_ID\" \"$status\" \"$DURATION_SECONDS\" >&2"))))
      ∷ codes "  fi"
      ∷ codes "}"
      ∷ codes "on_exit() {"
      ∷ codes "  status=$?"
      ∷ codes "  finish_run \"$status\""
      ∷ codes "  if [ -n \"${LOCK_DIR:-}\" ]; then"
      ∷ codes "    rmdir \"$LOCK_DIR\" 2>/dev/null || true"
      ∷ codes "  fi"
      ∷ codes "  rm -f \"${STDOUT_TMP:-}\" \"${STDERR_TMP:-}\""
      ∷ codes "}"
      ∷ codes "on_int() { exit 130; }"
      ∷ codes "on_term() { exit 143; }"
      ∷ codes "trap on_exit EXIT"
      ∷ codes "trap on_int INT"
      ∷ codes "trap on_term TERM"
      ∷ []

  abbrev forbid_lines : List Text
  forbid_lines =
      []
      ∷ (codes "LOCK_DIR=" ++ shell_quote runtime_paths.lock_path)
      ∷ codes "if ! mkdir \"$LOCK_DIR\" 2>/dev/null; then"
      ∷ (codes "  printf \"%s\\n\" \"xcron: skipped overlapping run for "
          ++ (job.qualified_id ++ codes "\" >&2"))
      ∷ codes "  exit 0"
      ∷ codes "fi"
      ∷ []

  abbrev run_lines : List Text
  run_lines =
      []
      ∷ codes "STARTED_AT=$(date -u +\"%Y-%m-%dT%H:%M:%SZ\")"
      ∷ codes "STARTED_EPOCH=$(date +%s)"
      ∷ codes "RUN_STARTED=1"
      ∷ codes "xcron_metric ticks.started"
      ∷ codes "xcron_event job_started"
      ∷ (codes "printf \"%s event=job_started run_id=%s qualified_id="
          ++ (job.qualified_id
              ++ (codes " desired_hash="
                  ++ (desired_hash
                      ++ (codes " pid=%s command=%s cwd=%s\\n\" \"$STARTED_AT\" \"$RUN_ID\" \"$$\" "
                          ++ (shell_quote job.execution.command
                              ++ (codes " "
                                  ++ (shell_quote job.execution.working_dir ++ codes " >&2"))))))))
      ∷ codes "STDOUT_TMP=$(mktemp \"${TMPDIR:-/tmp}/xcron.${RUN_ID}.stdout.XXXXXX\")"
      ∷ codes "STDERR_TMP=$(mktemp \"${TMPDIR:-/tmp}/xcron.${RUN_ID}.stderr.XXXXXX\")"
      ∷ codes "set +e"
      ∷ (shell_quote job.execution.shell
          ++ (codes " -lc "
              ++ (shell_quote job.execution.command
                  ++ codes " >\"$STDOUT_TMP\" 2>\"$STDERR_TMP\"")))
      ∷ codes "status=$?"
      ∷ codes "set -e"
      ∷ codes "xcron_replay_stream stdout \"$STDOUT_TMP\""
      ∷ codes "xcron_replay_stream stderr \"$STDERR_TMP\""
      ∷ codes "finish_run \"$status\""
      ∷ codes "exit \"$status\""
      ∷ []
      ∷ []

  abbrev lock_lines : OverlapPolicy → List Text
  lock_lines allow = []
  lock_lines forbid = forbid_lines

  unfoldable pub wrapper_lines : List Text
  wrapper_lines =
      prologue
      ++ (metric_function
          ++ (event_function
              ++ (replay_function
                  ++ ((codes "cd " ++ shell_quote job.execution.working_dir)
                      ∷ (timezone_lines job.execution.timezone
                          ++ (env_lines job.execution.env
                              ++ (finish_lines
                                  ++ (lock_lines job.execution.overlap ++ run_lines))))))))

unfoldable pub render_wrapper : RuntimeLayout → NormalizedJob → Text → Option Text → RenderedWrapper
render_wrapper layout job desired_hash state_root =
    let runtime_paths = layout.runtime_paths job state_root in
    record {
      job = job;
      desired_hash = desired_hash;
      runtime_paths = runtime_paths;
      content = join_lines (wrapper_lines job desired_hash runtime_paths);
    }
