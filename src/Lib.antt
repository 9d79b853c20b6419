-- ===== src/Lib.antt =====
-- xcron: a scheduler front end that keeps the jobs of a project manifest installed in cron or
-- launchd. Paths below are relative to the repository's root; SN stands for
-- capabilities/xcron-capability-scheduler-native/src/xcron/capabilities/scheduler_native, and CT
-- for packages/xcron-contracts/src/xcron/contracts.
--
-- Parts and files:
--   Base           the parts of Python that the program is written in: texts as lists of code
--                  points, dictionaries as association lists, `sorted`, `splitlines`, `rstrip`,
--                  `split`, `int`, and results of code that raises
--   Contracts      the values of CT/domain.py, CT/results.py and CT/requests.py that the scheduler exchanges
--   Planner        SN/domain.py: build_project_plan, build_status_entries
--   Layout         SN/layout.py: the runtime layout and the log paths of a wrapper
--   Wrapper        SN/wrapper.py: render_wrapper and shell_quote
--   Cron.Schedule  SN/cron_policy.py, and render_cron_schedule of SN/adapters/cron.py
--   Cron.Block     the lines of render_cron_block, and replace_project_block, of
--                  SN/adapters/cron.py
--   Cron.Inspect   inspect_cron_project and split_cron_entry of SN/adapters/cron.py
--   Cron.Machine   the files, the crontab and the state files; read_crontab and write_crontab
--   Cron.Adapter   render_cron_block, inspect_cron_project, collect_cron_project_state,
--                  apply_cron_plan and prune_cron_project of SN/adapters/cron.py, write_wrapper of
--                  SN/wrapper.py and save_project_state of SN/state_store.py
--   Launchd        SN/adapters/launchd.py: render_launchd_schedule, parse_calendar_field,
--                  parse_every_seconds, render_launchd_job, and the loops of
--                  inspect_launchd_project and read_disabled_labels
--   Service        SN/service.py, SN/registry.py, SN/ports.py and SN/state_store.py: the control
--                  flow of validate, plan, status, apply, prune and inspect over the backends
--   Kernel         packages/xcron-kernel/src/xcron/kernel: capability.py, errors.py, registry.py
--                  and, of host.py, _registration and close
--   Manifest       the raw manifest of CT/domain.py, and normalize_job and normalize_manifest of
--                  capabilities/xcron-capability-manifest-yaml/src/xcron/capabilities/
--                  manifest_yaml/_normalization.py
--   Manifest.Semantics, Manifest.Hashes, Manifest.Loader, Manifest.Editor
--                  _schema.py, _hashes.py, the parser of _loader.py, and _editor.py, of the same
--                  directory, with _validated_manifest of _editor.py in Manifest.Loader;
--                  Manifest.Json has the values of raw manifests
--   Examples, KernelExamples, LaunchdExamples
--                  runs on small inputs
--
-- The planner compares the jobs of a manifest with those that a backend reports; the cron backend
-- reports what Cron.Inspect reads out of the block that Cron.Block wrote into the crontab. The
-- functions of the models have the names of the functions of the code. Code that raises returns
-- `Result`. All loops are structural recursion on lists or texts, but for the
-- depth-first search of the kernel's registry (Kernel.Order.visit), which runs on fuel: one more
-- than the number of selected providers, since no name is active twice;
-- and for the host's nested builds (Kernel.Host.registration), whose fuel bounds the nesting.
--
-- pathlib and the workspace port are parameters (Layout.Pathlib, Layout.RuntimeLayout,
-- Manifest.Runtime), as is packaging (Kernel.Capability.Packaging),
-- and so are the command crontab (Cron.Machine.CrontabCommand) and the time. Logging is
-- left out. `int` is modelled for digits and, where the fields of a calendar may have one, a minus
-- sign in front; the schema and the validation of manifests let no other number through. The values
-- of a calendar field are not below 0: where the code counts down past 0, which takes an end below
-- -2 and a step below 0, Launchd.Calendar.range raises.
-- Not modelled: the launchd backend's calls of launchctl and its apply and prune, the ports of the host,
-- the selection and reading of manifest files and their JSON Schema, the command line, metrics, logs
-- and hooks.
pub mod Base
pub mod Contracts
pub mod Planner
pub mod Layout
pub mod Wrapper
pub mod Cron
pub mod Launchd
pub mod Service
pub mod Kernel
pub mod Manifest
pub mod Examples
pub mod KernelExamples
pub mod LaunchdExamples
