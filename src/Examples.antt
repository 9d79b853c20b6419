-- ===== src/Examples.antt =====
-- Runs of the models on small inputs: a project with one job, planned, written into a crontab and
-- read back.
pub mod Service
pub mod Manifests
pub mod Order
use mathlib.Core.List.{Perm}
use xcron.Base.{
  Distinct, true, false, ◌≡◌, ap, sym, ◌∙◌, append-nil, ◌↔◌, ◌⊎◌, refl, inl, inr, Option, none,
  some, List, [], ◌∷◌, ◌++◌, Text, codes, All, Dict, get, contains, put, put_all, text_eq, arith,
  ok, sort, insert, starts_with, is_digit, is_space, is_line_break, int_of, digits_from, show_int,
  show_rounds, splitlines, lines_after, keep, all, not, is_empty,
}
use xcron.Base.Lines.Splitting.{Breakless, unlines, splitlines-unlines}
use xcron.Base.Lines.Trimming.{trim_lines}
use xcron.Base.Lines.Words.{IsWord}
use xcron.Contracts.{
  every, allow, NormalizedJob, NormalizedManifest, RuntimePaths, PlanChangeKind, StatusKind,
  DeployedJobState, ProjectState, PlanChange, ProjectPlan,
}
use xcron.Planner.{
  index, compare_job, desired_changes, extra_changes, build_project_plan, deployed_index,
  desired_index, change_leb, id_leb, plan_of,
}
use xcron.Planner.Kinds.{InSync}
use xcron.Planner.Converge.{IsDeployed, build_project_plan-noop}
use xcron.Planner.Accounts.{change_ids, job_ids, deployed_ids, is_extra, plan-ids-perm}
use xcron.Planner.Status.{shown, status-ok_iff, status-disabled_iff}
use xcron.Manifest.{JobDefinition, ProjectManifest, Runtime, normalize_manifest}
use xcron.Manifest.Identity.{normalize_manifest-Distinct}
use xcron.Layout.{Pathlib, RuntimeLayout}
use xcron.Cron.Machine.{Machine, CrontabCommand, file_or_empty}
use xcron.Cron.Adapter.{DeploymentPlan, cron_name, apply_cron_plan, collect_cron_project_state}
use xcron.Cron.Adapter.Render.{IsRendered}
use xcron.Cron.Adapter.Apply.{IsApplicable, fresh}
use xcron.Cron.Adapter.Settled.{state_after, apply_cron_plan-settled}
use xcron.Wrapper.Quote.{shell_quote}
use xcron.Wrapper.Unquote.{read_word, bare, read_word-shell_quote}
use xcron.Cron.Schedule.{
  cron_incompatible_reason, render_cron_schedule, last_char, but_last, parse_int,
}
use xcron.Cron.Schedule.Policy.{IsPortable, policy-exact}
use xcron.Cron.Block.{begin_marker, end_marker, print_lines, separate, replace_project_block}
use xcron.Cron.Block.Scan.{Runs-of_no_begin}
use xcron.Cron.Block.Laws.{IsManaged, block-Breakless}
use xcron.Cron.Block.Contract.{
  replace_project_block-idempotent, splitlines-replace_block, splitlines-add_block,
}
use xcron.Cron.Inspect.{outside, read_lines}
use xcron.Cron.Inspect.Lines.{is_lead}
use xcron.Cron.Inspect.RoundTrip.{Entry, IsReadable, block_lines, inspection_of, read_lines-block}
use xcron.Cron.Inspect.Blocks.{
  Breakless-of, word-Breakless, block_lines-IsManaged, inspect-replaced, inspect-added,
}
use xcron.Cron.Inspect.Foreign.{replace_project_block-foreign}

abbrev backend : Text
unfolding codes
backend = codes "cron"

abbrev demo : Text
unfolding codes
demo = codes "demo"

abbrev job_name : Text
unfolding codes
job_name = codes "demo.sync"

abbrev digest : Text
unfolding codes
digest = codes "abc"

abbrev job : NormalizedJob
job = record {
  project_id = demo;
  job_id = b's' ∷ [];
  qualified_id = job_name;
  artifact_id = job_name;
  enabled = true;
  schedule = record { kind = every; value = b'5' ∷ b'm' ∷ [] };
  execution = record {
    command = [];
    working_dir = [];
    shell = [];
    timezone = none;
    env = [];
    overlap = allow;
  };
  description = none;
}

abbrev manifest : NormalizedManifest
manifest = record {
  version = 1;
  project_id = demo;
  project_root = [];
  manifest_path = [];
  jobs = job ∷ [];
}

abbrev deployed : DeployedJobState
deployed = record {
  qualified_id = job_name;
  job_id = b's' ∷ [];
  artifact_id = job_name;
  backend = backend;
  enabled = true;
  desired_hash = digest;
  definition_hash = some digest;
  observed_hash = some digest;
  label = none;
  artifact_path = none;
  wrapper_path = none;
  stdout_log_path = none;
  stderr_log_path = none;
  event_log_path = none;
  last_applied_at = none;
}

abbrev state : ProjectState
state = record {
  project_id = demo;
  backend = backend;
  manifest_hash = none;
  jobs = deployed ∷ [];
  updated_at = none;
}

abbrev hashes : Dict Text
hashes = (job_name, digest) ∷ []

deployed-InSync : InSync backend digest job deployed
unfolding digest
deployed-InSync = record {
  untouched = λ h e. cc;
  same_backend = refl;
  same_definition = refl;
  same_enabled = refl;
}

job-IsDeployed : IsDeployed backend hashes hashes (deployed_index state.jobs) job
unfolding get put_all put text_eq job_name
job-IsDeployed = record {
  desired_hash = digest;
  definition_hash = digest;
  state = deployed;
  hashed = refl;
  defined = refl;
  present = refl;
  in_sync = deployed-InSync;
}

deployed_desired : contains job_name (desired_index manifest.jobs) ≡ true
unfolding get contains put_all put text_eq job_name
deployed_desired = refl

build_project_plan-noop_example :
    (plan : ProjectPlan) × (build_project_plan manifest backend digest hashes hashes state
      ≡ ok plan)
    × All (λ c. c.kind ≡ PlanChangeKind.noop) plan.changes
build_project_plan-noop_example =
    build_project_plan-noop manifest backend digest hashes hashes state (job-IsDeployed, tt)
      (deployed_desired, tt)

abbrev planned : List PlanChange
planned = compare_job backend digest digest job (some deployed) ∷ []

planned_made :
    build_project_plan manifest backend digest hashes hashes state
    ≡ ok (plan_of manifest backend digest state planned)
unfolding build_project_plan desired_changes extra_changes index get contains put_all put text_eq
    job_name digest backend sort insert id_leb
planned_made = refl

plan-ids-perm_example :
    Perm
      (change_ids (sort change_leb planned))
      (job_ids (job ∷ []) ++ deployed_ids (keep (is_extra (job ∷ [])) (deployed ∷ [])))
plan-ids-perm_example =
    plan-ids-perm manifest backend digest hashes hashes state
      (plan_of manifest backend digest state planned) planned_made

status-ok_iff_example : (shown backend digest digest job (some deployed) ≡ StatusKind.ok) ↔ (
    (true ≡ true)
    × ((d : DeployedJobState) × (some deployed ≡ some d) × InSync backend digest job d))
status-ok_iff_example = status-ok_iff backend digest digest job (some deployed)

status-disabled_iff_example : (shown backend digest digest job none ≡ StatusKind.disabled) ↔ (
    (true ≡ false)
    × ((◌≡◌ {A = Option DeployedJobState} none none)
        ⊎ ((d : DeployedJobState) × (◌≡◌ {A = Option DeployedJobState} none (some d))
            × InSync backend digest job d)))
status-disabled_iff_example = status-disabled_iff backend digest digest job none

job-IsPortable : IsPortable job
unfolding int_of digits_from is_digit
job-IsPortable = record {
  number = b'5' ∷ [];
  amount = 5;
  suffix = b'm';
  shape = refl;
  parsed = refl;
  positive = omega arith;
  unit = inr (inl refl);
}

policy-exact_example :
    (cron_incompatible_reason job ≡ ok none)
    ↔ ((line : Text) × (render_cron_schedule job ≡ ok line))
policy-exact_example = policy-exact job job-IsPortable

abbrev paths : Pathlib
paths = record {
  of_text = λ t. t;
  resolve = λ t. t;
  parent = λ t. t;
  stem = λ t. t;
  join = λ t u. t ++ u;
}

abbrev entry : Entry
entry = record {
  job = job;
  desired_hash = digest;
  definition_hash = digest;
  schedule = codes "*/5 * * * *";
  wrapper_path = codes "/w/sync.sh";
}

IsWord-of : (w : Text) → is_empty w ≡ false → all (λ c. not (is_space c)) w ≡ true → IsWord w
IsWord-of w h k = record { filled = λ e. cc (rw e at h); solid = solid_of w k }
  where
    solid_of : (v : Text) → all (λ c. not (is_space c)) v ≡ true → All (λ c. is_space c ≡ false) v
    solid_of [] e = tt
    solid_of (c ∷ v) e = (ground arith, solid_of v (ground arith))

entry-IsReadable : IsReadable entry
unfolding codes is_space job_name digest is_lead is_digit is_line_break
entry-IsReadable = record {
  qualified_id_word = IsWord-of job_name refl refl;
  job_id_word = IsWord-of (b's' ∷ []) refl refl;
  desired_hash_word = IsWord-of digest refl refl;
  definition_hash_word = IsWord-of digest refl refl;
  fields = record {
    minute = codes "*/5";
    hour = codes "*";
    day = codes "*";
    month = codes "*";
    weekday = codes "*";
    shape = refl;
    minute_word = IsWord-of (codes "*/5") refl refl;
    hour_word = IsWord-of (codes "*") refl refl;
    day_word = IsWord-of (codes "*") refl refl;
    month_word = IsWord-of (codes "*") refl refl;
    weekday_word = IsWord-of (codes "*") refl refl;
  };
  first = b'*';
  others = codes "/5 * * * *";
  schedule_shape = refl;
  leads = refl;
  path_first = b'/';
  path_others = codes "w/sync.sh";
  path_shape = refl;
  path_solid = refl;
  path_breakless = word-Breakless (codes "/w/sync.sh") (IsWord-of (codes "/w/sync.sh") refl refl);
}

demo-IsWord : IsWord demo
unfolding demo is_space
demo-IsWord = IsWord-of demo refl refl

abbrev block : List Text
block = block_lines demo (entry ∷ [])

block-IsManaged : IsManaged demo block
block-IsManaged = block_lines-IsManaged demo demo-IsWord (entry ∷ []) (entry-IsReadable, tt)

-- A crontab with one line of the user's.
abbrev user_line : Text
unfolding codes
user_line = codes "0 4 * * * backup"

user_line-free : starts_with user_line (begin_marker demo) ≡ false
unfolding starts_with codes user_line
user_line-free = refl

user_lines : splitlines user_line ≡ user_line ∷ []
unfolding splitlines lines_after user_line is_line_break
user_lines = refl

replace_project_block-idempotent_example :
    replace_project_block
      (replace_project_block user_line demo (some (unlines block)))
      demo
      (some (unlines block))
    ≡ replace_project_block user_line demo (some (unlines block))
replace_project_block-idempotent_example =
    replace_project_block-idempotent demo block block-IsManaged user_line

user_line-Breakless : Breakless user_line
unfolding user_line is_line_break codes
user_line-Breakless = Breakless-of user_line refl

abbrev content : Text
content = unlines (user_line ∷ block)

content_lines : splitlines content ≡ (user_line ∷ []) ++ (block ++ [])
content_lines =
    splitlines-unlines (user_line ∷ block)
      (user_line-Breakless, block-Breakless demo block block-IsManaged)
    ∙ ap (λ l. user_line ∷ l) (sym (append-nil block))

splitlines-replace_block_example :
    splitlines (replace_project_block content demo (some (unlines block)))
    ≡ (user_line ∷ []) ++ (block ++ trim_lines [])
splitlines-replace_block_example =
    splitlines-replace_block demo block block-IsManaged content (user_line ∷ []) block []
      content_lines
      (Runs-of_no_begin (begin_marker demo) (end_marker demo) (user_line ∷ []) 0
        (user_line-free, tt))
      (block-IsManaged.block_of)

splitlines-add_block_example :
    ((splitlines user_line ≡ [])
      × (splitlines (replace_project_block user_line demo (some (unlines block))) ≡ block))
    ⊎ ((init : List Text) × (splitlines user_line ≡ init ++ [] ∷ [])
        × (splitlines (replace_project_block user_line demo (some (unlines block)))
            ≡ splitlines user_line ++ block))
    ⊎ ((init : List Text) × (last : Text) × (splitlines user_line ≡ init ++ last ∷ [])
        × ¬ (last ≡ [])
        × (splitlines (replace_project_block user_line demo (some (unlines block)))
            ≡ splitlines user_line ++ [] ∷ block))
splitlines-add_block_example = splitlines-add_block demo block block-IsManaged user_line (
    rw user_lines (
      Runs-of_no_begin (begin_marker demo) (end_marker demo) (user_line ∷ []) 0
        (user_line-free, tt)))

read_lines-block_example :
    read_lines paths [] demo outside ((user_line ∷ []) ++ (block ++ user_line ∷ []))
    ≡ ok (inspection_of paths [] entry ∷ [])
read_lines-block_example =
    read_lines-block paths [] demo (user_line ∷ []) (entry ∷ []) (user_line ∷ [])
      (user_line-free, tt) (entry-IsReadable, tt)

inspect-replaced_example :
    read_lines paths [] demo outside
      (splitlines (replace_project_block content demo (some (unlines block))))
    ≡ ok (inspection_of paths [] entry ∷ [])
inspect-replaced_example =
    inspect-replaced demo demo-IsWord paths [] content (entry ∷ []) (entry-IsReadable, tt)
      (user_line ∷ []) block [] content_lines (user_line-free, tt) (block-IsManaged.block_of)

inspect-added_example :
    read_lines paths [] demo outside
      (splitlines (replace_project_block user_line demo (some (unlines block))))
    ≡ ok (inspection_of paths [] entry ∷ [])
inspect-added_example =
    inspect-added demo demo-IsWord paths [] user_line (entry ∷ []) (entry-IsReadable, tt)
      (rw user_lines (user_line-free, tt))

abbrev suffix : Text
unfolding codes
suffix = codes "-b"

abbrev foreign_block : List Text
foreign_block = block_lines (demo ++ suffix) (entry ∷ [])

foreign-IsManaged : IsManaged (demo ++ suffix) foreign_block
unfolding demo suffix is_space
foreign-IsManaged =
    block_lines-IsManaged (demo ++ suffix) (IsWord-of (demo ++ suffix) refl refl) (entry ∷ [])
      (entry-IsReadable, tt)

replace_project_block-foreign_example :
    replace_project_block (unlines (user_line ∷ foreign_block)) demo none
    ≡ print_lines (user_line ∷ [])
replace_project_block-foreign_example =
    replace_project_block-foreign demo suffix (unlines (user_line ∷ foreign_block)) (user_line ∷ [])
      [] (entry ∷ [])
      (splitlines-unlines (user_line ∷ foreign_block)
          (user_line-Breakless, block-Breakless (demo ++ suffix) foreign_block foreign-IsManaged)
        ∙ ap (λ l. user_line ∷ l) (sym (append-nil foreign_block)))
      (user_line-free, tt) (entry-IsReadable, tt)

read_word-shell_quote_example :
    read_word bare (shell_quote (codes "it's 5 o'clock")) ≡ some (codes "it's 5 o'clock")
read_word-shell_quote_example = read_word-shell_quote (codes "it's 5 o'clock")

-- A crontab in a file, and a workspace that puts each wrapper at one path.
abbrev crontab_path : Text
unfolding codes
crontab_path = codes "/etc/crontab"

abbrev runtime : RuntimePaths
runtime = record {
  project_dir = [];
  wrappers_dir = [];
  logs_dir = [];
  locks_dir = [];
  wrapper_path = codes "/w/sync.sh";
  stdout_log_path = [];
  stderr_log_path = [];
  event_log_path = [];
  lock_path = [];
}

abbrev layout : RuntimeLayout
layout = record { runtime_paths = λ j r. runtime; project_state_path = λ p r. p }

abbrev command : CrontabCommand
command = record {
  list = λ m. record { returncode = 0; stdout = file_or_empty m.installed; stderr = [] };
  install = λ t m. ok (record m { installed = some t });
}

abbrev machine : Machine
machine = record {
  files = (crontab_path, user_line) ∷ [];
  modes = [];
  states = [];
  installed = none;
}

abbrev deployment : DeploymentPlan
deployment = record {
  backend = cron_name;
  plan = plan_of manifest backend digest state planned;
  state_path = [];
  manifest_hash = digest;
  job_hashes = hashes;
  job_definition_hashes = hashes;
}

entry-IsRendered : IsRendered layout none hashes hashes entry
unfolding get text_eq job_name render_cron_schedule int_of digits_from is_digit last_char but_last
    parse_int show_int show_rounds codes
entry-IsRendered = record { hashed = refl; defined = refl; scheduled = refl; placed = refl }

crontab_line : file_or_empty (get crontab_path machine.files) ≡ user_line
unfolding get text_eq crontab_path
crontab_line = refl

deployment-IsApplicable :
    IsApplicable paths layout command none crontab_path deployment entry [] machine
deployment-IsApplicable = record {
  for_cron = refl;
  jobs = refl;
  one_project = refl;
  word = demo-IsWord;
  rendered = (entry-IsRendered, tt);
  readable = (entry-IsReadable, tt);
  manageable = fresh (rw (crontab_line, user_lines) (user_line-free, tt));
}

apply_cron_plan-settled_example :
    (m' : Machine) × (after : ProjectState) × (plan : ProjectPlan) × (apply_cron_plan layout command
        none
        (some crontab_path)
        true
        deployment
        digest
        machine
      ≡ (m', ok after))
    × (collect_cron_project_state paths command demo (some crontab_path) m' ≡ (
      m',
      ok (
          state_after paths layout command none crontab_path deployment digest entry [] machine
            deployment-IsApplicable),
    ))
    × (build_project_plan manifest cron_name digest hashes hashes (
          state_after paths layout command none crontab_path deployment digest entry [] machine
            deployment-IsApplicable)
        ≡ ok plan)
    × All (λ c. c.kind ≡ PlanChangeKind.noop) plan.changes
apply_cron_plan-settled_example =
    apply_cron_plan-settled paths layout command none crontab_path deployment digest entry []
      machine deployment-IsApplicable (tt, tt)

abbrev source : JobDefinition
source = record {
  id = b's' ∷ [];
  command = [];
  schedule = record { kind = every; value = b'5' ∷ b'm' ∷ [] };
  description = none;
  enabled = true;
  working_dir = none;
  shell = none;
  env = [];
  overlap = allow;
}

abbrev project : ProjectManifest
project = record {
  version = 1;
  project = record { id = demo };
  jobs = source ∷ record source { id = b's' ∷ b't' ∷ [] } ∷ [];
  defaults = record { working_dir = []; shell = []; timezone = none; env = [] };
}

abbrev host : Runtime
host = record {
  is_alnum = λ c. false;
  expanduser = λ t. t;
  is_absolute = λ t. false;
  join = λ t u. t ++ u;
  resolve = λ t. t;
}

normalize_manifest-Distinct_example :
    Distinct (λ j. j.qualified_id) (normalize_manifest host project [] []).jobs
normalize_manifest-Distinct_example =
    normalize_manifest-Distinct host project [] [] ((λ h. cc, tt), (tt, tt))
