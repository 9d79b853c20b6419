-- ===== src/Cron/Adapter/Apply.antt =====
-- Applying a plan to a crontab in a file, and collecting the state again.
use xcron.Base.{
  true, false, ◌≡◌, ap, ◌∙◌, Option, none, some, List, [], ◌∷◌, ◌++◌, map, Text, text_eq_self,
  text_Eq, starts_with, get, put, get-put, All, ok, splitlines, sort,
}
use xcron.Base.Lines.Splitting.{unlines, join_lines-lf}
use xcron.Base.Lines.Words.{IsWord}
use xcron.Contracts.{ProjectState}
use xcron.Planner.{id_leb, or_else}
use xcron.Layout.{Pathlib, RuntimeLayout}
use xcron.Cron.Block.{begin_line, begin_marker, end_marker, replace_project_block}
use xcron.Cron.Block.Replace.{IsBlock}
use xcron.Cron.Inspect.{outside, read_lines}
use xcron.Cron.Inspect.RoundTrip.{Entry, IsReadable, entries_lines, block_lines, inspection_of}
use xcron.Cron.Inspect.Blocks.{inspect-replaced, inspect-added}
use xcron.Cron.Machine.{Machine, CrontabCommand, read_crontab, write_crontab, file_or_empty}
use xcron.Cron.Adapter.{
  DeploymentPlan, cron_name, deployed_of, collect_cron_project_state, inspect_cron_project,
  apply_cron_plan, render_cron_block, render_replacement, save_project_state,
}
use xcron.Cron.Adapter.Render.{Rendering, IsRendered, rendering, applied_jobs-ok, jobs_of}

-- The crontab has no begin marker of the project, or a block of it behind lines without one.
pub record HasBlock (project_id content : Text) : Type 0 where
  pub before : List Text
  pub old : List Text
  pub after : List Text
  pub shape : splitlines content ≡ before ++ (old ++ after)
  pub free : All (λ l. starts_with l (begin_marker project_id) ≡ false) before
  pub block : IsBlock project_id old

pub data IsManageable (project_id content : Text) : Type 0 where
  fresh :
      All (λ l. starts_with l (begin_marker project_id) ≡ false) (splitlines content)
      → IsManageable project_id content
  held : HasBlock project_id content → IsManageable project_id content

module _ (paths : Pathlib) (layout : RuntimeLayout) (command : CrontabCommand)
    (state_root : Option Text) (path : Text) where
  abbrev pub crontab_of : Machine → Text
  crontab_of m = file_or_empty (get path m.files)

  -- What has to hold for the jobs of the manifest to be applied, as the entries that they become.
  pub record IsApplicable (deployment : DeploymentPlan) (e : Entry) (es : List Entry) (m : Machine)
      : Type 0 where
    pub for_cron : deployment.backend ≡ cron_name
    pub jobs : deployment.plan.manifest.jobs ≡ jobs_of (e ∷ es)
    pub one_project : e.job.project_id ≡ deployment.plan.manifest.project_id
    pub word : IsWord deployment.plan.manifest.project_id
    pub rendered :
        All
          (IsRendered layout state_root deployment.job_hashes deployment.job_definition_hashes)
          (e ∷ es)
    pub readable : All IsReadable (e ∷ es)
    pub manageable : IsManageable deployment.plan.manifest.project_id (crontab_of m)

  module _ (deployment : DeploymentPlan) (timestamp : Text) (e : Entry) (es : List Entry)
      (m : Machine) (h : IsApplicable deployment e es m) where
    abbrev project_id : Text
    project_id = deployment.plan.manifest.project_id

    abbrev block : Text
    block = unlines (block_lines project_id (e ∷ es))

    abbrev rendered_all :
        Rendering layout state_root deployment.job_hashes deployment.job_definition_hashes
          (e ∷ es)
          []
          m
    rendered_all =
        rendering layout state_root deployment.job_hashes deployment.job_definition_hashes (e ∷ es)
          [] m h.rendered

    replaces :
        render_replacement layout state_root deployment.job_hashes deployment.job_definition_hashes
          (jobs_of (e ∷ es))
          m
        ≡ (rendered_all.machine, ok (some block, rendered_all.all_paths))
    unfolding render_replacement render_cron_block
    replaces = rw rendered_all.runs (
        ap (λ t. (rendered_all.machine, ok (some t, rendered_all.all_paths)))
          (join_lines-lf (begin_line e.job.project_id)
              (entries_lines (e ∷ es) ++ end_marker e.job.project_id ∷ [])
            ∙ ap (λ p. unlines (block_lines p (e ∷ es))) h.one_project))

    -- The plan is applied, and the crontab has the block of the jobs.
    pub apply_cron_plan-installs :
        (m' : Machine) × (state : ProjectState) × (apply_cron_plan layout command state_root
            (some path)
            true
            deployment
            timestamp
            m
          ≡ (m', ok state))
        × (crontab_of m' ≡ replace_project_block (crontab_of m) project_id (some block))
    unfolding apply_cron_plan read_crontab write_crontab save_project_state
    apply_cron_plan-installs =
        let r = rendered_all in
        let content = replace_project_block (crontab_of m) project_id (some block) in
        let written : Machine = record r.machine { files = put path content r.machine.files } in
        let (states, recorded) =
          applied_jobs-ok layout state_root deployment.job_hashes deployment.job_definition_hashes
            (some path) timestamp r.all_paths (e ∷ es) written h.rendered r.has in
        let state : ProjectState = record {
          project_id = project_id;
          backend = cron_name;
          manifest_hash = some deployment.manifest_hash;
          jobs = sort id_leb states;
          updated_at = some timestamp;
        } in
        let saved : Machine = record written {
          states =
              put (layout.project_state_path project_id state_root)
                (record state { updated_at = some (or_else timestamp timestamp) }) written.states;
        } in
        let found : get path written.files ≡ some content =
          get-put path path content r.machine.files ∙ rw (text_eq_self path) in
        (
          saved,
          state,
          rw (h.for_cron, text_eq_self cron_name, h.jobs, replaces, recorded),
          ap file_or_empty found,
        )

    -- The entries are read back from the new crontab.
    inspects :
        read_lines paths path project_id outside
          (splitlines (replace_project_block (crontab_of m) project_id (some block)))
        ≡ ok (map (inspection_of paths path) (e ∷ es))
    inspects = elim h.manageable [
      | fresh free ↦
          inspect-added project_id h.word paths path (crontab_of m) (e ∷ es) h.readable free
      | held b ↦
          inspect-replaced project_id h.word paths path (crontab_of m) (e ∷ es) h.readable b.before
            b.old b.after b.shape b.free b.block
    ]

    abbrev pub collected : ProjectState
    collected = record {
      project_id = project_id;
      backend = cron_name;
      manifest_hash = none;
      jobs = map deployed_of (map (inspection_of paths path) (e ∷ es));
      updated_at = none;
    }

    -- A plan for cron with at least one job, whose jobs can be rendered and written as words and
    -- schedules of five fields, is applied to a crontab in a file, and the state that is collected
    -- from it then has these jobs, with their hashes and their enabled state.
    pub apply_cron_plan-collect :
        (m' : Machine) × (state : ProjectState) × (apply_cron_plan layout command state_root
            (some path)
            true
            deployment
            timestamp
            m
          ≡ (m', ok state))
        × (collect_cron_project_state paths command project_id (some path) m' ≡ (m', ok collected))
    unfolding collect_cron_project_state inspect_cron_project read_crontab
    apply_cron_plan-collect =
        let (m', state, runs, content) = apply_cron_plan-installs in
        (m', state, runs, rw (content, inspects))
