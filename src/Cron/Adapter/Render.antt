-- ===== src/Cron/Adapter/Render.antt =====
-- What the loop of `render_cron_block` makes of jobs that can be rendered.
use xcron.Base.{
  ◌≡◌, refl, ap, ◌∙◌, inl, inr, Option, some, List, [], ◌∷◌, ◌++◌, map, Text, text_eq, text_eq_self,
  Dict, get, put, get-put, All, Result, ok, Bool-cases,
}
use xcron.Contracts.{NormalizedJob, DeployedJobState}
use xcron.Planner.{NativeError}
use xcron.Planner.Converge.{index-eq_ok}
use xcron.Layout.{RuntimeLayout}
use xcron.Wrapper.{render_wrapper}
use xcron.Cron.Schedule.{render_cron_schedule}
use xcron.Cron.Inspect.RoundTrip.{Entry, entries_lines}
use xcron.Cron.Block.{job_lines}
use xcron.Cron.Machine.{Machine}
use xcron.Cron.Adapter.{write_wrapper, render_jobs, applied_state, applied_jobs}

abbrev pub Present : Text → Dict Text → Type 0
Present k d = (v : Text) × (get k d ≡ some v)

Present-put : (k j v : Text) (d : Dict Text) → Present k d → Present k (put j v d)
Present-put k j v d (w, h) = elim (Bool-cases (text_eq j k)) [
  | inl e ↦ (v, get-put j k v d ∙ rw e)
  | inr e ↦ (w, get-put j k v d ∙ rw e h)
]

Present-put_self : (k v : Text) (d : Dict Text) → Present k (put k v d)
Present-put_self k v d = (v, get-put k k v d ∙ rw (text_eq_self k))

abbrev pub jobs_of : List Entry → List NormalizedJob
jobs_of es = map (λ e. e.job) es

module _ (layout : RuntimeLayout) (state_root : Option Text)
    (desired_hashes definition_hashes : Dict Text) where
  -- The entry is what its job is rendered to.
  pub record IsRendered (e : Entry) : Type 0 where
    pub hashed : get e.job.qualified_id desired_hashes ≡ some e.desired_hash
    pub defined : get e.job.qualified_id definition_hashes ≡ some e.definition_hash
    pub scheduled : render_cron_schedule e.job ≡ ok e.schedule
    pub placed : (layout.runtime_paths e.job state_root).wrapper_path ≡ e.wrapper_path

  abbrev render :
      List NormalizedJob
      → Dict Text
      → Machine
      → Machine × Result NativeError (List Text × Dict Text)
  render = render_jobs layout state_root desired_hashes definition_hashes

  pub record Rendering (es : List Entry) (wrapper_paths : Dict Text) (m : Machine) : Type 0 where
    pub machine : Machine
    pub all_paths : Dict Text
    pub runs : render (jobs_of es) wrapper_paths m ≡ (machine, ok (entries_lines es, all_paths))
    pub keeps : (k : Text) → Present k wrapper_paths → Present k all_paths
    pub has : All (λ e. Present e.job.qualified_id all_paths) es

  pub rendering :
      (es : List Entry) (wrapper_paths : Dict Text) (m : Machine)
      → All IsRendered es
      → Rendering es wrapper_paths m
  unfolding render_jobs write_wrapper entries_lines render_wrapper
  rendering [] wrapper_paths m h = record {
    machine = m;
    all_paths = wrapper_paths;
    runs = refl;
    keeps = λ k p. p;
    has = tt;
  }
  rendering (e ∷ es) wrapper_paths m h =
      let q = e.job.qualified_id in
      let path = (layout.runtime_paths e.job state_root).wrapper_path in
      let content = (render_wrapper layout e.job e.desired_hash state_root).content in
      let written : Machine = record m {
        files = put path content m.files;
        modes = put path 493 m.modes;
      } in
      let r = rendering es (put q path wrapper_paths) written h.1 in
      record {
        machine = r.machine;
        all_paths = r.all_paths;
        runs =
            rw
              (
                index-eq_ok desired_hashes q h.0.hashed,
                index-eq_ok definition_hashes q h.0.defined,
                h.0.scheduled,
                r.runs,
              )
              (ap
                (λ w. (
                  r.machine,
                  ok (
                    job_lines e.job e.desired_hash e.definition_hash e.schedule w
                        ++ entries_lines es,
                    r.all_paths,
                  ),
                ))
                h.0.placed);
        keeps = λ k p. r.keeps k (Present-put k q path wrapper_paths p);
        has = (r.keeps q (Present-put_self q path wrapper_paths), r.has);
      }

  -- The states that are recorded for the jobs: there is one for each, in the order of the jobs.
  pub applied_jobs-ok :
      (crontab_path : Option Text) (timestamp : Text) (wrapper_paths : Dict Text) (es : List Entry)
      (m : Machine)
      → All IsRendered es
      → All (λ e. Present e.job.qualified_id wrapper_paths) es
      → (states : List DeployedJobState) × (applied_jobs layout state_root desired_hashes
            definition_hashes crontab_path timestamp wrapper_paths
            (jobs_of es)
            m
          ≡ (m, ok states))
  unfolding applied_jobs
  applied_jobs-ok crontab_path timestamp wrapper_paths [] m h k = ([], refl)
  applied_jobs-ok crontab_path timestamp wrapper_paths (e ∷ es) m h k =
      let (states, later) = applied_jobs-ok crontab_path timestamp wrapper_paths es m h.1 k.1 in
      let (path, there) = k.0 in
      (
        applied_state layout state_root desired_hashes definition_hashes crontab_path timestamp
              wrapper_paths e.job e.desired_hash e.definition_hash path
            ∷ states,
        rw (
          index-eq_ok desired_hashes _ h.0.hashed,
          index-eq_ok definition_hashes _ h.0.defined,
          index-eq_ok wrapper_paths _ there,
          later,
        ),
      )
