-- ===== src/Manifest/Editor.antt =====
-- The edits of a manifest: capabilities/xcron-capability-manifest-yaml/src/xcron/capabilities/
-- manifest_yaml/_editor.py. The raw data of a manifest is a dictionary of JSON values.
pub mod Written
pub mod Edits
use xcron.Base.{
  Bool, true, false, not, ◌&&◌, ◌||◌, if◌then◌else◌, any, is_empty, nat_eq, ℕ, zero, suc, Option,
  none, some, List, [], ◌∷◌, ◌++◌, Text, text_Eq, ◌==◌, codes, Dict, get, put, remove, Result, ok,
  err, raise_if, ◌>>=◌,
}
use xcron.Contracts.{ValidationMessage}
use xcron.Planner.{NativeError}
use xcron.Manifest.{ProjectManifest}
use xcron.Manifest.Json.{
  Json, null, boolean, number, text, array, object, Items, no_items, Members, no_members, elements,
  entries, list, dict, json_eq,
}

-- What the editor raises.
pub data EditError : Type 0 where
  edit_error : Text → EditError
  already_exists : Text → EditError
  not_found : Text → EditError
  invalid : List ValidationMessage → EditError
  attribute_error : EditError
  missing_key : Text → EditError
  bad_value : Text → EditError
  raised : NativeError → EditError

-- `isinstance(jobs, list)`
abbrev as_list : Json → Result EditError (List Json)
as_list (array xs) = ok (elements xs)
as_list _ = err (edit_error (codes "manifest jobs must be a list"))

abbrev jobs_or_none : Option Json → Result EditError (List Json)
jobs_or_none none = ok []
jobs_or_none (some jobs) = as_list jobs

-- `_jobs_list`
unfoldable pub jobs_list : Dict Json → Result EditError (List Json)
jobs_list raw_data = jobs_or_none (get (codes "jobs") raw_data)

-- The raw data with another list of jobs: the list is a part of the raw data.
abbrev pub with_jobs : Dict Json → List Json → Dict Json
with_jobs raw_data jobs = put (codes "jobs") (list jobs) raw_data

-- What is called of a job is called of a dictionary.
abbrev pub as_job : Json → Result EditError (Dict Json)
as_job (object d) = ok (entries d)
as_job _ = err attribute_error

-- `value or {}`, of which `get` is called
abbrev pub object_or_empty : Option Json → Result EditError (Dict Json)
object_or_empty none = ok []
object_or_empty (some (object d)) = ok (entries d)
object_or_empty (some null) = ok []
object_or_empty (some (boolean false)) = ok []
object_or_empty (some (text [])) = ok []
object_or_empty (some (array no_items)) = ok []
object_or_empty (some (number n)) = if nat_eq n 0 then ok [] else err attribute_error
object_or_empty (some _) = err attribute_error

-- `c in s`
abbrev has_dot : Text → Bool
has_dot s = any (λ c. nat_eq c b'.') s

-- `del jobs[index]`, and a change of the element at an index
abbrev pub remove_at : ℕ → List Json → List Json
remove_at index [] = []
remove_at zero (x ∷ xs) = xs
remove_at (suc index) (x ∷ xs) = x ∷ remove_at index xs

abbrev pub set_at : ℕ → Json → List Json → List Json
set_at index y [] = []
set_at zero y (x ∷ xs) = y ∷ xs
set_at (suc index) y (x ∷ xs) = x ∷ set_at index y xs

abbrev pub clear : List Text → Dict Json → Dict Json
clear [] job = job
clear (name ∷ names) job = clear names (remove name job)

abbrev pub set_fields : Dict Json → Dict Json → Dict Json
set_fields [] job = job
set_fields ((name, value) ∷ updates) job = set_fields updates (put name value job)

-- `str(value)` of a value that is no text.
module _ (show : Json → Text) where
  abbrev pub str : Json → Text
  str (text s) = s
  str value = show value

  abbrev str_or_empty : Option Json → Text
  str_or_empty none = []
  str_or_empty (some value) = str value

  unfoldable pub id_of : Dict Json → Text
  id_of job = str_or_empty (get (codes "id") job)

  abbrev pub is_sought : Text → Text → Text → Text → Bool
  is_sought project_id identifier qualified_id job_id =
      (job_id == identifier) || (project_id ++ codes "." ++ job_id == qualified_id)

  -- The loop of `_find_job`, from an index on.
  unfoldable pub find_from : Text → Text → Text → ℕ → List Json → Result EditError (ℕ × Dict Json)
  find_from project_id identifier qualified_id index [] =
      err (not_found (codes "job not found in manifest: " ++ identifier))
  find_from project_id identifier qualified_id index (value ∷ jobs) = do
    let rest = find_from project_id identifier qualified_id (suc index) jobs
    job ← as_job value
    if is_sought project_id identifier qualified_id (id_of job) then ok (index, job) else rest

  abbrev pub qualified_of : Text → Text → Text
  qualified_of project_id identifier =
      if not (is_empty project_id) && not (has_dot identifier)
      then project_id ++ codes "." ++ identifier
      else identifier

  unfoldable pub project_id_in : Dict Json → Result EditError Text
  project_id_in raw_data = do
    project ← object_or_empty (get (codes "project") raw_data)
    ok (id_of project)

  -- `_find_job`
  unfoldable pub find_job : Dict Json → Text → Result EditError (ℕ × Dict Json)
  find_job raw_data identifier = do
    project_id ← project_id_in raw_data
    jobs ← jobs_list raw_data
    find_from project_id identifier (qualified_of project_id identifier) 0 jobs

  -- `any(str(existing.get("id")) == job_id ...)`: a job without an id is "None".
  abbrev pub id_or_none : Dict Json → Text
  id_or_none job = elim (get (codes "id") job) [ none ↦ str null | some value ↦ str value ]

  unfoldable pub has_id : Text → List Json → Result EditError Bool
  has_id job_id [] = ok false
  has_id job_id (value ∷ jobs) = do
    let rest = has_id job_id jobs
    job ← as_job value
    if id_or_none job == job_id then ok true else rest

  -- An edit: the raw data after it, and the job that it is about.
  abbrev pub Edit : Type 0
  Edit = Dict Json → Result EditError (Dict Json × Option (Dict Json))

  -- The `mutate` of `add_manifest_job`.
  unfoldable pub add_manifest_job : Dict Json → Edit
  add_manifest_job new_job raw_data = do
    jobs ← jobs_list raw_data
    _ ← raise_if (is_empty (id_of new_job)) (edit_error (codes "job id is required for add"))
    found ← has_id (id_of new_job) jobs
    _ ← raise_if found (already_exists (codes "job already exists in manifest: " ++ id_of new_job))
    ok (with_jobs raw_data (jobs ++ dict new_job ∷ []), some new_job)

  -- The `mutate` of `remove_manifest_job`.
  unfoldable pub remove_manifest_job : Text → Edit
  remove_manifest_job identifier raw_data = do
    (index, _) ← find_job raw_data identifier
    jobs ← jobs_list raw_data
    ok (with_jobs raw_data (remove_at index jobs), none)

  -- The `mutate` of `update_manifest_job`: the job is changed where it stands.
  unfoldable pub update_manifest_job : Text → Dict Json → List Text → Edit
  update_manifest_job identifier updates clear_fields raw_data = do
    (index, job) ← find_job raw_data identifier
    jobs ← jobs_list raw_data
    let changed = set_fields updates (clear clear_fields job)
    ok (with_jobs raw_data (set_at index (dict changed) jobs), some changed)

  unfoldable pub set_manifest_job_enabled : Text → Bool → Edit
  set_manifest_job_enabled identifier enabled =
      update_manifest_job identifier ((codes "enabled", boolean enabled) ∷ []) []

-- The paths of the document are left out.
pub record ManifestMutationResult : Type 0 where
  pub manifest : ProjectManifest
  pub raw_data : Dict Json
  pub job_data : Option (Dict Json)
  pub changed : Bool
  pub warnings : List ValidationMessage

-- `validated` is `_validated_manifest`.
module _ (validated : Dict Json → Result EditError (ProjectManifest × List ValidationMessage)) where
  abbrev pub written :
      Dict Json
      → Dict Json
      → Option (Dict Json)
      → Result EditError (ProjectManifest × List ValidationMessage)
      → Dict Json × Result EditError ManifestMutationResult
  written stored raw_data job (err e) = (stored, err e)
  written stored raw_data job (ok (manifest, warnings)) =
      let changed = not (json_eq (dict raw_data) (dict stored)) in
      (
        if changed then raw_data else stored,
        ok (record {
          manifest = manifest;
          raw_data = raw_data;
          job_data = job;
          changed = changed;
          warnings = warnings;
        }),
      )

  abbrev pub edited :
      Dict Json
      → Result EditError (Dict Json × Option (Dict Json))
      → Dict Json × Result EditError ManifestMutationResult
  edited stored (err e) = (stored, err e)
  edited stored (ok (raw_data, job)) = written stored raw_data job (validated raw_data)

  -- What the manifest's file holds then, and the result.
  unfoldable pub mutate_manifest :
      (Dict Json → Result EditError (Dict Json × Option (Dict Json)))
      → Dict Json
      → Dict Json × Result EditError ManifestMutationResult
  mutate_manifest mutation stored = edited stored (mutation stored)
