-- ===== src/Cron/Block.antt =====
-- The managed block of a project in a crontab (adapters/cron.py): its lines, and
-- `replace_project_block`, which puts it in, replaces it or takes it out.
pub mod Scan
pub mod Replace
pub mod Print
pub mod Locate
pub mod Laws
pub mod Contract
use xcron.Base.{
  Bool, true, false, not, ◌&&◌, if◌then◌else◌, ℕ, zero, suc, ◌+◌, Option, none, some, List, [], ◌∷◌,
  ◌++◌, Text, codes, starts_with, is_empty, lf, splitlines, join_lines, rstrip, rstrip_lf,
}
use xcron.Contracts.{NormalizedJob}

abbrev pub begin_marker_prefix : Text
unfolding codes
begin_marker_prefix = codes "# BEGIN XCRON project="

abbrev pub end_marker_prefix : Text
unfolding codes
end_marker_prefix = codes "# END XCRON project="

abbrev pub job_marker_prefix : Text
unfolding codes
job_marker_prefix = codes "# XCRON job "

abbrev pub disabled_marker : Text
unfolding codes
disabled_marker = codes "# disabled"

abbrev pub begin_marker : Text → Text
begin_marker project_id = begin_marker_prefix ++ project_id

abbrev pub end_marker : Text → Text
end_marker project_id = end_marker_prefix ++ project_id

-- `f"{BEGIN_MARKER_PREFIX}{project_id} backend=cron"`
abbrev pub begin_line : Text → Text
begin_line project_id = begin_marker_prefix ++ project_id ++ codes " backend=cron"

abbrev pub qualified_id_key : Text
unfolding codes
qualified_id_key = codes "qualified_id="

abbrev pub job_id_key : Text
unfolding codes
job_id_key = codes " job_id="

abbrev pub desired_hash_key : Text
unfolding codes
desired_hash_key = codes " desired_hash="

abbrev pub definition_hash_key : Text
unfolding codes
definition_hash_key = codes " definition_hash="

unfoldable pub metadata_line : Text → Text → Text → Text → Text
metadata_line qualified_id job_id desired_hash definition_hash =
    job_marker_prefix
    ++ (qualified_id_key
        ++ (qualified_id
            ++ (job_id_key
                ++ (job_id
                    ++ (desired_hash_key
                        ++ (desired_hash ++ (definition_hash_key ++ definition_hash)))))))

abbrev pub space : ℕ
space = b' '

abbrev pub hash : ℕ
hash = b'#'

abbrev pub entry_lines : Bool → Text → List Text
entry_lines true command = command ∷ []
entry_lines false command = disabled_marker ∷ (hash ∷ space ∷ command) ∷ []

-- What the loop of `render_cron_block` adds to the lines for one job.
unfoldable pub job_lines : NormalizedJob → Text → Text → Text → Text → List Text
job_lines job desired_hash definition_hash schedule wrapper_path =
    metadata_line job.qualified_id job.job_id desired_hash definition_hash
    ∷ entry_lines job.enabled (schedule ++ space ∷ wrapper_path)

-- `start_index` and `end_index`. `index` counts the lines that were read.
pub record Found : Type 0 where
  pub start : Option ℕ
  pub stop : Option ℕ

abbrev pub is_some {ℓ} : {A : Type ℓ} → Option A → Bool
is_some none = false
is_some (some a) = true

module _ (begin end : Text) where
  -- The loop over the lines, which stops at the first end marker behind a begin marker.
  unfoldable pub scan : ℕ → Option ℕ → List Text → Found
  scan index start [] = record { start = start; stop = none }
  scan index start (line ∷ lines) =
      let start' = if starts_with line begin then some index else start in
      let rest = scan (index + 1) start' lines in
      if is_some start' && starts_with line end
      then record { start = start'; stop = some index }
      else rest

abbrev pub take {ℓ} : {A : Type ℓ} → ℕ → List A → List A
take zero xs = []
take (suc n) [] = []
take (suc n) (x ∷ xs) = x ∷ take n xs

abbrev pub drop {ℓ} : {A : Type ℓ} → ℕ → List A → List A
drop zero xs = xs
drop (suc n) [] = []
drop (suc n) (x ∷ xs) = drop n xs

-- `if new_lines and new_lines[-1] != "": new_lines.append("")`
unfoldable pub separate : List Text → List Text
separate [] = []
separate (l ∷ []) = if is_empty l then l ∷ [] else l ∷ [] ∷ []
separate (l ∷ m ∷ ls) = l ∷ separate (m ∷ ls)

abbrev splice : Option ℕ → Option ℕ → List Text → List Text → List Text
splice (some first) (some last) lines replacement =
    take first lines ++ (replacement ++ drop (last + 1) lines)
splice _ _ lines replacement = if is_empty replacement then lines else separate lines ++ replacement

-- `new_lines`, on either way through the function
unfoldable pub replace_lines : List Text → Text → List Text → List Text
replace_lines lines project_id replacement =
    let found = scan (begin_marker project_id) (end_marker project_id) 0 none lines in
    splice found.start found.stop lines replacement

-- `"\n".join(new_lines).rstrip() + ("\n" if new_lines else "")`: where the code says
-- `new_lines or replacement_lines` the new lines hold the replacement.
unfoldable pub print_lines : List Text → Text
print_lines lines = rstrip (join_lines lines) ++ (if is_empty lines then [] else lf ∷ [])

abbrev pub replacement_lines : Option Text → List Text
replacement_lines none = []
replacement_lines (some block) = splitlines (rstrip_lf block)

unfoldable pub replace_project_block : Text → Text → Option Text → Text
replace_project_block content project_id replacement =
    print_lines (replace_lines (splitlines content) project_id (replacement_lines replacement))
