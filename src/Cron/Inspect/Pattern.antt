-- ===== src/Cron/Inspect/Pattern.antt =====
-- `JOB_METADATA_PATTERN` of adapters/cron.py. Each group `\S+` stands before a blank or the end of
-- the line, so it takes the whole run of characters that are no space.
use xcron.Base.{
  if◌then◌else◌, Option, none, some, [], ◌∷◌, Text, is_empty, strip_prefix, take_word, drop_word,
}
use xcron.Cron.Block.{
  job_marker_prefix, qualified_id_key, job_id_key, desired_hash_key, definition_hash_key,
}

pub record Metadata : Type 0 where
  pub qualified_id : Text
  pub job_id : Text
  pub desired_hash : Text
  pub definition_hash : Text

infixl 5 ◌>>=◌
abbrev ◌>>=◌ : {A B : Type 0} → Option A → (A → Option B) → Option B
none >>= f = none
some a >>= f = f a

-- `(?P<name>\S+)` behind its key: the word, and what follows it.
unfoldable pub parse_field : Text → Text → Option (Text × Text)
parse_field key s = do
  r ← strip_prefix key s
  if is_empty (take_word r) then none else some (take_word r, drop_word r)

-- `$`
abbrev at_end : Text → Option (Unit {0})
at_end [] = some tt
at_end (c ∷ s) = none

unfoldable pub parse_metadata : Text → Option Metadata
parse_metadata line = do
  r ← strip_prefix job_marker_prefix line
  (qualified_id, r) ← parse_field qualified_id_key r
  (job_id, r) ← parse_field job_id_key r
  (desired_hash, r) ← parse_field desired_hash_key r
  (definition_hash, r) ← parse_field definition_hash_key r
  _ ← at_end r
  some (record {
    qualified_id = qualified_id;
    job_id = job_id;
    desired_hash = desired_hash;
    definition_hash = definition_hash;
  })
