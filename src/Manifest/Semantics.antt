-- ===== src/Manifest/Semantics.antt =====
-- The semantic validation of manifests: capabilities/xcron-capability-manifest-yaml/src/xcron/
-- capabilities/manifest_yaml/_schema.py.
pub mod Accepted
use xcron.Base.{
  Bool, true, false, not, ◌&&◌, ◌||◌, if◌then◌else◌, leb, nat_eq, ℕ, ◌+◌, any, all, keep, is_empty,
  length, Option, none, some, List, [], ◌∷◌, ◌++◌, Text, text_Eq, ◌==◌, codes, is_digit, show_int,
  lstrip, rstrip, split, Result, ok, err, ◌>>=◌,
}
use xcron.Contracts.{ScheduleKind, ScheduleDefinition, ValidationMessage}
use xcron.Planner.{NativeError, some_or_else}
use xcron.Manifest.{JobDefinition, ProjectManifest, Runtime, resolve_working_dir}

-- What the host is asked: `ZoneInfo(name)`, which may find no zone or raise another exception, and
-- whether a path exists and is a directory.
pub record Host : Type 0 where
  pub find_zone : Text → Result NativeError Bool
  pub exists : Text → Bool
  pub is_dir : Text → Bool

abbrev pub error_message : Text → Text → ValidationMessage
error_message path message = record { level = codes "error"; path = path; message = message }

abbrev pub error_if : Bool → Text → Text → List ValidationMessage
error_if true path message = error_message path message ∷ []
error_if false path message = []

-- `not s.strip()`
abbrev is_blank : Text → Bool
is_blank s = is_empty (rstrip (lstrip s))

-- `CRON_FIELD_PATTERN`
unfoldable pub is_field_char : ℕ → Bool
is_field_char c =
    is_digit c
    || (leb b'A' c && leb c b'Z')
    || (leb b'a' c && leb c b'z')
    || nat_eq c b'*'
    || nat_eq c b'/'
    || nat_eq c b','
    || nat_eq c b'-'

unfoldable pub is_cron_field : Text → Bool
is_cron_field field = not (is_empty field) && all is_field_char field

abbrev join_comma_space : Text → List Text → Text
join_comma_space part [] = part
join_comma_space part (next ∷ parts) = part ++ codes ", " ++ join_comma_space next parts

abbrev invalid_fields : Text → List Text → List ValidationMessage
invalid_fields path [] = []
invalid_fields path (field ∷ fields) =
    error_message path
      (codes "cron expression contains unsupported field syntax: " ++ join_comma_space field fields)
    ∷ []

abbrev cron_messages : Text → List Text → List ValidationMessage
cron_messages path fields =
    if nat_eq (length fields) 5
    then invalid_fields path (keep (λ field. not (is_cron_field field)) fields)
    else error_message path (codes "cron expressions must contain exactly 5 fields in xcron v1")
      ∷ []

-- `value[-1:]`
abbrev suffix_of : Text → Text
suffix_of [] = []
suffix_of (c ∷ []) = c ∷ []
suffix_of (c ∷ d ∷ s) = suffix_of (d ∷ s)

-- `suffix in SUPPORTED_EVERY_SUFFIXES`
abbrev is_supported : Text → Bool
is_supported suffix =
    any (λ s. s == suffix) (codes "s" ∷ codes "m" ∷ codes "h" ∷ codes "d" ∷ codes "w" ∷ [])

unfoldable pub validate_schedule : ScheduleKind → Text → Text → List ValidationMessage
validate_schedule ScheduleKind.cron value path = cron_messages (path ++ codes "/cron") (split value)
validate_schedule ScheduleKind.every value path =
    error_if (not (is_supported (suffix_of value))) (path ++ codes "/every")
      (codes "unsupported every suffix: " ++ suffix_of value)

abbrev zone_messages : Text → Text → Bool → List ValidationMessage
zone_messages timezone path found =
    error_if (not found) path (codes "unknown timezone: " ++ timezone)

abbrev blank_shell : Text → Option Text → List ValidationMessage
blank_shell path none = []
blank_shell path (some shell) =
    error_if (is_blank shell) (path ++ codes "/shell") (codes "shell must not be empty")

abbrev pub job_path : ℕ → Text
job_path index = codes "/jobs/" ++ show_int index

abbrev pub id_messages : List Text → Text → JobDefinition → List ValidationMessage
id_messages seen path job =
    error_if (any (λ k. k == job.id) seen) (path ++ codes "/id")
      (codes "duplicate job id: " ++ job.id)

abbrev pub command_messages : Text → JobDefinition → List ValidationMessage
command_messages path job =
    error_if (is_blank job.command) (path ++ codes "/command") (codes "command must not be empty")

abbrev pub schedule_messages : Text → JobDefinition → List ValidationMessage
schedule_messages path job =
    validate_schedule job.schedule.kind job.schedule.value (path ++ codes "/schedule")

module _ (runtime : Runtime) (host : Host) where
  unfoldable pub validate_timezone : Text → Text → Result NativeError (List ValidationMessage)
  validate_timezone timezone path = do
    found ← host.find_zone timezone
    ok (zone_messages timezone path found)

  module _ (manifest : ProjectManifest) (project_root : Text) where
    abbrev directory_messages : Text → Text → List ValidationMessage
    directory_messages path dir =
        if not (host.exists dir)
        then error_message path (codes "working directory does not exist: " ++ dir) ∷ []
        else error_if (not (host.is_dir dir)) path
            (codes "working directory is not a directory: " ++ dir)

    abbrev pub directory_of : JobDefinition → Text
    directory_of job =
        resolve_working_dir runtime project_root
          (some_or_else job.working_dir manifest.defaults.working_dir)

    -- The body of the loop over the jobs.
    unfoldable pub job_messages : List Text → ℕ → JobDefinition → List ValidationMessage
    job_messages seen index job =
        let path = job_path index in
        id_messages seen path job
        ++ (command_messages path job
            ++ (blank_shell path job.shell
                ++ (schedule_messages path job
                    ++ directory_messages (path ++ codes "/working_dir") (directory_of job))))

    -- The loop, with the ids that were seen and the index.
    unfoldable pub jobs_messages : List Text → ℕ → List JobDefinition → List ValidationMessage
    jobs_messages seen index [] = []
    jobs_messages seen index (job ∷ jobs) =
        job_messages seen index job ++ jobs_messages (job.id ∷ seen) (index + 1) jobs

    abbrev default_timezone : Option Text → Result NativeError (List ValidationMessage)
    default_timezone none = ok []
    default_timezone (some timezone) = validate_timezone timezone (codes "/defaults/timezone")

    unfoldable pub validate_semantics : Result NativeError (List ValidationMessage)
    validate_semantics = do
      zones ← default_timezone manifest.defaults.timezone
      ok (
          error_if (is_blank manifest.defaults.shell) (codes "/defaults/shell")
            (codes "defaults.shell must not be empty")
          ++ (zones ++ jobs_messages [] 0 manifest.jobs))

abbrev is_error : ValidationMessage → Bool
is_error message = message.level == codes "error"

-- `split_validation_messages`: the errors and the warnings.
unfoldable pub split_validation_messages :
    List ValidationMessage → List ValidationMessage × List ValidationMessage
split_validation_messages messages =
    (keep is_error messages, keep (λ message. not (is_error message)) messages)
