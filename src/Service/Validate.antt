-- ===== src/Service/Validate.antt =====
-- The validation of a project, and the choice of its backend, by `NativeScheduleController` of
-- service.py.
use xcron.Base.{Bool, true, false, Option, none, some, [], ◌∷◌, Text, codes, Result, ok, err}
use xcron.Base.Maybe.{or_path, or_text}
use xcron.Contracts.{
  NormalizedManifest, ManifestHashes, ValidationReport, LoadedManifestDocument,
  ValidateProjectResult, ProjectRequest, SchedulerRequest, InvocationContext,
}
use xcron.Planner.{NativeError}
use xcron.Layout.{Pathlib}
use xcron.Cron.Machine.{Machine}
use xcron.Service.Ports.{ManifestPort}
use xcron.Service.Registry.{default_backend_for_current_platform}

abbrev invalid_result : Text → Option Text → ValidationReport → ValidateProjectResult
invalid_result root path report = record {
  project_root = root;
  manifest_path = path;
  valid = false;
  errors = report.errors;
  warnings = report.warnings;
  normalized_manifest = none;
  hashes = none;
}

-- The guard `not validation.valid or validation.normalized_manifest is None or ...hashes is None`
abbrev pub guarded :
    Bool
    → Option NormalizedManifest
    → Option ManifestHashes
    → Option (NormalizedManifest × ManifestHashes)
guarded true (some manifest) (some hashes) = some (manifest, hashes)
guarded _ _ _ = none

unfoldable pub deployable : ValidateProjectResult → Option (NormalizedManifest × ManifestHashes)
deployable v = guarded v.valid v.normalized_manifest v.hashes

-- `cwd` is `Path.cwd()`.
module _ {Data : Type 0} (paths : Pathlib) (cwd : Text) (port : ManifestPort Data) where
  abbrev path_or : Option Text → Text → Text
  path_or none default = default
  path_or (some path) default = path

  -- `_project_root`
  unfoldable pub project_root : ProjectRequest → InvocationContext → Text
  project_root request context = elim context.workspace [
    | some root ↦ root
    | none ↦ paths.resolve (path_or (or_path request.project_path context.options.project_path) cwd)
  ]

  abbrev failed_validation : Text → Text → ValidateProjectResult
  failed_validation root message = invalid_result root none (record {
    valid = false;
    errors = record { level = codes "error"; path = codes "/"; message = message } ∷ [];
    warnings = [];
    normalized_manifest = none;
  })

  abbrev valid_result :
      LoadedManifestDocument Data → ValidationReport → NormalizedManifest → ValidateProjectResult
  valid_result document report normalized = record {
    project_root = document.project_root;
    manifest_path = some document.manifest_path;
    valid = true;
    errors = [];
    warnings = report.warnings;
    normalized_manifest = some normalized;
    hashes = some (port.hashes normalized);
  }

  abbrev reported :
      LoadedManifestDocument Data
      → ValidationReport
      → Bool
      → Option NormalizedManifest
      → ValidateProjectResult
  reported document report true (some normalized) = valid_result document report normalized
  reported document report _ _ =
      invalid_result document.project_root (some document.manifest_path) report

  abbrev validated_by :
      Text → LoadedManifestDocument Data → Result Text ValidationReport → ValidateProjectResult
  validated_by root document (err message) = failed_validation root message
  validated_by root document (ok report) =
      reported document report report.valid report.normalized_manifest

  abbrev loaded_by :
      Text
      → InvocationContext
      → Machine
      → Result Text (LoadedManifestDocument Data)
      → ValidateProjectResult
  loaded_by root context m (err message) = failed_validation root message
  loaded_by root context m (ok document) =
      validated_by root document (port.validate document context m)

  unfoldable pub validate : ProjectRequest → InvocationContext → Machine → ValidateProjectResult
  validate request context m =
      loaded_by (project_root request context) context m (port.load request context m)

-- `_backend`, where `platform` is `sys.platform`.
unfoldable pub select_backend :
    Text → SchedulerRequest → InvocationContext → Result NativeError Text
select_backend platform request context = elim (or_text request.backend context.options.backend) [
  | some (c ∷ name) ↦ ok (c ∷ name)
  | _ ↦
      default_backend_for_current_platform platform
        (or_text request.platform context.options.platform)
]
