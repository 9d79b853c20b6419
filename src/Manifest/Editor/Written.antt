-- ===== src/Manifest/Editor/Written.antt =====
-- What a mutation leaves in the manifest's file.
use xcron.Base.{◌≡◌, refl, inl, inr, ◌⊎◌, Option, List, Dict, Result, ok, err, Bool-cases}
use xcron.Contracts.{ValidationMessage}
use xcron.Manifest.{ProjectManifest}
use xcron.Manifest.Json.{Json, dict, json_eq}
use xcron.Manifest.Editor.{EditError, ManifestMutationResult, mutate_manifest, written, edited}

module _ (validated : Dict Json → Result EditError (ProjectManifest × List ValidationMessage)) where
  -- What stands in the file, and whether the mutation returned.
  abbrev pub IsSafe : Dict Json → Dict Json × Result EditError ManifestMutationResult → Type 0
  IsSafe stored (after, err e) = after ≡ stored
  IsSafe stored (after, ok result) =
      (after ≡ stored)
      ⊎ ((report : ProjectManifest × List ValidationMessage) × (validated after ≡ ok report))

  written-IsSafe :
      (stored raw_data : Dict Json) (job : Option (Dict Json))
      (report : Result EditError (ProjectManifest × List ValidationMessage))
      → validated raw_data ≡ report
      → IsSafe stored (written validated stored raw_data job report)
  written-IsSafe stored raw_data job (err e) h = refl
  written-IsSafe stored raw_data job (ok report) h =
      elim (Bool-cases (json_eq (dict raw_data) (dict stored))) [
        | inl e ↦ rw e (inl refl)
        | inr e ↦ rw e (inr (report, h))
      ]

  -- Where a mutation raises, the file of the manifest is as it was; where it returns, the file is
  -- as it was or holds raw data that passes the validation.
  pub mutate_manifest-IsSafe :
      (mutation : Dict Json → Result EditError (Dict Json × Option (Dict Json)))
      (stored : Dict Json)
      → IsSafe stored (mutate_manifest validated mutation stored)
  unfolding mutate_manifest
  mutate_manifest-IsSafe mutation stored = go (mutation stored)
    where
      go :
          (r : Result EditError (Dict Json × Option (Dict Json)))
          → IsSafe stored (edited validated stored r)
      go (err e) = refl
      go (ok (raw_data, job)) = written-IsSafe stored raw_data job (validated raw_data) refl
