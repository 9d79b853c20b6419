-- ===== src/Manifest/Loader/Validated.antt =====
-- The manifest that a mutation returns.
use xcron.Base.{
  ◌≡◌, refl, ap, subst, Option, List, [], ◌∷◌, Text, Dict, Distinct, Result, ok, err, >>=-eq-ok,
}
use xcron.Contracts.{ValidationMessage}
use xcron.Planner.{NativeError}
use xcron.Manifest.{ProjectManifest, Runtime, normalize_manifest}
use xcron.Manifest.Json.{Json}
use xcron.Manifest.Semantics.{Host, validate_semantics, split_validation_messages}
use xcron.Manifest.Semantics.Accepted.{validate_semantics-Distinct}
use xcron.Manifest.Editor.{EditError, ManifestMutationResult, mutate_manifest, edited, written}
use xcron.Manifest.Loader.{parse_project_manifest, from_native, no_errors, validated_manifest}

from_native-eq_ok :
    {A : Type 0} (r : Result NativeError A) (a : A) → from_native r ≡ ok a → r ≡ ok a
from_native-eq_ok (ok b) a h = ap ok (ap (λ x. elim x [ ok c ↦ c | err e ↦ b ]) h)
from_native-eq_ok (err e) a h = absurd (cc)

no_errors-eq_ok :
    (errors : List ValidationMessage) (u : Unit {0}) → no_errors errors ≡ ok u → errors ≡ []
no_errors-eq_ok [] u h = refl
no_errors-eq_ok (e ∷ errors) u h = absurd (cc)

module _ (show : Json → Text) (schema_messages : Dict Json → List ValidationMessage)
    (runtime : Runtime) (host : Host) (project_root : Text) where
  abbrev validated : Dict Json → Result EditError (ProjectManifest × List ValidationMessage)
  validated = validated_manifest show schema_messages runtime host project_root

  abbrev HasDistinct : ProjectManifest → Type 0
  HasDistinct manifest =
      Distinct (λ j. j.qualified_id) (normalize_manifest runtime manifest project_root []).jobs

  -- The last steps of the validation, from the parsed manifest on.
  validated-HasDistinct :
      (raw_data : Dict Json) (report : ProjectManifest × List ValidationMessage)
      → validated raw_data ≡ ok report
      → HasDistinct report.0
  unfolding validated_manifest
  validated-HasDistinct raw_data report ran =
      let (_, _, ran1) =
        >>=-eq-ok (no_errors (split_validation_messages (schema_messages raw_data)).0) _ ran in
      let (manifest, _, ran2) = >>=-eq-ok (parse_project_manifest show raw_data) _ ran1 in
      let (messages, checked, ran3) =
        >>=-eq-ok (from_native (validate_semantics runtime host manifest project_root)) _ ran2 in
      let (u, clean, made) = >>=-eq-ok (no_errors (split_validation_messages messages).0) _ ran3 in
      let same : manifest ≡ report.0 =
        ap
          (λ (r : Result EditError (ProjectManifest × List ValidationMessage)). elim r [
            | ok p ↦ p.0
            | err e ↦ manifest
          ])
          made in
      subst HasDistinct same (
        validate_semantics-Distinct runtime host manifest project_root [] messages
          (from_native-eq_ok _ messages checked) (no_errors-eq_ok _ u clean))

  written-HasDistinct :
      (stored raw_data after : Dict Json) (job : Option (Dict Json))
      (result : ManifestMutationResult)
      (report : Result EditError (ProjectManifest × List ValidationMessage))
      → validated raw_data ≡ report
      → written validated stored raw_data job report ≡ (after, ok result)
      → HasDistinct result.manifest
  written-HasDistinct stored raw_data after job result (err e) h ran =
      absurd (cc (ap (λ p. p.1) ran))
  written-HasDistinct stored raw_data after job result (ok report) h ran =
      subst HasDistinct
        (ap
          (λ (p : Dict Json × Result EditError ManifestMutationResult). elim p.1 [
            | ok r ↦ r.manifest
            | err e ↦ report.0
          ])
          ran)
        (validated-HasDistinct raw_data report h)

  -- Where a mutation returns, the qualified ids of the jobs of the manifest that it returns are
  -- distinct, once it is normalized.
  pub mutate_manifest-Distinct :
      (mutation : Dict Json → Result EditError (Dict Json × Option (Dict Json)))
      (stored after : Dict Json) (result : ManifestMutationResult)
      → mutate_manifest validated mutation stored ≡ (after, ok result)
      → Distinct
          (λ j. j.qualified_id)
          (normalize_manifest runtime result.manifest project_root []).jobs
  unfolding mutate_manifest
  mutate_manifest-Distinct mutation stored after result = go (mutation stored)
    where
      go :
          (r : Result EditError (Dict Json × Option (Dict Json)))
          → edited validated stored r ≡ (after, ok result)
          → HasDistinct result.manifest
      go (err e) ran = absurd (cc (ap (λ p. p.1) ran))
      go (ok (raw_data, job)) ran =
          written-HasDistinct stored raw_data after job result (validated raw_data) refl ran
