-- ===== src/Kernel/Capability.antt =====
-- packages/xcron-kernel/src/xcron/kernel/capability.py and errors.py: descriptors and their
-- validation.
use xcron.Base.{
  Bool, false, not, ◌&&◌, ◌||◌, if◌then◌else◌, leb, nat_eq, nat_Eq, ℕ, Option, none, some, List, [],
  ◌∷◌, ◌++◌, map, Text, codes, text_Eq, ◌==◌, any, all, is_empty, starts_with, Result, ok, err,
  ◌>>◌, raise_if,
}

-- The classes of errors.py. The text is the name that the message is about, in place of the
-- message and the remedy. `key_error` is Python's, and `out_of_fuel` is a limit of the model.
pub data CapabilityError : Type 0 where
  unavailable ambiguous incompatible cycle collision malformed : Text → CapabilityError
  key_error : Text → CapabilityError
  out_of_fuel : CapabilityError

pub record CapabilityRequirement : Type 0 where
  pub capability : Text
  pub implementation : Option Text

pub record CapabilityProvides : Type 0 where
  pub ports : List Text
  pub sdk_groups : List Text
  pub cli_paths : List Text
  pub assets : List Text

abbrev pub categories : CapabilityProvides → List (Text × List Text)
categories p =
    (codes "ports", p.ports)
    ∷ (codes "sdk_groups", p.sdk_groups)
    ∷ (codes "cli_paths", p.cli_paths)
    ∷ (codes "assets", p.assets)
    ∷ []

pub record AssetDeclaration : Type 0 where
  pub name : Text
  pub relative_path : Text

pub record CapabilityDescriptor : Type 0 where
  pub capability : Text
  pub implementation : Text
  pub version : Text
  pub kernel_api : Text
  pub requires : List CapabilityRequirement
  pub provides : CapabilityProvides
  pub assets : List AssetDeclaration

-- `id`
abbrev pub id_of : CapabilityDescriptor → Text
id_of d = d.capability ++ (codes ":" ++ d.implementation)

-- `build` is called by the host only, and no operation of the registry reads it.
pub record Capability : Type 0 where
  pub descriptor : CapabilityDescriptor

abbrev pub name_of : Capability → Text
name_of c = c.descriptor.capability

-- `x in xs`
abbrev pub member : Text → List Text → Bool
member x [] = false
member x (y ∷ ys) = y == x || member x ys

abbrev is_lower : ℕ → Bool
is_lower c = leb b'a' c && leb c b'z'

-- `[a-z][a-z0-9-]*`, the whole text
unfoldable pub is_identifier : Text → Bool
is_identifier [] = false
is_identifier (c ∷ s) =
    is_lower c && all (λ d. is_lower d || (leb b'0' d && leb d b'9') || nat_eq d b'-') s

-- `len(values) != len(set(values))`
abbrev pub has_duplicate : List Text → Bool
has_duplicate [] = false
has_duplicate (x ∷ xs) = member x xs || has_duplicate xs

abbrev after_split : ℕ → ℕ → List Text → List Text
after_split separator c [] = (c ∷ []) ∷ []
after_split separator c (l ∷ ls) = if nat_eq c separator then [] ∷ l ∷ ls else (c ∷ l) ∷ ls

-- `s.split(separator)` of one character
unfoldable pub split_on : ℕ → Text → List Text
split_on separator [] = [] ∷ []
split_on separator (c ∷ s) = after_split separator c (split_on separator s)

-- What is used of the library packaging: `Version(text)` does not raise, and whether
-- `SpecifierSet(text)` holds the version of the kernel, if it does not raise.
pub record Packaging : Type 0 where
  pub is_version : Text → Bool
  pub supports_kernel : Text → Option Bool

module _ (d : CapabilityDescriptor) where
  abbrev Check : Type 0
  Check = Result CapabilityError (Unit {0})

  unfoldable pub validate_unique : List Text → Check
  validate_unique values =
      raise_if (has_duplicate values || any is_empty values) (malformed (id_of d))

  unfoldable pub validate_categories : List (Text × List Text) → Check
  validate_categories [] = ok tt
  validate_categories ((category, values) ∷ rest) = do
    validate_unique values
    validate_categories rest

  -- `not path or path.startswith("/") or ".." in path.split("/")`
  unfoldable pub is_unsafe : Text → Bool
  is_unsafe path =
      is_empty path
      || starts_with path (b'/' ∷ [])
      || member (b'.' ∷ b'.' ∷ []) (split_on b'/' path)

  unfoldable pub validate_assets : List AssetDeclaration → Check
  validate_assets [] = ok tt
  validate_assets (asset ∷ rest) = do
    raise_if (is_unsafe asset.relative_path) (malformed (id_of d))
    validate_assets rest

  -- `set(xs) != set(ys)`
  unfoldable pub differ : List Text → List Text → Bool
  differ xs ys = not (all (λ x. member x ys) xs && all (λ y. member y xs) ys)

  abbrev validate_kernel : Option Bool → Check
  validate_kernel none = err (malformed (id_of d))
  validate_kernel (some supported) = raise_if (not supported) (incompatible (id_of d))

  unfoldable pub validate : Packaging → Check
  validate packaging = do
    raise_if (not (is_identifier d.capability)) (malformed (id_of d))
    raise_if (not (is_identifier d.implementation)) (malformed (id_of d))
    raise_if (not (packaging.is_version d.version)) (malformed (id_of d))
    validate_kernel (packaging.supports_kernel d.kernel_api)
    validate_unique (map (λ (r : CapabilityRequirement). r.capability) d.requires)
    validate_categories (categories d.provides)
    validate_unique (map (λ (a : AssetDeclaration). a.name) d.assets)
    validate_assets d.assets
    raise_if (differ d.provides.assets (map (λ (a : AssetDeclaration). a.name) d.assets))
        (malformed (id_of d))
