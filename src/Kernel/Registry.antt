-- ===== src/Kernel/Registry.antt =====
-- packages/xcron-kernel/src/xcron/kernel/registry.py: the registry of installed providers.
use xcron.Base.{
  Bool, true, not, ◌&&◌, if◌then◌else◌, Option, none, some, List, [], ◌∷◌, map, Text, text_Eq, ◌==◌,
  text_leb, Dict, get, put, contains, keys, values, sort, Result, ok, err, ◌>>=◌, ◌>>◌, raise_if,
}
use xcron.Kernel.Capability.{
  Capability, CapabilityRequirement, CapabilityDescriptor, CapabilityError, unavailable, ambiguous,
  collision, Packaging, validate, categories, id_of, name_of,
}
use xcron.Kernel.Order.{dependency_order}

abbrev pub Registry : Type 0
Registry = Dict (Dict Capability)

abbrev pub claimed_of : Option (Dict Capability) → Dict Capability
claimed_of none = []
claimed_of (some claimed) = claimed

-- The body of the loop of `__init__`.
unfoldable pub add_capability : Packaging → Capability → Registry → Result CapabilityError Registry
add_capability packaging candidate registry = do
  let claimed = claimed_of (get (name_of candidate) registry)
  let implementation = candidate.descriptor.implementation
  validate candidate.descriptor packaging
  raise_if (contains implementation claimed) (collision (id_of candidate.descriptor))
  ok (put (name_of candidate) (put implementation candidate claimed) registry)

unfoldable pub add_all : Packaging → List Capability → Registry → Result CapabilityError Registry
add_all packaging [] registry = ok registry
add_all packaging (c ∷ cs) registry = do
  registry' ← add_capability packaging c registry
  add_all packaging cs registry'

abbrev pub make_registry : Packaging → List Capability → Result CapabilityError Registry
make_registry packaging cs = add_all packaging cs []

abbrev pub names : Registry → List Text
names registry = sort text_leb (keys registry)

abbrev pub implementations : Registry → Text → List Text
implementations registry name = sort text_leb (keys (claimed_of (get name registry)))

abbrev choose : Text → List Capability → Result CapabilityError Capability
choose name [] = err (unavailable name)
choose name (c ∷ []) = ok c
choose name (c ∷ d ∷ cs) = err (ambiguous name)

abbrev choose_named : Text → Option Capability → Result CapabilityError Capability
choose_named name none = err (unavailable name)
choose_named name (some c) = ok c

abbrev select_from : Text → Dict Capability → Option Text → Result CapabilityError Capability
select_from name [] implementation = err (unavailable name)
select_from name (c ∷ cs) none = choose name (values (c ∷ cs))
select_from name (c ∷ cs) (some implementation) = choose_named name (get implementation (c ∷ cs))

unfoldable pub select : Registry → Text → Option Text → Result CapabilityError Capability
select registry name implementation =
    select_from name (claimed_of (get name registry)) implementation

abbrev choice_leb : Text × Text → Text × Text → Bool
choice_leb a b = text_leb a.0 b.0

module _ (registry : Registry) (selection : Dict Text) where
  unfoldable pub select_each :
      List Text → Dict Capability → Result CapabilityError (Dict Capability)
  select_each [] selected = ok selected
  select_each (name ∷ rest) selected = do
    c ← select registry name (get name selection)
    select_each rest (put name c selected)

  -- The choices that name no installed capability.
  unfoldable pub check_choices : Dict Capability → Dict Text → Result CapabilityError (Unit {0})
  check_choices selected [] = ok tt
  check_choices selected ((name, implementation) ∷ rest) =
      let later = check_choices selected rest in
      if contains name selected
      then later
      else select registry name (some implementation) >>= λ _. later

module _ (selected : Dict Capability) where
  abbrev agrees : Option Text → Capability → Bool
  agrees none dependency = true
  agrees (some implementation) dependency = dependency.descriptor.implementation == implementation

  abbrev check_found :
      Capability → CapabilityRequirement → Option Capability → Result CapabilityError (Unit {0})
  check_found candidate requirement none = err (unavailable (id_of candidate.descriptor))
  check_found candidate requirement (some dependency) =
      raise_if (not (agrees requirement.implementation dependency))
        (unavailable (id_of candidate.descriptor))

  unfoldable pub check_requirements :
      Capability → List CapabilityRequirement → Result CapabilityError (Unit {0})
  check_requirements candidate [] = ok tt
  check_requirements candidate (requirement ∷ rest) = do
    check_found candidate requirement (get requirement.capability selected)
    check_requirements candidate rest

  unfoldable pub validate_requirements : List Capability → Result CapabilityError (Unit {0})
  validate_requirements [] = ok tt
  validate_requirements (candidate ∷ rest) = do
    check_requirements candidate candidate.descriptor.requires
    validate_requirements rest

-- `claims`: who owns a name of a category
abbrev pub Claims : Type 0
Claims = List ((Text × Text) × Text)

unfoldable pub owner_of : Text → Text → Claims → Option Text
owner_of category name [] = none
owner_of category name (((c, n), owner) ∷ rest) =
    if c == category && n == name then some owner else owner_of category name rest

abbrev claim_found : Text → Text → Text → Claims → Option Text → Result CapabilityError Claims
claim_found category name claimant claims none = ok (((category, name), claimant) ∷ claims)
claim_found category name claimant claims (some owner) =
    if owner == claimant then ok claims else err (collision claimant)

unfoldable pub claim_names : Text → Text → List Text → Claims → Result CapabilityError Claims
claim_names claimant category [] claims = ok claims
claim_names claimant category (name ∷ rest) claims = do
  claims' ← claim_found category name claimant claims (owner_of category name claims)
  claim_names claimant category rest claims'

unfoldable pub claim_categories :
    Text → List (Text × List Text) → Claims → Result CapabilityError Claims
claim_categories claimant [] claims = ok claims
claim_categories claimant ((category, provided) ∷ rest) claims = do
  claims' ← claim_names claimant category provided claims
  claim_categories claimant rest claims'

unfoldable pub validate_claim_collisions : List Capability → Claims → Result CapabilityError Claims
validate_claim_collisions [] claims = ok claims
validate_claim_collisions (c ∷ cs) claims = do
  claims' ← claim_categories (id_of c.descriptor) (categories c.descriptor.provides) claims
  validate_claim_collisions cs claims'

unfoldable pub snapshot : Registry → Dict Text → Result CapabilityError (List CapabilityDescriptor)
snapshot registry selection = do
  selected ← select_each registry selection (names registry) []
  check_choices registry selection selected (sort choice_leb selection)
  validate_requirements selected (values selected)
  claims ← validate_claim_collisions (values selected) []
  ordered ← dependency_order selected
  ok (map (λ (c : Capability). c.descriptor) ordered)
