-- ===== src/KernelExamples.antt =====
-- A registry of two providers, one of which requires the other.
use xcron.Base.{
  ◌≡◌, refl, none, some, List, [], ◌∷◌, Text, text_eq, text_eq_iff, text_leb, true, arith, Dict,
  get, keys, sort, insert, All, false, if◌then◌else◌, put, ok, err, ◌≢◌,
}
use xcron.Kernel.Capability.{
  Capability, out_of_fuel, cycle, differ, CapabilityRequirement, member, name_of,
}
use xcron.Kernel.Order.{visit, visit_each, dependency_order}
use xcron.Kernel.Host.{
  Registration, Build, finish, ask, Host, registration, run_build, claims_differ,
}
use xcron.Kernel.Host.Memo.{registration-again}
use xcron.Kernel.Fuel.{dependency_order-fuel}
use xcron.Kernel.Topology.{IsOrdered, names_of, dependency_order-IsOrdered}

abbrev provider : Text → List CapabilityRequirement → Capability
provider name requires = record {
  descriptor = record {
    capability = name;
    implementation = [];
    version = [];
    kernel_api = [];
    requires = requires;
    provides = record { ports = []; sdk_groups = []; cli_paths = []; assets = [] };
    assets = [];
  };
}

abbrev jobs : Capability
jobs = provider (1 ∷ []) (record { capability = 2 ∷ []; implementation = none } ∷ [])

abbrev manifest : Capability
manifest = provider (2 ∷ []) []

abbrev selected : Dict Capability
selected = (1 ∷ [], jobs) ∷ (2 ∷ [], manifest) ∷ []

selected-keyed : (name : Text) (c : Capability) → get name selected ≡ some c → name_of c ≡ name
unfolding get
selected-keyed name c h = ground (arith, text_eq_iff (1 ∷ []) name, text_eq_iff (2 ∷ []) name)

ordered : dependency_order selected ≡ ok (manifest ∷ jobs ∷ [])
unfolding dependency_order visit visit_each sort insert text_leb text_eq get
ordered = refl

dependency_order-IsOrdered_example :
    IsOrdered [] (manifest ∷ jobs ∷ [])
    × All (λ n. member n (names_of (manifest ∷ jobs ∷ [])) ≡ true) (sort text_leb (keys selected))
dependency_order-IsOrdered_example =
    dependency_order-IsOrdered selected selected-keyed (manifest ∷ jobs ∷ []) ordered

-- Two providers that require each other.
abbrev tangled : Dict Capability
tangled =
    (1 ∷ [], jobs)
    ∷ (2 ∷ [], provider (2 ∷ []) (record { capability = 1 ∷ []; implementation = none } ∷ []))
    ∷ []

dependency_order-fuel_example : dependency_order tangled ≢ err out_of_fuel
dependency_order-fuel_example = dependency_order-fuel tangled

tangled_order : dependency_order tangled ≡ err (cycle (1 ∷ []))
unfolding dependency_order visit visit_each sort insert text_leb text_eq get
tangled_order = refl

abbrev claims_nothing : Registration
claims_nothing = record {
  claims = record { ports = []; sdk_groups = []; cli_paths = []; assets = [] };
  closes = true;
}

-- Each provider's `build` asks for the one it requires.
abbrev builds : Text → Build
builds name =
    if text_eq name (1 ∷ [])
    then ask (2 ∷ []) (λ r. finish (some r))
    else finish (some claims_nothing)

abbrev idle : Host
idle = record {
  descriptors = [];
  selected = selected;
  registrations = [];
  building = [];
  closed = false;
  closings = [];
}

abbrev built : Host
built = record idle { registrations = (2 ∷ [], claims_nothing) ∷ (1 ∷ [], claims_nothing) ∷ [] }

built_both : registration builds 2 (1 ∷ []) idle ≡ (built, ok claims_nothing)
unfolding registration run_build get put text_eq claims_differ differ
built_both = refl

registration-again_example : registration builds 1 (1 ∷ []) built ≡ (built, ok claims_nothing)
registration-again_example =
    registration-again builds builds 2 0 (1 ∷ []) idle built claims_nothing built_both
