-- ===== src/Kernel/Host.antt =====
-- packages/xcron-kernel/src/xcron/kernel/host.py: the host, which builds the registration of a
-- selected provider when it is first asked for.
pub mod Memo
use xcron.Base.{
  Bool, true, false, not, ◌&&◌, if◌then◌else◌, ℕ, zero, suc, Option, none, some, List, [], ◌∷◌,
  ◌++◌, Text, Dict, get, put, Result, ok, err,
}
use xcron.Kernel.Capability.{
  Capability, CapabilityDescriptor, CapabilityProvides, CapabilityError, unavailable, cycle,
  malformed, out_of_fuel, member, id_of, differ,
}

-- The names that a registration claims, and whether it has a `close`.
pub record Registration : Type 0 where
  pub claims : CapabilityProvides
  pub closes : Bool

-- What `provider.build` does with the host: it asks for registrations of others, then returns a
-- registration, or something else.
pub data Build : Type 0 where
  finish : Option Registration → Build
  ask : Text → (Registration → Build) → Build

pub record Host : Type 0 where
  pub descriptors : List CapabilityDescriptor
  pub selected : Dict Capability
  pub registrations : Dict Registration
  pub building : List Text
  pub closed : Bool
  -- The providers whose registrations were closed, in order.
  pub closings : List Text

abbrev pub Outcome : Type 0
Outcome = Host × Result CapabilityError Registration

abbrev drop_last : List Text → List Text
drop_last [] = []
drop_last (x ∷ []) = []
drop_last (x ∷ y ∷ ys) = x ∷ drop_last (y ∷ ys)

-- The comparison of the claims by category.
unfoldable pub claims_differ : CapabilityDescriptor → CapabilityProvides → Bool
claims_differ d p = not (
    not (differ d p.ports d.provides.ports)
    && not (differ d p.sdk_groups d.provides.sdk_groups)
    && not (differ d p.cli_paths d.provides.cli_paths)
    && not (differ d p.assets d.provides.assets))

-- `provider.build(self)`, where `registration` is what it asks the host for.
unfoldable pub run_build :
    (Text → Host → Outcome) → Build → Host → Host × Result CapabilityError (Option Registration)
run_build registration (finish result) h = (h, ok result)
run_build registration (ask name next) h =
    let (h', result) = registration name h in
    elim result [ err e ↦ (h', err e) | ok r ↦ run_build registration (next r) h' ]

-- What is made of the result of `build`; `finally` pops the name.
abbrev pub conclude :
    Text → CapabilityDescriptor → Host × Result CapabilityError (Option Registration) → Outcome
conclude name d (h, err e) = (record h { building = drop_last h.building }, err e)
conclude name d (h, ok none) =
    (record h { building = drop_last h.building }, err (malformed (id_of d)))
conclude name d (h, ok (some r)) =
    if claims_differ d r.claims
    then (record h { building = drop_last h.building }, err (malformed (id_of d)))
    else (
      record h { registrations = put name r h.registrations; building = drop_last h.building },
      ok r,
    )

module _ (build : Text → Build) where
  -- `self._registry.select` raises where no provider is selected.
  unfoldable pub registration : ℕ → Text → Host → Outcome
  registration zero name h = (h, err out_of_fuel)
  registration (suc fuel) name h =
      let inner = registration fuel in
      elim (get name h.registrations) [
        | some r ↦ (h, ok r)
        | none ↦ elim (get name h.selected) [
          | none ↦ (h, err (unavailable name))
          | some provider ↦
              if member name h.building
              then (h, err (cycle name))
              else conclude name provider.descriptor
                  (run_build inner (build name) (record h { building = h.building ++ name ∷ [] }))
        ]
      ]

abbrev closer : Option Registration → Bool
closer none = false
closer (some r) = r.closes

-- The closers that run, over the descriptors in reverse order.
unfoldable pub closings_of : Dict Registration → List CapabilityDescriptor → List Text
closings_of registrations [] = []
closings_of registrations (d ∷ ds) =
    closings_of registrations ds
    ++ (if closer (get d.capability registrations) then d.capability ∷ [] else [])

unfoldable pub close : Host → Host
close h = if h.closed then h else record h {
  closings = h.closings ++ closings_of h.registrations h.descriptors;
  closed = true;
}
