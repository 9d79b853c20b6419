-- ===== src/Kernel/Order.antt =====
-- `_dependency_order` of registry.py: a depth-first search over the requirements.
use xcron.Base.{
  Bool, if◌then◌else◌, ℕ, zero, suc, none, some, List, [], ◌∷◌, ◌++◌, map, Text, text_leb, Dict,
  get, keys, sort, length, Result, ok, err, ◌>>=◌,
}
use xcron.Kernel.Capability.{
  Capability, CapabilityRequirement, CapabilityError, cycle, key_error, out_of_fuel, member,
}

-- `ordered`, `active` and `visited`
pub record Search : Type 0 where
  pub ordered : List Capability
  pub active : List Text
  pub visited : List Text

abbrev pub requirement_leb : CapabilityRequirement → CapabilityRequirement → Bool
requirement_leb a b = text_leb a.capability b.capability

-- The names that a provider requires, in the order in which they are visited.
abbrev pub required : Capability → List Text
required c =
    map (λ (r : CapabilityRequirement). r.capability) (sort requirement_leb c.descriptor.requires)

-- `selected[capability]`
abbrev pub lookup : Dict Capability → Text → Result CapabilityError Capability
lookup selected name = elim (get name selected) [ none ↦ err (key_error name) | some c ↦ ok c ]

-- A loop that visits some names.
unfoldable pub visit_each :
    (Text → Search → Result CapabilityError Search)
    → List Text
    → Search
    → Result CapabilityError Search
visit_each visit [] s = ok s
visit_each visit (name ∷ names) s = do s' ← visit name s; visit_each visit names s'

abbrev pub enter : Text → Search → Search
enter name s = record s { active = s.active ++ name ∷ [] }

-- `active.pop()`
abbrev pub pop : List Text → List Text
pop [] = []
pop (x ∷ []) = []
pop (x ∷ y ∷ ys) = x ∷ pop (y ∷ ys)

abbrev pub leave : Text → Capability → Search → Search
leave name c s = record {
  ordered = s.ordered ++ c ∷ [];
  active = pop s.active;
  visited = name ∷ s.visited;
}

module _ (selected : Dict Capability) where
  unfoldable pub visit : ℕ → Text → Search → Result CapabilityError Search
  visit zero name s = err out_of_fuel
  visit (suc fuel) name s =
      let inner = visit fuel in
      if member name s.active then err (cycle name) else if member name s.visited then ok s else do
        c ← lookup selected name
        s' ← visit_each inner (required c) (enter name s)
        ok (leave name c s')

  abbrev pub start : Search
  start = record { ordered = []; active = []; visited = [] }

  unfoldable pub dependency_order : Result CapabilityError (List Capability)
  dependency_order = do
    s ← visit_each (visit (suc (length selected))) (sort text_leb (keys selected)) start
    ok s.ordered
