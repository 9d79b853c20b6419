-- ===== src/Planner/Order.antt =====
-- The order of the changes of a plan.
use xcron.Base.{
  Bool, true, false, not, ◌||◌, all, leb, ℕ, ◌≤◌, ◌≡◌, refl, ◌⊎◌, inl, inr, Bool-cases, List, [],
  ◌∷◌, ◌++◌, Text, text_eq, text_eq_iff, text_leb, text_leb-total, text_leb_trans,
  text_leb_antisymm, arith, codes, Dict, ok, IsSorted, IsSorted-two, sort-IsSorted, subst,
}
use xcron.Contracts.{NormalizedManifest, ProjectState, PlanChangeKind, PlanChange, ProjectPlan}
use xcron.Planner.{build_project_plan, change_leb, kind_value}
use xcron.Planner.Accounts.{made_from}

change_leb-total : (a b : PlanChange) → change_leb a b ≡ false → change_leb b a ≡ true
unfolding change_leb
change_leb-total a b h = ground (
  arith,
  text_eq_iff a.qualified_id b.qualified_id,
  text_eq_iff b.qualified_id a.qualified_id,
  text_leb-total a.qualified_id b.qualified_id,
  text_leb-total (kind_value a.kind) (kind_value b.kind),
)

change_leb_trans :
    (a b c : PlanChange) → change_leb a b ≡ true → change_leb b c ≡ true → change_leb a c ≡ true
unfolding change_leb
change_leb_trans a b c h k = ground (
  arith,
  text_eq_iff a.qualified_id b.qualified_id,
  text_eq_iff b.qualified_id c.qualified_id,
  text_eq_iff a.qualified_id c.qualified_id,
  text_leb_trans a.qualified_id b.qualified_id c.qualified_id,
  text_leb_antisymm a.qualified_id b.qualified_id,
  text_leb_trans (kind_value a.kind) (kind_value b.kind) (kind_value c.kind),
)

-- The place of a kind in the order of the alphabet.
abbrev pub kind_place : PlanChangeKind → ℕ
kind_place PlanChangeKind.create = 0
kind_place PlanChangeKind.disable = 1
kind_place PlanChangeKind.drift = 2
kind_place PlanChangeKind.enable = 3
kind_place PlanChangeKind.error = 4
kind_place PlanChangeKind.noop = 5
kind_place PlanChangeKind.remove = 6
kind_place PlanChangeKind.update = 7

abbrev all_kinds : List PlanChangeKind
all_kinds =
    PlanChangeKind.create ∷ PlanChangeKind.disable ∷ PlanChangeKind.drift ∷ PlanChangeKind.enable
    ∷ PlanChangeKind.error ∷ PlanChangeKind.noop ∷ PlanChangeKind.remove ∷ PlanChangeKind.update
    ∷ []

all-all_kinds :
    (p : PlanChangeKind → Bool) → all p all_kinds ≡ true → (kind : PlanChangeKind) → p kind ≡ true
all-all_kinds p h PlanChangeKind.create = ground (arith, h)
all-all_kinds p h PlanChangeKind.disable = ground (arith, h)
all-all_kinds p h PlanChangeKind.drift = ground (arith, h)
all-all_kinds p h PlanChangeKind.enable = ground (arith, h)
all-all_kinds p h PlanChangeKind.error = ground (arith, h)
all-all_kinds p h PlanChangeKind.noop = ground (arith, h)
all-all_kinds p h PlanChangeKind.remove = ground (arith, h)
all-all_kinds p h PlanChangeKind.update = ground (arith, h)

abbrev is_placed : PlanChangeKind → PlanChangeKind → Bool
is_placed a b = not (text_leb (kind_value a) (kind_value b)) || leb (kind_place a) (kind_place b)

all_kinds-placed : all (λ a. all (is_placed a) all_kinds) all_kinds ≡ true
unfolding text_leb codes
all_kinds-placed = refl

kind_value-placed :
    (a b : PlanChangeKind)
    → text_leb (kind_value a) (kind_value b) ≡ true
    → kind_place a ≤ kind_place b
kind_value-placed a b h =
    let placed =
      all-all_kinds (is_placed a)
        (all-all_kinds (λ k. all (is_placed k) all_kinds) all_kinds-placed a) b in
    ground (arith, placed)

-- A change may stand before another one: its id is before the other one's, or they have one id, and
-- its kind is not behind the other one's in the order of the alphabet.
abbrev pub IsBefore : PlanChange → PlanChange → Type 0
IsBefore a b =
    (¬ (a.qualified_id ≡ b.qualified_id) × (text_leb a.qualified_id b.qualified_id ≡ true))
    ⊎ ((a.qualified_id ≡ b.qualified_id) × (kind_place a.kind ≤ kind_place b.kind))

change_leb-IsBefore : (a b : PlanChange) → change_leb a b ≡ true → IsBefore a b
unfolding change_leb
change_leb-IsBefore a b h = elim (Bool-cases (text_eq a.qualified_id b.qualified_id)) [
  | inl e ↦
      inr (
        (text_eq_iff a.qualified_id b.qualified_id).0 e,
        kind_value-placed a.kind b.kind (rw e at h),
      )
  | inr e ↦ inl (λ same. ground (arith, text_eq_iff a.qualified_id b.qualified_id), rw e at h)
]

-- Of two changes of a plan that was made, the earlier one has the lesser id or, where they have one
-- id, a kind that is not behind the other one's in the order of the alphabet.
pub plan-IsBefore :
    (manifest : NormalizedManifest) (backend manifest_hash : Text)
    (job_hashes definition_hashes : Dict Text) (state : ProjectState) (plan : ProjectPlan)
    (before middle after : List PlanChange) (a b : PlanChange)
    → build_project_plan manifest backend manifest_hash job_hashes definition_hashes state ≡ ok plan
    → plan.changes ≡ before ++ a ∷ (middle ++ b ∷ after)
    → IsBefore a b
plan-IsBefore manifest backend manifest_hash job_hashes definition_hashes state plan before middle
      after a b made e =
    let (cs, _, made_so) =
      made_from manifest backend manifest_hash job_hashes definition_hashes state plan made in
    let sorted : IsSorted change_leb plan.changes =
      rw made_so (sort-IsSorted change_leb change_leb-total change_leb_trans _) in
    change_leb-IsBefore a b
      (IsSorted-two change_leb before middle after a b (subst (IsSorted change_leb) e sorted))
