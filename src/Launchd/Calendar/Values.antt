-- ===== src/Launchd/Calendar/Values.antt =====
-- The lists of numbers that `range`, `set` and `sorted` give, by the numbers that they hold.
use xcron.Base.{
  Bool, true, false, ◌&&◌, ◌||◌, nat_eq, ltb, leb, ℕ, zero, suc, ◌+◌, ◌-◌, ◌%◌, ◌≤◌, ◌<◌, ◌≡◌, refl,
  ◌∙◌, inl, inr, List, [], ◌∷◌, ◌++◌, arith, All-imp, All-insert, insert, sort, IsSorted,
  Bool-cases,
}
use native.Mathlib.Nat.{mod-eq_of_lt, mod-eq-sub-mod}
use xcron.Launchd.Calendar.{holds, unique, range_from}

-- The numbers from `first` to below `stop`, each `step` after the one before.
abbrev pub in_range : ℕ → ℕ → ℕ → ℕ → Bool
in_range first stop step v = leb first v && ltb v stop && nat_eq ((v - first) % step) 0

pub holds-append : (v : ℕ) (xs ys : List ℕ) → holds v (xs ++ ys) ≡ (holds v xs || holds v ys)
holds-append v [] ys = refl
holds-append v (x ∷ xs) ys = ground (arith, holds-append v xs ys)

holds-unique : (v : ℕ) (xs : List ℕ) → holds v (unique xs) ≡ holds v xs
unfolding unique
holds-unique v [] = refl
holds-unique v (x ∷ xs) = elim (Bool-cases (holds x (unique xs))) [
  | inl e ↦ rw e (ground (arith, holds-unique v xs, holds-unique x xs))
  | inr e ↦ rw (e, holds-unique v xs)
]

holds-insert : (v x : ℕ) (xs : List ℕ) → holds v (insert leb x xs) ≡ (nat_eq x v || holds v xs)
unfolding insert
holds-insert v x [] = refl
holds-insert v x (y ∷ ys) = ground (arith, holds-insert v x ys)

holds-sort : (v : ℕ) (xs : List ℕ) → holds v (sort leb xs) ≡ holds v xs
unfolding sort
holds-sort v [] = refl
holds-sort v (x ∷ xs) = ground (arith, holds-insert v x (sort leb xs), holds-sort v xs)

-- `sorted(set(xs))` holds what `xs` holds.
pub holds-sort-unique : (v : ℕ) (xs : List ℕ) → holds v (sort leb (unique xs)) ≡ holds v xs
holds-sort-unique v xs = holds-sort v (unique xs) ∙ holds-unique v xs

-- One step further the same numbers are met, but for the first.
mod-step :
    (first step v : ℕ)
    → 1 ≤ step
    → first ≤ v
    → nat_eq ((v - first) % step) 0
      ≡ (nat_eq first v || (leb (first + step) v && nat_eq ((v - (first + step)) % step) 0))
mod-step first step v h k = elim (Bool-cases (leb (first + step) v)) [
  | inl e ↦
      let far : step ≤ v - first = ground arith in
      let less : v - first - step ≡ v - (first + step) = omega arith in
      ground (arith, mod-eq-sub-mod far, less)
  | inr e ↦ let near : v - first < step = ground arith in ground (arith, mod-eq_of_lt near)
]

pub holds-range_from :
    (count first stop step v : ℕ)
    → 1 ≤ step
    → stop - first ≤ count
    → holds v (range_from count first stop step) ≡ in_range first stop step v
unfolding range_from
holds-range_from zero first stop step v h k = ground arith
holds-range_from (suc count) first stop step v h k = elim (Bool-cases (ltb first stop)) [
  | inl e ↦ rw e (
      let ih = holds-range_from count (first + step) stop step v h (ground arith) in
      elim (Bool-cases (leb first v)) [
        | inl f ↦ ground (arith, ih, mod-step first step v h (ground arith))
        | inr f ↦ ground (arith, ih)
      ])
  | inr e ↦ rw e (ground arith)
]

-- `sorted(set(xs))` stands in strict order.
insert-IsSorted :
    (x : ℕ) (xs : List ℕ) → holds x xs ≡ false → IsSorted ltb xs → IsSorted ltb (insert leb x xs)
unfolding insert
insert-IsSorted x [] h k = (tt, tt)
insert-IsSorted x (y ∷ ys) h k = elim (Bool-cases (leb x y)) [
  | inl e ↦ rw e ((ground arith, All-imp _ _ ys (λ z yz. ground arith) k.0), k)
  | inr e ↦ rw e (
      let below : ltb y x ≡ true = ground arith in
      (
        All-insert leb (λ (z : ℕ). ltb y z ≡ true) x ys below k.0,
        insert-IsSorted x ys (ground arith) k.1,
      ))
]

pub sort-unique-IsSorted : (xs : List ℕ) → IsSorted ltb (sort leb (unique xs))
unfolding sort unique
sort-unique-IsSorted [] = tt
sort-unique-IsSorted (x ∷ xs) = elim (Bool-cases (holds x (unique xs))) [
  | inl e ↦ rw e (sort-unique-IsSorted xs)
  | inr e ↦ rw e (
      insert-IsSorted x (sort leb (unique xs)) (holds-sort x (unique xs) ∙ e)
        (sort-unique-IsSorted xs))
]
