-- ===== src/Base/Sorting.antt =====
-- `sorted`: a stable insertion sort by a test for "not after".
use mathlib.Core.Path.{◌≡◌, refl}
use mathlib.Core.Logic.{inl, inr}
use mathlib.Core.Bool.{Bool, true, false}
use mathlib.Core.List.Perm
use mathlib.Core.List.{List, [], ◌∷◌, ◌++◌, map, Perm}
use native.Mathlib.Omega.{arith}
use xcron.Base.Tests.{if◌then◌else◌, Bool-cases}
use xcron.Base.Lists.{All, All-imp, All-append_right, keep}

module _ {ℓ} {A : Type ℓ} (le : A → A → Bool) where
  unfoldable pub insert : A → List A → List A
  insert x [] = x ∷ []
  insert x (y ∷ ys) = let rest = insert x ys in if le x y then x ∷ y ∷ ys else y ∷ rest

  unfoldable pub sort : List A → List A
  unfolding insert
  sort [] = []
  sort (x ∷ xs) = insert x (sort xs)

  -- Each element stands before all that follow it.
  abbrev pub IsSorted : List A → Type 0
  IsSorted [] = Unit
  IsSorted (x ∷ xs) = All (λ y. le x y ≡ true) xs × IsSorted xs

  insert-perm : (x : A) (xs : List A) → Perm (insert x xs) (x ∷ xs)
  unfolding insert
  insert-perm x [] = Perm.rfl
  insert-perm x (y ∷ ys) = elim (Bool-cases (le x y)) [
    | inl e ↦ rw e Perm.rfl
    | inr e ↦ rw e (Perm.trans (Perm.cons y (insert-perm x ys)) (Perm.swap x y ys))
  ]

  pub sort-perm : (xs : List A) → Perm (sort xs) xs
  unfolding sort
  sort-perm [] = Perm.rfl
  sort-perm (x ∷ xs) = Perm.trans (insert-perm x (sort xs)) (Perm.cons x (sort-perm xs))

  module _ {κ} (P : A → Type κ) where
    pub All-insert : (x : A) (xs : List A) → P x → All P xs → All P (insert x xs)
    unfolding insert
    All-insert x [] p h = (p, tt)
    All-insert x (y ∷ ys) p h = elim (Bool-cases (le x y)) [
      | inl e ↦ rw e (p, h)
      | inr e ↦ rw e (h.0, All-insert x ys p h.1)
    ]

    pub All-sort : (xs : List A) → All P xs → All P (sort xs)
    unfolding sort
    All-sort [] h = tt
    All-sort (x ∷ xs) h = All-insert x (sort xs) h.0 (All-sort xs h.1)

    All-of_insert : (x : A) (xs : List A) → All P (insert x xs) → P x × All P xs
    unfolding insert
    All-of_insert x [] h = h
    All-of_insert x (y ∷ ys) h = elim (Bool-cases (le x y)) [
      | inl e ↦ rw e at h
      | inr e ↦
          let moved = rw e at h in
          let (p, rest) = All-of_insert x ys moved.1 in (p, (moved.0, rest))
    ]

    pub All-of_sort : (xs : List A) → All P (sort xs) → All P xs
    unfolding sort
    All-of_sort [] h = tt
    All-of_sort (x ∷ xs) h = let (p, rest) = All-of_insert x (sort xs) h in (p, All-of_sort xs rest)

  insert-below : (x : A) (xs : List A) → All (λ y. le x y ≡ true) xs → insert x xs ≡ x ∷ xs
  unfolding insert
  insert-below x [] h = refl
  insert-below x (y ∷ ys) h = rw h.0

  -- A sorted list is left as it is.
  pub sort-of_IsSorted : (xs : List A) → IsSorted xs → sort xs ≡ xs
  unfolding sort
  sort-of_IsSorted [] h = refl
  sort-of_IsSorted (x ∷ xs) h = rw (sort-of_IsSorted xs h.1) (insert-below x xs h.0)

module _ {ℓ} {A : Type ℓ} (le : A → A → Bool) where
  -- Of two elements of a sorted list, the earlier one is at most the later one.
  pub IsSorted-two :
      (before middle after : List A) (a b : A)
      → IsSorted le (before ++ a ∷ (middle ++ b ∷ after))
      → le a b ≡ true
  IsSorted-two [] middle after a b h =
      (All-append_right (λ y. le a y ≡ true) middle (b ∷ after) h.0).0
  IsSorted-two (x ∷ before) middle after a b h = IsSorted-two before middle after a b h.1

module _ {ℓ} {A : Type ℓ} (le : A → A → Bool) (total : (x y : A) → le x y ≡ false → le y x ≡ true)
    (trans : (x y z : A) → le x y ≡ true → le y z ≡ true → le x z ≡ true) where
  insert-IsSorted : (x : A) (xs : List A) → IsSorted le xs → IsSorted le (insert le x xs)
  unfolding insert
  insert-IsSorted x [] h = (tt, tt)
  insert-IsSorted x (y ∷ ys) h = elim (Bool-cases (le x y)) [
    | inl e ↦ rw e ((e, All-imp _ _ ys (λ z yz. trans x y z e yz) h.0), h)
    | inr e ↦
        rw e (All-insert le (λ z. le y z ≡ true) x ys (total x y e) h.0, insert-IsSorted x ys h.1)
  ]

  pub sort-IsSorted : (xs : List A) → IsSorted le (sort le xs)
  unfolding sort
  sort-IsSorted [] = tt
  sort-IsSorted (x ∷ xs) = insert-IsSorted x (sort le xs) (sort-IsSorted xs)

  pub sort-sort : (xs : List A) → sort le (sort le xs) ≡ sort le xs
  sort-sort xs = sort-of_IsSorted le (sort le xs) (sort-IsSorted xs)

-- Sorting by one key an image that has the same key.
module _ {ℓ κ} {A : Type ℓ} {B : Type κ} (f : A → B) (le : A → A → Bool) (le' : B → B → Bool)
    (same : (x y : A) → le' (f x) (f y) ≡ le x y) where
  map-insert : (x : A) (xs : List A) → insert le' (f x) (map f xs) ≡ map f (insert le x xs)
  unfolding insert
  map-insert x [] = refl
  map-insert x (y ∷ ys) = ground (arith, same x y, map-insert x ys)

  pub sort-map : (xs : List A) → sort le' (map f xs) ≡ map f (sort le xs)
  unfolding sort
  sort-map [] = refl
  sort-map (x ∷ xs) = rw (sort-map xs) (map-insert x (sort le xs))

module _ {ℓ} {A : Type ℓ} (le : A → A → Bool) (p : A → Bool) where
  keep-cons-perm :
      (x : A) (xs ys : List A)
      → Perm (keep p xs) (keep p ys)
      → Perm (keep p (x ∷ xs)) (keep p (x ∷ ys))
  keep-cons-perm x xs ys h = elim (Bool-cases (p x)) [
    | inl e ↦ rw e (Perm.cons x h)
    | inr e ↦ rw e h
  ]

  keep-swap-perm : (x y : A) (xs : List A) → Perm (keep p (x ∷ y ∷ xs)) (keep p (y ∷ x ∷ xs))
  keep-swap-perm x y xs = elim (Bool-cases (p x)) [
    | inl e ↦ elim (Bool-cases (p y)) [
      | inl f ↦ rw (e, f) (Perm.swap y x (keep p xs))
      | inr f ↦ rw (e, f) Perm.rfl
    ]
    | inr e ↦ rw e Perm.rfl
  ]

  keep-insert-perm : (x : A) (xs : List A) → Perm (keep p (insert le x xs)) (keep p (x ∷ xs))
  unfolding insert
  keep-insert-perm x [] = Perm.rfl
  keep-insert-perm x (y ∷ ys) = elim (Bool-cases (le x y)) [
    | inl e ↦ rw e Perm.rfl
    | inr e ↦
        rw e
          (Perm.trans (keep-cons-perm y _ (x ∷ ys) (keep-insert-perm x ys)) (keep-swap-perm y x ys))
  ]

  -- Sorting before a selection selects the same elements.
  pub keep-sort-perm : (xs : List A) → Perm (keep p (sort le xs)) (keep p xs)
  unfolding sort
  keep-sort-perm [] = Perm.rfl
  keep-sort-perm (x ∷ xs) =
      Perm.trans (keep-insert-perm x (sort le xs))
        (keep-cons-perm x (sort le xs) xs (keep-sort-perm xs))
