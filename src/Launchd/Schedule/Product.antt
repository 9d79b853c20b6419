-- ===== src/Launchd/Schedule/Product.antt =====
-- The intervals that `product` gives agree with a time where each field holds the time's value.
use xcron.Base.{
  Bool, true, ◌&&◌, ◌||◌, nat_eq, ◌≡◌, ◌≢◌, refl, sym, subst, ap, ◌∙◌, ℕ, Option, none, some, List,
  [], ◌∷◌, ◌++◌, append-nil, append_assoc, map, Text, text_Eq, text_eq_iff, Dict, put, put_all, any,
  all, All, All-append_right, Distinct, arith,
}
use xcron.Launchd.Calendar.{holds}
use xcron.Launchd.Schedule.{product, with_each, specified, zip, interval_of}

-- Whether a time has the values that an interval gives for its keys.
abbrev pub agrees : (Text → ℕ) → Dict ℕ → Bool
agrees time = all (λ (e : Text × ℕ). nat_eq e.1 (time e.0))

-- No values let every value through.
abbrev pub admits : ℕ → Option (List ℕ) → Bool
admits v none = true
admits v (some values) = holds v values

module _ {A : Type 0} (p : A → Bool) where
  any-append : (xs ys : List A) → any p (xs ++ ys) ≡ (any p xs || any p ys)
  any-append [] ys = refl
  any-append (x ∷ xs) ys = ground (arith, any-append xs ys)

module _ {A B : Type 0} (p : B → Bool) (q : A → Bool) (f : A → B) (b : Bool)
    (same : (x : A) → p (f x) ≡ (b && q x)) where
  any-map_and : (xs : List A) → any p (map f xs) ≡ (b && any q xs)
  any-map_and [] = ground arith
  any-map_and (x ∷ xs) = ground (arith, same x, any-map_and xs)

module _ (time : Text → ℕ) where
  abbrev matches : List (Text × List ℕ) → List ℕ → Bool
  matches fields combo = agrees time (zip fields combo)

  any-with_each :
      (field : Text × List ℕ) (fields : List (Text × List ℕ)) (xs : List ℕ) (rests : List (List ℕ))
      → any (matches (field ∷ fields)) (with_each xs rests)
        ≡ (holds (time field.0) xs && any (matches fields) rests)
  any-with_each field fields [] rests = refl
  any-with_each field fields (x ∷ xs) rests =
      any-append (matches (field ∷ fields)) (map (λ rest. x ∷ rest) rests) (with_each xs rests)
      ∙ ground (
        arith,
        any-map_and (matches (field ∷ fields)) (matches fields) (λ rest. x ∷ rest)
            (nat_eq x (time field.0)) (λ rest. refl) rests,
        any-with_each field fields xs rests,
      )

  any-product :
      (fields : List (Text × List ℕ))
      → any (matches fields) (product (map (λ (e : Text × List ℕ). e.1) fields))
        ≡ all (λ (e : Text × List ℕ). holds (time e.0) e.1) fields
  unfolding product
  any-product [] = refl
  any-product (field ∷ fields) =
      any-with_each field fields field.1 (product (map (λ (e : Text × List ℕ). e.1) fields))
      ∙ ap (λ b. holds (time field.0) field.1 && b) (any-product fields)

  pub all-specified :
      (fields : List (Text × Option (List ℕ)))
      → all (λ (e : Text × List ℕ). holds (time e.0) e.1) (specified fields)
        ≡ all (λ (e : Text × Option (List ℕ)). admits (time e.0) e.1) fields
  unfolding specified
  all-specified [] = refl
  all-specified ((key, none) ∷ fields) = all-specified fields
  all-specified ((key, some values) ∷ fields) =
      ap (λ b. holds (time key) values && b) (all-specified fields)

module _ {V : Type 0} where
  abbrev entry_key : Text × V → Text
  entry_key e = e.0

  put-absent :
      (k : Text) (v : V) (d : Dict V) → All (λ e. entry_key e ≢ k) d → put k v d ≡ d ++ (k, v) ∷ []
  unfolding put
  put-absent k v [] h = refl
  put-absent k v ((j, w) ∷ d) h = ground (arith, text_eq_iff j k, h.0, put-absent k v d h.1)

  apart :
      (d : Dict V) (e : Text × V) (xs : Dict V)
      → Distinct entry_key (d ++ e ∷ xs)
      → All (λ x. entry_key x ≢ entry_key e) d
  apart [] e xs h = tt
  apart (x ∷ d) e xs h = (
    λ same. (All-append_right (λ y. entry_key y ≢ entry_key x) d (e ∷ xs) h.0).0 (sym same),
    apart d e xs h.1,
  )

  put_all-append :
      (d xs : Dict V)
      → Distinct entry_key (d ++ xs)
      → put_all (λ (e : Text × V). e.0) (λ (e : Text × V). e.1) d xs ≡ d ++ xs
  unfolding put_all
  put_all-append d [] h = sym (append-nil d)
  put_all-append d (e ∷ xs) h =
      let regrouped = append_assoc d (e ∷ []) xs in
      rw (put-absent e.0 e.1 d (apart d e xs h))
        (put_all-append (d ++ e ∷ []) xs (subst (Distinct entry_key) (sym regrouped) h) ∙ regrouped)

All-zip :
    (P : Text → Type 0) (fields : List (Text × List ℕ)) (combo : List ℕ)
    → All (λ (e : Text × List ℕ). P e.0) fields
    → All (λ (e : Text × ℕ). P e.0) (zip fields combo)
All-zip P [] combo h = tt
All-zip P (field ∷ fields) [] h = tt
All-zip P (field ∷ fields) (x ∷ combo) h = (h.0, All-zip P fields combo h.1)

Distinct-zip :
    (fields : List (Text × List ℕ)) (combo : List ℕ)
    → Distinct (λ (e : Text × List ℕ). e.0) fields
    → Distinct (λ (e : Text × ℕ). e.0) (zip fields combo)
Distinct-zip [] combo h = tt
Distinct-zip (field ∷ fields) [] h = tt
Distinct-zip (field ∷ fields) (x ∷ combo) h =
    (All-zip (λ k. k ≢ field.0) fields combo h.0, Distinct-zip fields combo h.1)

All-specified :
    (P : Text → Type 0) (fields : List (Text × Option (List ℕ)))
    → All (λ (e : Text × Option (List ℕ)). P e.0) fields
    → All (λ (e : Text × List ℕ). P e.0) (specified fields)
unfolding specified
All-specified P [] h = tt
All-specified P ((key, none) ∷ fields) h = All-specified P fields h.1
All-specified P ((key, some values) ∷ fields) h = (h.0, All-specified P fields h.1)

pub Distinct-specified :
    (fields : List (Text × Option (List ℕ)))
    → Distinct (λ (e : Text × Option (List ℕ)). e.0) fields
    → Distinct (λ (e : Text × List ℕ). e.0) (specified fields)
unfolding specified
Distinct-specified [] h = tt
Distinct-specified ((key, none) ∷ fields) h = Distinct-specified fields h.1
Distinct-specified ((key, some values) ∷ fields) h =
    (All-specified (λ k. k ≢ key) fields h.0, Distinct-specified fields h.1)

module _ (time : Text → ℕ) (fields : List (Text × List ℕ))
    (distinct : Distinct (λ (e : Text × List ℕ). e.0) fields) where
  any-interval_of :
      (combos : List (List ℕ))
      → any (agrees time) (map (interval_of fields) combos) ≡ any (matches time fields) combos
  unfolding interval_of
  any-interval_of [] = refl
  any-interval_of (combo ∷ combos) =
      rw (put_all-append [] (zip fields combo) (Distinct-zip fields combo distinct))
        (ap (λ b. matches time fields combo || b) (any-interval_of combos))

  -- One of the intervals agrees with a time where each field holds the time's value for its key.
  pub any-intervals :
      any
        (agrees time)
        (map (interval_of fields) (product (map (λ (e : Text × List ℕ). e.1) fields)))
      ≡ all (λ (e : Text × List ℕ). holds (time e.0) e.1) fields
  any-intervals =
      any-interval_of (product (map (λ (e : Text × List ℕ). e.1) fields)) ∙ any-product time fields
