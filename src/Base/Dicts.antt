-- ===== src/Base/Dicts.antt =====
-- Python's dict with text keys: an association list in the order of insertion.

use mathlib.Core.Path.{◌≡◌, refl, ◌∙◌}
use mathlib.Core.Logic.{◌≢◌, inl, inr}
use mathlib.Core.Bool.{Bool, true, false, ◌||◌}
use mathlib.Core.Option.{Option, none, some}
use mathlib.Core.List.{List, [], ◌∷◌, map}
use native.Mathlib.Omega.{arith}
use xcron.Base.Tests.{if◌then◌else◌, ◌==◌, Bool-cases}
use xcron.Base.Strings.{Text, text_eq, text_Eq, text_eq_iff, text_eq_self}
use xcron.Base.Lists.{All, Distinct}

abbrev pub Dict {ℓ} : Type ℓ → Type ℓ
Dict V = List (Text × V)

module _ {ℓ} {V : Type ℓ} where
  -- `d.get(k)`
  unfoldable pub get : Text → Dict V → Option V
  get k [] = none
  get k ((j, v) ∷ d) = if j == k then some v else get k d

  -- `d[k] = v`: a key that is there keeps its place.
  unfoldable pub put : Text → V → Dict V → Dict V
  put k v [] = (k, v) ∷ []
  put k v ((j, w) ∷ d) = let rest = put k v d in if j == k then (j, v) ∷ d else (j, w) ∷ rest

  -- `d.pop(k, None)`
  unfoldable pub remove : Text → Dict V → Dict V
  remove k [] = []
  remove k ((j, w) ∷ d) = let rest = remove k d in if j == k then rest else (j, w) ∷ rest

  -- `k in d`
  unfoldable pub contains : Text → Dict V → Bool
  contains k [] = false
  contains k ((j, v) ∷ d) = (j == k) || contains k d

  abbrev pub keys : Dict V → List Text
  keys d = map (λ e. e.0) d

  abbrev pub values : Dict V → List V
  values d = map (λ e. e.1) d

  pub get-put :
      (k j : Text) (v : V) (d : Dict V) → get j (put k v d) ≡ (if k == j then some v else get j d)
  unfolding get put
  get-put k j v [] = refl
  get-put k j v ((i, w) ∷ d) =
      ground (arith, text_eq_iff k j, text_eq_iff i k, text_eq_iff i j, get-put k j v d)

  pub get-remove :
      (k j : Text) (d : Dict V) → get j (remove k d) ≡ (if k == j then none else get j d)
  unfolding get remove
  get-remove k j [] = ground arith
  get-remove k j ((i, w) ∷ d) =
      ground (arith, text_eq_iff k j, text_eq_iff i k, text_eq_iff i j, get-remove k j d)

  pub contains-eq-get : (k : Text) (d : Dict V) → contains k d ≡ false → get k d ≡ none
  unfolding get contains
  contains-eq-get k [] h = refl
  contains-eq-get k ((j, v) ∷ d) h = ground (arith, contains-eq-get k d)

  pub contains-eq_true :
      (k : Text) (d : Dict V) → contains k d ≡ true → (v : V) × (get k d ≡ some v)
  unfolding get contains
  contains-eq_true k [] h = cc
  contains-eq_true k ((j, v) ∷ d) h = elim (Bool-cases (text_eq j k)) [
    | inl e ↦ (v, rw e)
    | inr e ↦ let (w, found) = contains-eq_true k d (ground arith) in (w, rw e found)
  ]

module _ {ℓ κ} {A : Type ℓ} {V : Type κ} (key : A → Text) (value : A → V) where
  -- The loop of `{key(x): value(x) for x in xs}`, over the dictionary so far.
  unfoldable pub put_all : Dict V → List A → Dict V
  put_all d [] = d
  put_all d (x ∷ xs) = put_all (put (key x) (value x) d) xs

  abbrev pub from_list : List A → Dict V
  from_list xs = put_all [] xs

  pub get-put_all_absent :
      (k : Text) (d : Dict V) (xs : List A)
      → All (λ x. key x ≢ k) xs
      → get k (put_all d xs) ≡ get k d
  unfolding put_all
  get-put_all_absent k d [] h = refl
  get-put_all_absent k d (x ∷ xs) h =
      get-put_all_absent k (put (key x) (value x) d) xs h.1
      ∙ ground (arith, get-put (key x) k (value x) d, text_eq_iff (key x) k)

  -- With distinct keys each element is found under its key.
  pub get-put_all :
      (d : Dict V) (xs : List A)
      → Distinct key xs
      → All (λ x. get (key x) (put_all d xs) ≡ some (value x)) xs
  unfolding put_all
  get-put_all d [] h = tt
  get-put_all d (x ∷ xs) h = (
    get-put_all_absent (key x) (put (key x) (value x) d) xs h.0
        ∙ ground (arith, get-put (key x) (key x) (value x) d, text_eq_self (key x)),
    get-put_all (put (key x) (value x) d) xs h.1,
  )
