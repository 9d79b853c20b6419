-- ===== src/Kernel/Fuel.antt =====
-- The search of `_dependency_order` ends: its fuel is enough for any selection.
use xcron.Base.{
  true, false, ℕ, zero, suc, ◌+◌, ◌≤◌, ◌≡◌, ◌≢◌, refl, ap, ◌∙◌, sym, subst, inl, inr, some, List,
  [], ◌∷◌, ◌++◌, Text, text_leb, text_eq, text_eq_iff, arith, Dict, get, keys, sort, length,
  length-append, Result, ok, err, ◌>>=◌, All, All-append, Bool-cases, Option-cases,
}
use xcron.Kernel.Capability.{Capability, CapabilityError, out_of_fuel, member, has_duplicate}
use xcron.Kernel.Order.{
  Search, visit, visit_each, dependency_order, lookup, required, enter, leave, pop, start,
}
use xcron.Kernel.Pigeonhole.{pigeonhole}

pop-snoc : (xs : List Text) (x : Text) → pop (xs ++ x ∷ []) ≡ xs
pop-snoc [] x = refl
pop-snoc (y ∷ []) x = refl
pop-snoc (y ∷ z ∷ ys) x = ap (λ r. y ∷ r) (pop-snoc (z ∷ ys) x)

member-snoc_other :
    (x n : Text) (xs : List Text)
    → member x xs ≡ false
    → text_eq n x ≡ false
    → member x (xs ++ n ∷ []) ≡ false
member-snoc_other x n [] h k = rw k
member-snoc_other x n (y ∷ ys) h k = ground (arith, member-snoc_other x n ys)

has_duplicate-snoc :
    (n : Text) (xs : List Text)
    → has_duplicate xs ≡ false
    → member n xs ≡ false
    → has_duplicate (xs ++ n ∷ []) ≡ false
has_duplicate-snoc n [] h k = refl
has_duplicate-snoc n (x ∷ xs) h k =
    ground
      (arith, has_duplicate-snoc n xs, member-snoc_other x n xs, text_eq_iff x n, text_eq_iff n x)

-- The result of an action that ends, and that leaves `active` as it was.
record Ends (s : Search) (r : Result CapabilityError Search) : Type 0 where
  fuelled : r ≢ err out_of_fuel
  restores : (t : Search) → r ≡ ok t → t.active ≡ s.active

bind-Ends :
    (s : Search) (r : Result CapabilityError Search) (f : Search → Result CapabilityError Search)
    → Ends s r
    → ((t : Search) → r ≡ ok t → Ends t (f t))
    → Ends s (r >>= f)
bind-Ends s (err e) f a b = record { fuelled = λ h. a.fuelled (cc); restores = λ t h. absurd (cc) }
bind-Ends s (ok t) f a b =
    let later = b t refl in
    record { fuelled = later.fuelled; restores = λ u h. later.restores u h ∙ a.restores t refl }

leave-Ends :
    (name : Text) (c : Capability) (s : Search) (r : Result CapabilityError Search)
    → Ends (enter name s) r
    → Ends s (r >>= λ t. ok (leave name c t))
leave-Ends name c s (err e) a = record {
  fuelled = λ h. a.fuelled (cc);
  restores = λ t h. absurd (cc);
}
leave-Ends name c s (ok t) a = record {
  fuelled = λ h. cc;
  restores = λ u h.
      let left : leave name c t ≡ u = cc in
      sym (ap (λ (v : Search). v.active) left)
      ∙ ap pop (a.restores t refl)
      ∙ pop-snoc s.active name;
}

ok-Ends : (s : Search) → Ends s (ok s)
ok-Ends s = record {
  fuelled = λ h. cc;
  restores = λ t h. let same : s ≡ t = cc in sym (ap (λ (v : Search). v.active) same);
}

fuelled-bind :
    (r : Result CapabilityError Search) (f : Search → List Capability)
    → r ≢ err out_of_fuel
    → (r >>= λ s. ok (f s)) ≢ err out_of_fuel
fuelled-bind (err e) f n h = n (cc)
fuelled-bind (ok s) f n h = cc

length-keys : (d : Dict Capability) → length (keys d) ≡ length d
length-keys [] = refl
length-keys (x ∷ d) = ap suc (length-keys d)

member-of_get :
    (name : Text) (d : Dict Capability) (c : Capability)
    → get name d ≡ some c
    → member name (keys d) ≡ true
unfolding get
member-of_get name [] c h = cc
member-of_get name ((k, v) ∷ d) c h = ground (arith, member-of_get name d c)

module _ (selected : Dict Capability) where
  -- Room for the names that may still become active.
  record Fits (fuel : ℕ) (active : List Text) : Type 0 where
    once : has_duplicate active ≡ false
    known : All (λ z. member z (keys selected) ≡ true) active
    room : suc (length (keys selected)) ≤ length active + fuel

  Fits-suc : (active : List Text) → Fits zero active → ⊥
  Fits-suc active f =
      let bound = pigeonhole active (keys selected) f.once f.known in
      let room = f.room in omega (arith, bound, room)

  Fits-snoc :
      (fuel : ℕ) (name : Text) (active : List Text)
      → Fits (suc fuel) active
      → member name active ≡ false
      → member name (keys selected) ≡ true
      → Fits fuel (active ++ name ∷ [])
  Fits-snoc fuel name active f new known = record {
    once = has_duplicate-snoc name active f.once new;
    known = All-append _ active (name ∷ []) f.known (known, tt);
    room = let room = f.room in omega (arith, room, length-append active (name ∷ []));
  }

  visit_each-Ends :
      (f : Text → Search → Result CapabilityError Search) (active : List Text)
      → ((name : Text) (s : Search) → s.active ≡ active → Ends s (f name s))
      → (names : List Text) (s : Search) → s.active ≡ active
      → Ends s (visit_each f names s)
  unfolding visit_each
  visit_each-Ends f active good [] s e = ok-Ends s
  visit_each-Ends f active good (n ∷ names) s e =
      let first = good n s e in
      bind-Ends s (f n s) _ first
        (λ t h. visit_each-Ends f active good names t (first.restores t h ∙ e))

  visit-Ends :
      (fuel : ℕ) (name : Text) (s : Search)
      → Fits fuel s.active
      → Ends s (visit selected fuel name s)
  unfolding visit
  visit-Ends zero name s f = absurd (Fits-suc s.active f)
  visit-Ends (suc fuel) name s f = elim (Bool-cases (member name s.active)) [
    | inl a ↦ rw a (record { fuelled = λ h. cc; restores = λ t h. absurd (cc) })
    | inr a ↦ elim (Bool-cases (member name s.visited)) [
      | inl v ↦ rw (a, v) (ok-Ends s)
      | inr v ↦ elim (Option-cases (get name selected)) [
        | inl e ↦ rw (a, v, lookup, e) (record { fuelled = λ h. cc; restores = λ t h. absurd (cc) })
        | inr (c, e) ↦
            let room = Fits-snoc fuel name s.active f a (member-of_get name selected c e) in
            rw (a, v, lookup, e)
              (leave-Ends name c s _ (
                visit_each-Ends (visit selected fuel) (s.active ++ name ∷ [])
                  (λ n t same. visit-Ends fuel n t (subst (Fits fuel) (sym same) room)) (required c)
                  (enter name s) refl))
      ]
    ]
  ]

  -- For any selection, the search ends before its fuel does.
  pub dependency_order-fuel : dependency_order selected ≢ err out_of_fuel
  unfolding dependency_order
  dependency_order-fuel h =
      let search = visit selected (suc (length selected)) in
      let begun : Fits (suc (length selected)) [] = record {
        once = refl;
        known = tt;
        room = omega (arith, length-keys selected);
      } in
      let all =
        visit_each-Ends search [] (λ n t same. visit-Ends _ n t (subst (Fits _) (sym same) begun))
          (sort text_leb (keys selected)) (start selected) refl in
      fuelled-bind _ (λ t. t.ordered) all.fuelled h
