-- ===== src/Kernel/Topology.antt =====
-- The order that `_dependency_order` returns.
use xcron.Base.{
  true, ℕ, zero, suc, ◌≡◌, ap, ◌∙◌, sym, subst, inl, inr, some, List, [], ◌∷◌, ◌++◌, map,
  map-append, append_assoc, append-nil, Text, text_leb, text_eq, text_eq_self, text_eq_iff, arith,
  Dict, get, keys, sort, length, Result, ok, >>=-eq-ok, All, All-imp, Bool-cases, Option-cases,
}
use xcron.Kernel.Capability.{Capability, CapabilityError, member, name_of}
use xcron.Kernel.Order.{
  Search, visit, visit_each, dependency_order, lookup, required, enter, leave, start,
}

abbrev pub names_of : List Capability → List Text
names_of cs = map name_of cs

-- Each provider stands behind all that it requires.
abbrev pub IsOrdered : List Text → List Capability → Type 0
IsOrdered seen [] = Unit
IsOrdered seen (c ∷ cs) =
    All (λ r. member r seen ≡ true) (required c) × IsOrdered (seen ++ name_of c ∷ []) cs

IsOrdered-snoc :
    (seen : List Text) (cs : List Capability) (c : Capability)
    → IsOrdered seen cs
    → All (λ r. member r (seen ++ names_of cs) ≡ true) (required c)
    → IsOrdered seen (cs ++ c ∷ [])
IsOrdered-snoc seen [] c h k = (rw append-nil at k, tt)
IsOrdered-snoc seen (d ∷ cs) c h k = (
  h.0,
  IsOrdered-snoc (seen ++ name_of d ∷ []) cs c h.1 (
      subst (λ ns. All (λ r. member r ns ≡ true) (required c))
        (sym (append_assoc seen (name_of d ∷ []) (names_of cs))) k),
)

member-snoc : (x y : Text) (ys : List Text) → member x ys ≡ true → member x (ys ++ y ∷ []) ≡ true
member-snoc x y [] h = cc
member-snoc x y (z ∷ ys) h = ground (arith, member-snoc x y ys)

member-snoc_self : (x : Text) (ys : List Text) → member x (ys ++ x ∷ []) ≡ true
member-snoc_self x [] = rw (text_eq_self x)
member-snoc_self x (y ∷ ys) = ground (arith, member-snoc_self x ys)

-- What was visited is in the order.
record Inv (s : Search) : Type 0 where
  is_ordered : IsOrdered [] s.ordered
  recorded : (x : Text) → member x s.visited ≡ true → member x (names_of s.ordered) ≡ true

-- A search that went on from `s` to `s'` and has visited `names`.
record Visited (s s' : Search) (names : List Text) : Type 0 where
  inv : Inv s'
  grows : (x : Text) → member x s.visited ≡ true → member x s'.visited ≡ true
  reached : All (λ n. member n s'.visited ≡ true) names

abbrev Good : (Text → Search → Result CapabilityError Search) → Type 0
Good f = (name : Text) (s s' : Search) → f name s ≡ ok s' → Inv s → Visited s s' (name ∷ [])

visit_each-Visited :
    (f : Text → Search → Result CapabilityError Search)
    → Good f
    → (names : List Text) (s s' : Search) → visit_each f names s ≡ ok s'
    → Inv s
    → Visited s s' names
unfolding visit_each
visit_each-Visited f good [] s s' h i =
    let same : s ≡ s' = cc in
    subst (λ t. Visited s t []) same (record { inv = i; grows = λ x k. k; reached = tt })
visit_each-Visited f good (n ∷ names) s s' h i =
    let (t, first, later) = >>=-eq-ok (f n s) _ h in
    let a = good n s t first i in
    let b = visit_each-Visited f good names t s' later a.inv in
    record {
      inv = b.inv;
      grows = λ x k. b.grows x (a.grows x k);
      reached = (b.grows n a.reached.0, b.reached);
    }

module _ (selected : Dict Capability)
    (keyed : (name : Text) (c : Capability) → get name selected ≡ some c → name_of c ≡ name) where
  lookup-keyed : (name : Text) (c : Capability) → lookup selected name ≡ ok c → name_of c ≡ name
  lookup-keyed name c h = elim (Option-cases (get name selected)) [
    | inl e ↦ absurd (cc (rw (e, lookup) at h))
    | inr (d, e) ↦ keyed name c (e ∙ ap some (cc (rw (e, lookup) at h)))
  ]

  leave-Visited :
      (name : Text) (c : Capability) (s t : Search)
      → name_of c ≡ name
      → Visited (enter name s) t (required c)
      → Visited s (leave name c t) (name ∷ [])
  leave-Visited name c s t same v = record {
    inv = record {
      is_ordered =
          IsOrdered-snoc [] t.ordered c v.inv.is_ordered
            (All-imp _ _ (required c) (λ r k. v.inv.recorded r k) v.reached);
      recorded = λ x k. elim (Bool-cases (text_eq name x)) [
        | inl e ↦
            let here : name_of c ≡ x = same ∙ (text_eq_iff name x).0 e in
            rw (map-append, here) (member-snoc_self x (names_of t.ordered))
        | inr e ↦
            rw map-append
              (member-snoc x (name_of c) (names_of t.ordered) (v.inv.recorded x (rw e at k)))
      ];
    };
    grows = λ x k. ground (arith, v.grows x k);
    reached = (rw (text_eq_self name), tt);
  }

  visit-Good : (fuel : ℕ) → Good (visit selected fuel)
  unfolding visit
  visit-Good zero name s s' h i = absurd (cc)
  visit-Good (suc fuel) name s s' h i = elim (Bool-cases (member name s.active)) [
    | inl a ↦ absurd (cc (rw a at h))
    | inr a ↦ elim (Bool-cases (member name s.visited)) [
      | inl v ↦
          let same : s ≡ s' = cc (rw (a, v) at h) in
          subst (λ t. Visited s t (name ∷ [])) same
            (record { inv = i; grows = λ x k. k; reached = (v, tt) })
      | inr v ↦
          let (c, found, h1) = >>=-eq-ok (lookup selected name) _ (rw (a, v) at h) in
          let (t, inner, h2) =
            >>=-eq-ok (visit_each (visit selected fuel) (required c) (enter name s)) _ h1 in
          let same : leave name c t ≡ s' = cc (h2) in
          let entered : Inv (enter name s) = record {
            is_ordered = i.is_ordered;
            recorded = i.recorded;
          } in
          subst (λ u. Visited s u (name ∷ [])) same
            (leave-Visited name c s t (lookup-keyed name c found) (
              visit_each-Visited (visit selected fuel) (visit-Good fuel) (required c) (enter name s)
                t inner entered))
    ]
  ]

  -- Where each provider is filed under its own capability, the order that is returned has each
  -- provider behind all that it requires, and no selected capability is missing from it.
  pub dependency_order-IsOrdered :
      (cs : List Capability)
      → dependency_order selected ≡ ok cs
      → IsOrdered [] cs × All (λ n. member n (names_of cs) ≡ true) (sort text_leb (keys selected))
  unfolding dependency_order
  dependency_order-IsOrdered cs h =
      let names = sort text_leb (keys selected) in
      let search = visit selected (suc (length selected)) in
      let (s, found, last) = >>=-eq-ok (visit_each search names (start selected)) _ h in
      let v =
        visit_each-Visited search (visit-Good (suc (length selected))) names (start selected) s
          found (record { is_ordered = tt; recorded = λ x k. cc }) in
      subst (λ os. IsOrdered [] os × All (λ n. member n (names_of os) ≡ true) names) (cc (last))
        (v.inv.is_ordered, All-imp _ _ names (λ n k. v.inv.recorded n k) v.reached)
