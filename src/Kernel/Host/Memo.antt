-- ===== src/Kernel/Host/Memo.antt =====
-- The host builds a registration once.
use xcron.Base.{
  ℕ, zero, suc, ◌≡◌, ap, ◌∙◌, sym, inl, inr, Option, none, some, [], ◌∷◌, ◌++◌, Text, text_eq_self,
  get, put, get-put, Result, ok, err, Bool-cases, Option-cases,
}
use xcron.Kernel.Capability.{CapabilityDescriptor, CapabilityError, member}
use xcron.Kernel.Host.{
  Registration, Build, Host, Outcome, registration, run_build, conclude, claims_differ,
}

abbrev Recorded : Text → Host → Registration → Type 0
Recorded name h r = get name h.registrations ≡ some r

conclude-Recorded :
    (name : Text) (d : CapabilityDescriptor)
    (o : Host × Result CapabilityError (Option Registration)) (h' : Host) (r : Registration)
    → conclude name d o ≡ (h', ok r)
    → Recorded name h' r
conclude-Recorded name d (h, err e) h' r k = absurd (cc)
conclude-Recorded name d (h, ok none) h' r k = absurd (cc)
conclude-Recorded name d (h, ok (some s)) h' r k = elim (Bool-cases (claims_differ d s.claims)) [
  | inl e ↦ absurd (cc (rw e at k))
  | inr e ↦
      let fields : (put name s h.registrations ≡ h'.registrations) × (s ≡ r) =
        (ap (λ (o : Outcome). o.0.registrations) (rw e at k), cc (rw e at k)) in
      ap (get name) (sym fields.0)
      ∙ get-put name name s h.registrations
      ∙ rw (text_eq_self name) (ap some fields.1)
]

module _ (build : Text → Build) where
  registration-Recorded :
      (fuel : ℕ) (name : Text) (h h' : Host) (r : Registration)
      → registration build fuel name h ≡ (h', ok r)
      → Recorded name h' r
  unfolding registration
  registration-Recorded zero name h h' r k = absurd (cc)
  registration-Recorded (suc fuel) name h h' r k = elim (Option-cases (get name h.registrations)) [
    | inr (s, e) ↦
        let k' = rw (registration, e) at k in
        ap (λ (o : Outcome). get name o.0.registrations) (sym k') ∙ e ∙ ap some (cc (k'))
    | inl e ↦ elim (Option-cases (get name h.selected)) [
      | inl f ↦ absurd (cc (rw (registration, e, f) at k))
      | inr (p, f) ↦ elim (Bool-cases (member name h.building)) [
        | inl b ↦ absurd (cc (rw (registration, e, f, b) at k))
        | inr b ↦
            conclude-Recorded name p.descriptor
              (run_build (registration build fuel) (build name)
                (record h { building = h.building ++ name ∷ [] }))
              h' r (rw (registration, e, f, b) at k)
      ]
    ]
  ]

  -- A registration that the host returned once is returned again, whatever the builders of the
  -- providers do then, and the host stays as it is.
  pub registration-again :
      (again : Text → Build) (fuel later : ℕ) (name : Text) (h h' : Host) (r : Registration)
      → registration build fuel name h ≡ (h', ok r)
      → registration again (suc later) name h' ≡ (h', ok r)
  unfolding registration
  registration-again again fuel later name h h' r k =
      rw (registration, registration-Recorded fuel name h h' r k)
