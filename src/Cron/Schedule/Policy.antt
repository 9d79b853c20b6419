-- ===== src/Cron/Schedule/Policy.antt =====
-- The policy rejects exactly the jobs that cannot be rendered.
use xcron.Base.{
  false, ◌≡◌, refl, ap, ◌∙◌, ◌↔◌, ◌⊎◌, inl, inr, nat_eq, nat_Eq, ℕ, ◌≤◌, Option, none, some, [],
  ◌∷◌, ◌++◌, Text, codes, int_of, show_int, Result, ok, Bool-cases, arith,
}
use xcron.Contracts.{ScheduleKind, cron, every, NormalizedJob}
use xcron.Planner.{NativeError}
use xcron.Cron.Schedule.{
  last_char, but_last, parse_int, render_cron_schedule, cron_incompatible_reason, every_schedule,
  every_reason, reason_by_kind, render_by_kind,
}

last_char-snoc : (s : Text) (c : ℕ) → last_char (s ++ c ∷ []) ≡ ok c
unfolding last_char
last_char-snoc [] c = refl
last_char-snoc (x ∷ []) c = refl
last_char-snoc (x ∷ y ∷ s) c = last_char-snoc (y ∷ s) c

but_last-snoc : (s : Text) (c : ℕ) → but_last (s ++ c ∷ []) ≡ s
unfolding but_last
but_last-snoc [] c = refl
but_last-snoc (x ∷ []) c = refl
but_last-snoc (x ∷ y ∷ s) c = ap (λ r. x ∷ r) (but_last-snoc (y ∷ s) c)

-- What the manifest's schema asks of an `every` value: `^[1-9][0-9]*[smhdw]$`.
pub record IsInterval (value : Text) : Type 0 where
  pub number : Text
  pub amount : ℕ
  pub suffix : ℕ
  pub shape : value ≡ number ++ suffix ∷ []
  pub parsed : int_of number ≡ some amount
  pub positive : 1 ≤ amount
  pub unit : (suffix ≡ b's') ⊎ (suffix ≡ b'm') ⊎ (suffix ≡ b'h') ⊎ (suffix ≡ b'd') ⊎ (suffix ≡ b'w')

abbrev HasInterval : ScheduleKind → Text → Type 0
HasInterval cron value = Unit
HasInterval every value = IsInterval value

-- A job that the schema lets through.
abbrev pub IsPortable : NormalizedJob → Type 0
IsPortable job = HasInterval job.schedule.kind job.schedule.value

parse_int-eq_ok : (s : Text) (n : ℕ) → int_of s ≡ some n → parse_int s ≡ ok n
unfolding parse_int
parse_int-eq_ok s n h = rw (h, parse_int)

module _ (value : Text) (amount suffix : ℕ) where
  abbrev Renders : Type 0
  Renders = (line : Text) × (every_schedule value amount suffix ≡ ok line)

  abbrev Accepts : Type 0
  Accepts = every_reason value suffix amount ≡ none

  weeks_rejected : every_reason value b'w' amount ≡ none → nat_eq amount 1 ≡ false → 1 ≤ amount → ⊥
  weeks_rejected h more pos = ground arith

  accepts_iff_renders :
      1 ≤ amount
      → (suffix ≡ b's') ⊎ (suffix ≡ b'm') ⊎ (suffix ≡ b'h') ⊎ (suffix ≡ b'd') ⊎ (suffix ≡ b'w')
      → Accepts ↔ Renders
  accepts_iff_renders pos (inl e) =
      (λ h. absurd (cc (rw e at h)), λ (line, h). absurd (cc (rw e at h)))
  accepts_iff_renders pos (inr (inl e)) =
      (λ h. (codes "*/" ++ show_int amount ++ codes " * * * *", rw e), λ h. rw e)
  accepts_iff_renders pos (inr (inr (inl e))) =
      (λ h. (codes "0 */" ++ show_int amount ++ codes " * * *", rw e), λ h. rw e)
  accepts_iff_renders pos (inr (inr (inr (inl e)))) =
      (λ h. (codes "0 0 */" ++ show_int amount ++ codes " * *", rw e), λ h. rw e)
  accepts_iff_renders pos (inr (inr (inr (inr e)))) = elim (Bool-cases (nat_eq amount 1)) [
    | inl one ↦ (λ h. (codes "0 0 * * 0", rw (e, one)), λ h. rw e (ground arith))
    | inr more ↦ (
      λ h. absurd (weeks_rejected (rw e at h) more pos),
      λ (line, h). absurd (cc (rw (e, more) at h)),
    )
  ]

ok-injective :
    {a b : Option Text} → ◌≡◌ {A = Result NativeError (Option Text)} (ok a) (ok b) → a ≡ b
ok-injective h = cc

by_kind :
    (kind : ScheduleKind) (value : Text)
    → HasInterval kind value
    → (reason_by_kind kind value ≡ ok none)
      ↔ ((line : Text) × (render_by_kind kind value ≡ ok line))
by_kind cron value h = (λ _. (value, refl), λ _. refl)
by_kind every value h =
    let end = ap last_char h.shape ∙ last_char-snoc h.number h.suffix in
    let start = ap but_last h.shape ∙ but_last-snoc h.number h.suffix in
    let amount = parse_int-eq_ok h.number h.amount h.parsed in
    let (to, from) = accepts_iff_renders value h.amount h.suffix h.positive h.unit in
    (
      λ e. rw (start, amount, end) (to (ok-injective (rw (end, start, amount) at e))),
      λ e. rw (end, start, amount) (ap ok (from (rw (start, amount, end) at e))),
    )

-- The policy gives a job no reason exactly when its schedule can be rendered.
pub policy-exact :
    (job : NormalizedJob)
    → IsPortable job
    → (cron_incompatible_reason job ≡ ok none)
      ↔ ((line : Text) × (render_cron_schedule job ≡ ok line))
unfolding cron_incompatible_reason render_cron_schedule
policy-exact job h = by_kind job.schedule.kind job.schedule.value h
