-- ===== src/Cron/Inspect/Lines.antt =====
-- What `read_line` makes of each line that `render_cron_block` writes.
use xcron.Base.{
  Bool, true, false, ◌||◌, nat_eq, ℕ, ◌≡◌, refl, ap, sym, subst, none, some, [], ◌∷◌, ◌++◌,
  append_assoc, Text, codes, text_Eq, text_eq, ◌==◌, starts_with, strip_prefix, strip_prefix-append,
  is_space, is_digit, is_empty, arith, ok,
}
use xcron.Base.Lines.Words.{
  IsWord, take_word-append, drop_word-append, take_word_self, drop_word_self, split_max-word,
  split_max-zero,
}
use xcron.Cron.Block.{
  begin_marker, end_marker, begin_marker_prefix, end_marker_prefix, disabled_marker, space, hash,
  metadata_line, qualified_id_key, job_id_key, desired_hash_key, definition_hash_key,
}
use xcron.Cron.Inspect.{join_parts, split_cron_entry}
use xcron.Cron.Inspect.Pattern.{parse_field, parse_metadata}

-- A character that a minute field begins with.
unfoldable pub is_lead : ℕ → Bool
unfolding is_digit
is_lead c = is_digit c || nat_eq c b'*'

word-is_empty : (w : Text) → IsWord w → is_empty w ≡ false
word-is_empty [] h = absurd (h.filled refl)
word-is_empty (c ∷ w) h = refl

parse_field-word :
    (key w : Text) (b : ℕ) (s : Text)
    → is_space b ≡ true
    → IsWord w
    → parse_field key (key ++ (w ++ b ∷ s)) ≡ some (w, b ∷ s)
unfolding parse_field
parse_field-word key w b s blank h = rw (
  strip_prefix-append key (w ++ b ∷ s),
  take_word-append b s blank w h.solid,
  drop_word-append b s blank w h.solid,
  word-is_empty w h,
)

space_is_space : is_space space ≡ true
unfolding is_space
space_is_space = refl

-- The word ends where the next key begins with a blank.
parse_field-key :
    (key w next tail s : Text)
    → next ≡ space ∷ tail
    → IsWord w
    → parse_field key (key ++ (w ++ (next ++ s))) ≡ some (w, next ++ s)
parse_field-key key w next tail s e h =
    subst (λ k. parse_field key (key ++ (w ++ (k ++ s))) ≡ some (w, k ++ s)) (sym e)
      (parse_field-word key w space (tail ++ s) space_is_space h)

abbrev StartsBlank : Text → Type 0
StartsBlank key = (tail : Text) × (key ≡ space ∷ tail)

job_id_key-blank : StartsBlank job_id_key
unfolding codes
job_id_key-blank = (codes "job_id=", refl)

desired_hash_key-blank : StartsBlank desired_hash_key
unfolding codes
desired_hash_key-blank = (codes "desired_hash=", refl)

definition_hash_key-blank : StartsBlank definition_hash_key
unfolding codes
definition_hash_key-blank = (codes "definition_hash=", refl)

parse_field-last : (key w : Text) → IsWord w → parse_field key (key ++ w) ≡ some (w, [])
unfolding parse_field
parse_field-last key w h = rw (
  strip_prefix-append key w,
  take_word_self w h.solid,
  drop_word_self w h.solid,
  word-is_empty w h,
)

-- A metadata line is read back as the four words that it was written from.
pub parse_metadata-line :
    (q j d f : Text)
    → IsWord q
    → IsWord j
    → IsWord d
    → IsWord f
    → parse_metadata (metadata_line q j d f)
      ≡ some (record { qualified_id = q; job_id = j; desired_hash = d; definition_hash = f })
unfolding parse_metadata metadata_line
parse_metadata-line q j d f hq hj hd hf =
    let (t, et) = job_id_key-blank in
    let (u, eu) = desired_hash_key-blank in
    let (v, ev) = definition_hash_key-blank in
    let r = definition_hash_key ++ f in
    rw (
      strip_prefix-append,
      parse_field-key qualified_id_key q job_id_key t (j ++ (desired_hash_key ++ (d ++ r))) et hq,
      parse_field-key job_id_key j desired_hash_key u (d ++ r) eu hj,
      parse_field-key desired_hash_key d definition_hash_key v f ev hd,
      parse_field-last definition_hash_key f hf,
    )

module _ (c : ℕ) (s : Text) (lead : is_lead c ≡ true) where
  pub entry_begins_not : (project_id : Text) → starts_with (c ∷ s) (begin_marker project_id) ≡ false
  unfolding starts_with codes is_lead is_digit
  entry_begins_not project_id = ground arith

  pub entry_ends_not : (project_id : Text) → starts_with (c ∷ s) (end_marker project_id) ≡ false
  unfolding starts_with codes is_lead is_digit
  entry_ends_not project_id = ground arith

  pub entry_no_metadata : parse_metadata (c ∷ s) ≡ none
  unfolding parse_metadata strip_prefix codes is_lead is_digit
  entry_no_metadata = ground arith

  pub entry_no_marker : ((c ∷ s) == disabled_marker) ≡ false
  unfolding text_eq codes is_lead is_digit
  entry_no_marker = ground arith

  pub entry_no_hash : starts_with (c ∷ s) (hash ∷ space ∷ []) ≡ false
  unfolding starts_with is_lead is_digit
  entry_no_hash = ground arith

  pub disabled_begins_not :
      (project_id : Text) → starts_with (hash ∷ space ∷ c ∷ s) (begin_marker project_id) ≡ false
  unfolding starts_with codes is_lead is_digit
  disabled_begins_not project_id = ground arith

  pub disabled_ends_not :
      (project_id : Text) → starts_with (hash ∷ space ∷ c ∷ s) (end_marker project_id) ≡ false
  unfolding starts_with codes is_lead is_digit
  disabled_ends_not project_id = ground arith

  pub disabled_no_metadata : parse_metadata (hash ∷ space ∷ c ∷ s) ≡ none
  unfolding parse_metadata strip_prefix codes is_lead is_digit
  disabled_no_metadata = ground arith

  pub disabled_no_marker : ((hash ∷ space ∷ c ∷ s) == disabled_marker) ≡ false
  unfolding text_eq codes is_lead is_digit
  disabled_no_marker = ground arith

-- The lines that no schedule is part of.
module _ (project_id q j d f : Text) where
  pub metadata_begins_not : starts_with (metadata_line q j d f) (begin_marker project_id) ≡ false
  unfolding metadata_line starts_with codes
  metadata_begins_not = refl

  pub metadata_ends_not : starts_with (metadata_line q j d f) (end_marker project_id) ≡ false
  unfolding metadata_line starts_with codes
  metadata_ends_not = refl

module _ (project_id s : Text) where
  pub begin_ends_not : starts_with (begin_marker_prefix ++ s) (end_marker project_id) ≡ false
  unfolding starts_with codes
  begin_ends_not = refl

  pub end_begins_not : starts_with (end_marker_prefix ++ s) (begin_marker project_id) ≡ false
  unfolding starts_with codes
  end_begins_not = refl

module _ (project_id : Text) where
  pub marker_begins_not : starts_with disabled_marker (begin_marker project_id) ≡ false
  unfolding starts_with codes
  marker_begins_not = refl

  pub marker_ends_not : starts_with disabled_marker (end_marker project_id) ≡ false
  unfolding starts_with codes
  marker_ends_not = refl

pub marker_no_metadata : parse_metadata disabled_marker ≡ none
unfolding parse_metadata strip_prefix codes
marker_no_metadata = refl

-- Five fields, single blanks between them.
pub record HasFields (schedule : Text) : Type 0 where
  pub minute : Text
  pub hour : Text
  pub day : Text
  pub month : Text
  pub weekday : Text
  pub shape :
      schedule ≡ minute ++ space ∷ (hour ++ space ∷ (day ++ space ∷ (month ++ space ∷ weekday)))
  pub minute_word : IsWord minute
  pub hour_word : IsWord hour
  pub day_word : IsWord day
  pub month_word : IsWord month
  pub weekday_word : IsWord weekday

-- An entry of five fields and a command is split into these two.
pub split_cron_entry-line :
    (schedule : Text) (x : ℕ) (s : Text)
    → HasFields schedule
    → is_space x ≡ false
    → split_cron_entry (schedule ++ space ∷ x ∷ s) ≡ ok (schedule, x ∷ s)
unfolding split_cron_entry join_parts space_is_space
split_cron_entry-line schedule x s h solid =
    let open_end : Text = space ∷ x ∷ s in
    let line =
      h.minute
      ++ space
        ∷ (h.hour ++ space ∷ (h.day ++ space ∷ (h.month ++ space ∷ (h.weekday ++ open_end)))) in
    let regroup : schedule ++ open_end ≡ line = rw h.shape (simp append_assoc) in
    let blank = space_is_space in
    rw
      (
        regroup,
        split_max-word space _ blank 4 h.minute h.minute_word,
        split_max-word space _ blank 3 h.hour h.hour_word,
        split_max-word space _ blank 2 h.day h.day_word,
        split_max-word space _ blank 1 h.month h.month_word,
        split_max-word space _ blank 0 h.weekday h.weekday_word,
        split_max-zero x s solid,
      )
      (ap (λ t. ok (t, x ∷ s)) (sym h.shape))
