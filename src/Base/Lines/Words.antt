-- ===== src/Base/Lines/Words.antt =====
-- Words: runs of characters that are no space, as `split` and the patterns `\S+` find them.
use Prim.Native.Nat.{ℕ, zero, suc}
use mathlib.Core.Path.{◌≡◌, refl, ap, ap₂, ◌∙◌}
use mathlib.Core.Logic.{◌≢◌}
use mathlib.Core.Bool.{true, false}
use mathlib.Core.List.{[], ◌∷◌, ◌++◌}
use xcron.Base.Strings.{Text, is_space}
use xcron.Base.Lists.{All}
use xcron.Base.Lines.{lstrip, take_word, drop_word, split_max}

pub record IsWord (w : Text) : Type 0 where
  pub filled : w ≢ []
  pub solid : All (λ c. is_space c ≡ false) w

pub split_max-filled :
    (n : ℕ) (c : ℕ) (s : Text)
    → is_space c ≡ false
    → split_max (suc n) (c ∷ s) ≡ take_word (c ∷ s) ∷ split_max n (drop_word (c ∷ s))
unfolding split_max lstrip
split_max-filled n c s h = rw h

module _ (b : ℕ) (s : Text) (blank : is_space b ≡ true) where
  pub take_word-append : (w : Text) → All (λ c. is_space c ≡ false) w → take_word (w ++ b ∷ s) ≡ w
  unfolding take_word
  take_word-append [] h = rw blank
  take_word-append (c ∷ w) h = rw (h.0, take_word-append w h.1)

  pub drop_word-append :
      (w : Text) → All (λ c. is_space c ≡ false) w → drop_word (w ++ b ∷ s) ≡ b ∷ s
  unfolding drop_word
  drop_word-append [] h = rw blank
  drop_word-append (c ∷ w) h = rw (h.0, drop_word-append w h.1)

  pub split_max-blank : (n : ℕ) → split_max n (b ∷ s) ≡ split_max n s
  unfolding split_max lstrip
  split_max-blank zero = rw blank
  split_max-blank (suc n) = rw blank

  -- A word and what follows it behind a blank.
  pub split_max-word :
      (n : ℕ) (w : Text) → IsWord w → split_max (suc n) (w ++ b ∷ s) ≡ w ∷ split_max n s
  split_max-word n [] h = absurd (h.filled refl)
  split_max-word n (c ∷ w) h =
      split_max-filled n c (w ++ b ∷ s) h.solid.0
      ∙ ap₂ (λ u r. u ∷ split_max n r) (take_word-append (c ∷ w) h.solid)
          (drop_word-append (c ∷ w) h.solid)
      ∙ ap (λ r. (c ∷ w) ∷ r) (split_max-blank n)

pub take_word_self : (w : Text) → All (λ c. is_space c ≡ false) w → take_word w ≡ w
unfolding take_word
take_word_self [] h = refl
take_word_self (c ∷ w) h = rw (h.0, take_word_self w h.1)

pub drop_word_self : (w : Text) → All (λ c. is_space c ≡ false) w → drop_word w ≡ []
unfolding drop_word
drop_word_self [] h = refl
drop_word_self (c ∷ w) h = rw (h.0, drop_word_self w h.1)

-- With no split left, the rest is one part.
pub split_max-zero : (c : ℕ) (s : Text) → is_space c ≡ false → split_max 0 (c ∷ s) ≡ (c ∷ s) ∷ []
unfolding split_max lstrip
split_max-zero c s h = rw h
