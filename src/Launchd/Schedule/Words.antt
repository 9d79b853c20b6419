-- ===== src/Launchd/Schedule/Words.antt =====
-- `split()` finds the words that a text was put together from with one space between them.
use xcron.Base.{
  split, ◌≡◌, refl, ap, ◌∙◌, ℕ, zero, suc, ◌≤◌, List, [], ◌∷◌, ◌++◌, length, length-append, Text,
  is_space, lstrip, All, arith,
}
use xcron.Base.Lines.{split_max}
use xcron.Base.Lines.Words.{
  IsWord, split_max-word, take_word_self, drop_word_self, split_max-filled,
}

abbrev pub space : ℕ
space = 32

-- `" ".join(words)`
abbrev pub join_spaces : List Text → Text
join_spaces [] = []
join_spaces (w ∷ []) = w
join_spaces (w ∷ x ∷ ws) = w ++ space ∷ join_spaces (x ∷ ws)

split_max-nil : (n : ℕ) → split_max n [] ≡ []
unfolding split_max lstrip
split_max-nil zero = refl
split_max-nil (suc n) = refl

split_max-last : (n : ℕ) (w : Text) → IsWord w → split_max (suc n) w ≡ w ∷ []
split_max-last n [] h = absurd (h.filled refl)
split_max-last n (c ∷ w) h =
    split_max-filled n c w h.solid.0
    ∙ rw (take_word_self (c ∷ w) h.solid, drop_word_self (c ∷ w) h.solid, split_max-nil n) refl

split_max-join_spaces :
    (n : ℕ) (ws : List Text) → All IsWord ws → length ws ≤ n → split_max n (join_spaces ws) ≡ ws
split_max-join_spaces n [] h k = split_max-nil n
split_max-join_spaces zero (w ∷ ws) h k = ground arith
split_max-join_spaces (suc n) (w ∷ []) h k = split_max-last n w h.0
split_max-join_spaces (suc n) (w ∷ x ∷ ws) h k =
    split_max-word space (join_spaces (x ∷ ws)) (unfold is_space in refl) n w h.0
    ∙ ap (λ rest. w ∷ rest) (split_max-join_spaces n (x ∷ ws) h.1 (omega arith))

filled-length : (w : Text) → IsWord w → 1 ≤ length w
filled-length [] h = absurd (h.filled refl)
filled-length (c ∷ w) h = omega arith

length-join_spaces : (ws : List Text) → All IsWord ws → length ws ≤ length (join_spaces ws)
length-join_spaces [] h = omega arith
length-join_spaces (w ∷ []) h = omega (arith, filled-length w h.0)
length-join_spaces (w ∷ x ∷ ws) h = omega (
  arith,
  filled-length w h.0,
  length-append w (space ∷ join_spaces (x ∷ ws)),
  length-join_spaces (x ∷ ws) h.1,
)

pub split-join_spaces : (ws : List Text) → All IsWord ws → split (join_spaces ws) ≡ ws
unfolding split
split-join_spaces ws h = split_max-join_spaces _ ws h (length-join_spaces ws h)
