-- ===== src/Cron/Block/Print.antt =====
-- The texts that `replace_project_block` reads and writes, as lists of lines.
use xcron.Base.{
  false, nat_eq, ℕ, ◌≡◌, ◌≢◌, refl, ap, ◌∙◌, sym, inl, inr, some, List, [], ◌∷◌, ◌++◌, append_assoc,
  Text, is_empty, All, arith, List-cases, lf, splitlines, join_lines, rstrip, rstrip_lf,
  is_line_break, lines_after, cons_head,
}
use xcron.Base.Lines.Splitting.{
  Breakless, unlines, join_lines-lf, lines_after-cons, lines_after-append_lf,
}
use xcron.Base.Lines.Trimming.{trim_lines, rstrip-join_lines, trim_lines-append}
use xcron.Cron.Block.{print_lines, replacement_lines}

-- A line with something other than space at its end.
pub record IsSolid (line : Text) : Type 0 where
  pub stripped : rstrip line ≡ line
  pub filled : line ≢ []
  pub breakless : Breakless line

module _ (xs : List Text) (e : Text) where
  is_empty-append : (ys : List Text) → is_empty (xs ++ e ∷ ys) ≡ false
  is_empty-append ys = elim (List-cases xs) [ inl h ↦ rw h | inr (l, ls, h) ↦ rw h ]

  join_lines-append_lf :
      (ys : List Text) → join_lines (xs ++ e ∷ ys) ++ lf ∷ [] ≡ unlines (xs ++ e ∷ ys)
  join_lines-append_lf ys = elim (List-cases xs) [
    | inl h ↦ rw h (join_lines-lf e ys)
    | inr (l, ls, h) ↦ rw h (join_lines-lf l (ls ++ e ∷ ys))
  ]

  -- Written out, the lines behind the last solid one lose their blank end; the others stay.
  pub print_lines-solid :
      (ys : List Text) → IsSolid e → print_lines (xs ++ e ∷ ys) ≡ unlines (xs ++ e ∷ trim_lines ys)
  unfolding print_lines
  print_lines-solid ys solid =
      rw
        (
          is_empty-append ys,
          rstrip-join_lines (xs ++ e ∷ ys),
          trim_lines-append xs e ys solid.stripped solid.filled,
        )
        (join_lines-append_lf (trim_lines ys))

rstrip_lf-append_lf : (s : Text) → rstrip_lf (s ++ lf ∷ []) ≡ rstrip_lf s
unfolding rstrip_lf
rstrip_lf-append_lf [] = refl
rstrip_lf-append_lf (c ∷ s) = rw (rstrip_lf-append_lf s)

lf_breaks : (c : ℕ) → is_line_break c ≡ false → nat_eq c lf ≡ false
unfolding is_line_break
lf_breaks c h = ground arith

rstrip_lf-Breakless : (s : Text) → Breakless s → rstrip_lf s ≡ s
unfolding rstrip_lf
rstrip_lf-Breakless [] h = refl
rstrip_lf-Breakless (c ∷ []) h = rw (lf_breaks c h.0)
rstrip_lf-Breakless (c ∷ d ∷ s) h = rw (rstrip_lf-Breakless (d ∷ s) h.1)

rstrip_lf-append :
    (s : Text) (c : ℕ) (e : Text) → Breakless (c ∷ e) → rstrip_lf (s ++ c ∷ e) ≡ s ++ c ∷ e
unfolding rstrip_lf
rstrip_lf-append [] c e h = rstrip_lf-Breakless (c ∷ e) h
rstrip_lf-append (d ∷ []) c e h = rw (rstrip_lf-Breakless (c ∷ e) h)
rstrip_lf-append (d ∷ x ∷ s) c e h = rw (rstrip_lf-append (x ∷ s) c e h)

unlines-append : (xs : List Text) (e : Text) → unlines (xs ++ e ∷ []) ≡ (unlines xs ++ e) ++ lf ∷ []
unfolding unlines
unlines-append [] e = refl
unlines-append (x ∷ xs) e =
    ap (λ r. x ++ lf ∷ r) (unlines-append xs e)
    ∙ sym (
        ap (λ r. r ++ lf ∷ []) (append_assoc x (lf ∷ unlines xs) e)
        ∙ append_assoc x (lf ∷ (unlines xs ++ e)) (lf ∷ []))

lines_after-last : (e : Text) → Breakless e → e ≢ [] → lines_after false e ≡ e ∷ []
lines_after-last [] h n = absurd (n refl)
lines_after-last (c ∷ []) h n = lines_after-cons c [] h.0 ∙ unfold lines_after in refl
lines_after-last (c ∷ d ∷ e) h n =
    lines_after-cons c (d ∷ e) h.0 ∙ ap (cons_head c) (lines_after-last (d ∷ e) h.1 (λ f. cc))

splitlines-append :
    (xs : List Text) (e : Text)
    → All Breakless xs
    → Breakless e
    → e ≢ []
    → splitlines (unlines xs ++ e) ≡ xs ++ e ∷ []
unfolding splitlines unlines
splitlines-append [] e h k n = lines_after-last e k n
splitlines-append (x ∷ xs) e h k n =
    ap (lines_after false) (append_assoc x (lf ∷ unlines xs) e)
    ∙ lines_after-append_lf x (unlines xs ++ e) h.0
    ∙ ap (λ r. x ∷ r) (splitlines-append xs e h.1 k n)

-- The lines of a replacement are the lines that it was rendered from.
pub replacement_lines-unlines :
    (xs : List Text) (e : Text)
    → All Breakless xs
    → IsSolid e
    → replacement_lines (some (unlines (xs ++ e ∷ []))) ≡ xs ++ e ∷ []
replacement_lines-unlines xs [] h solid = absurd (solid.filled refl)
replacement_lines-unlines xs (c ∷ e) h solid =
    ap splitlines (
      ap rstrip_lf (unlines-append xs (c ∷ e))
      ∙ rstrip_lf-append_lf (unlines xs ++ c ∷ e)
      ∙ rstrip_lf-append (unlines xs) c e solid.breakless)
    ∙ splitlines-append xs (c ∷ e) h solid.breakless solid.filled
