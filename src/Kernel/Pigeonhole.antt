-- ===== src/Kernel/Pigeonhole.antt =====
-- Names without a duplicate that all stand in a list are no more than the list is long.
use xcron.Base.{
  true, false, if◌then◌else◌, suc, ◌≤◌, ◌≡◌, List, [], ◌∷◌, Text, text_eq, text_eq_iff, arith,
  length, All,
}
use xcron.Kernel.Capability.{member, has_duplicate}

abbrev delete : Text → List Text → List Text
delete x [] = []
delete x (y ∷ ys) = if text_eq y x then ys else y ∷ delete x ys

length-delete :
    (x : Text) (ys : List Text) → member x ys ≡ true → length ys ≡ suc (length (delete x ys))
length-delete x [] h = cc
length-delete x (y ∷ ys) h = ground (arith, length-delete x ys)

member-delete :
    (x z : Text) (ys : List Text)
    → text_eq x z ≡ false
    → member z ys ≡ true
    → member z (delete x ys) ≡ true
member-delete x z [] n h = cc
member-delete x z (y ∷ ys) n h =
    ground (arith, member-delete x z ys n, text_eq_iff y x, text_eq_iff y z, text_eq_iff x z)

-- A name that is no member of a list is none of its elements.
fresh_of : (x : Text) (xs : List Text) → member x xs ≡ false → All (λ z. text_eq x z ≡ false) xs
fresh_of x [] h = tt
fresh_of x (z ∷ xs) h =
    (ground (arith, text_eq_iff x z, text_eq_iff z x), fresh_of x xs (ground arith))

All-delete :
    (x : Text) (xs ys : List Text)
    → All (λ z. text_eq x z ≡ false) xs
    → All (λ z. member z ys ≡ true) xs
    → All (λ z. member z (delete x ys) ≡ true) xs
All-delete x [] ys n h = tt
All-delete x (z ∷ xs) ys n h = (member-delete x z ys n.0 h.0, All-delete x xs ys n.1 h.1)

pub pigeonhole :
    (xs ys : List Text)
    → has_duplicate xs ≡ false
    → All (λ z. member z ys ≡ true) xs
    → length xs ≤ length ys
pigeonhole [] ys d h = omega arith
pigeonhole (x ∷ xs) ys d h =
    let apart = fresh_of x xs (ground arith) in
    let rest = pigeonhole xs (delete x ys) (ground arith) (All-delete x xs ys apart h.1) in
    omega (arith, length-delete x ys h.0, rest)
