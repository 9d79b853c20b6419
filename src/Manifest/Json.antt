-- ===== src/Manifest/Json.antt =====
-- The values of JSON and of YAML manifests; numbers are natural.
use xcron.Base.{
  Bool, true, false, ◌&&◌, if◌then◌else◌, nat_eq, ℕ, ◌+◌, ◌≡◌, refl, ap, Option, none, some, List,
  [], ◌∷◌, Text, text_Eq, ◌==◌, Dict,
}

mutual
  pub data Json : Type 0 where
    null : Json
    boolean : Bool → Json
    number : ℕ → Json
    text : Text → Json
    array : Items → Json
    object : Members → Json

  pub data Items : Type 0 where
    no_items : Items
    item : Json → Items → Items

  pub data Members : Type 0 where
    no_members : Members
    member : Text → Json → Members → Members

abbrev items_of : List Json → Items
items_of [] = no_items
items_of (x ∷ xs) = item x (items_of xs)

abbrev members_of : Dict Json → Members
members_of [] = no_members
members_of ((k, x) ∷ d) = member k x (members_of d)

-- A list and a dict as values.
abbrev pub list : List Json → Json
list xs = array (items_of xs)

abbrev pub dict : Dict Json → Json
dict d = object (members_of d)

abbrev pub text_or_null : Option Text → Json
text_or_null none = null
text_or_null (some s) = text s

-- The elements of an array and the entries of an object.
unfoldable pub elements : Items → List Json
elements no_items = []
elements (item x xs) = x ∷ elements xs

unfoldable pub entries : Members → Dict Json
entries no_members = []
entries (member k x d) = (k, x) ∷ entries d

pub elements-items_of : (xs : List Json) → elements (items_of xs) ≡ xs
unfolding elements
elements-items_of [] = refl
elements-items_of (x ∷ xs) = ap (λ ys. x ∷ ys) (elements-items_of xs)

pub entries-members_of : (d : Dict Json) → entries (members_of d) ≡ d
unfolding entries
entries-members_of [] = refl
entries-members_of ((k, x) ∷ d) = ap (λ e. (k, x) ∷ e) (entries-members_of d)

unfoldable pub size : Members → ℕ
size no_members = 0
size (member k x d) = size d + 1

unfoldable pub find_member : Text → Members → Option Json
find_member k no_members = none
find_member k (member j x d) = if j == k then some x else find_member k d

abbrev bit : Bool → ℕ
bit true = 1
bit false = 0

-- Python's `==`: a boolean is a number, and the order of the keys of a dict makes no difference.
unfoldable mutual
  unfolding size find_member

  pub json_eq : Json → Json → Bool
  json_eq null null = true
  json_eq (boolean a) (boolean b) = nat_eq (bit a) (bit b)
  json_eq (boolean a) (number n) = nat_eq (bit a) n
  json_eq (number n) (boolean b) = nat_eq n (bit b)
  json_eq (number n) (number m) = nat_eq n m
  json_eq (text s) (text t) = s == t
  json_eq (array xs) (array ys) = items_eq xs ys
  json_eq (object d) (object e) = nat_eq (size d) (size e) && members_in d e
  json_eq _ _ = false

  pub items_eq : Items → Items → Bool
  items_eq no_items no_items = true
  items_eq (item x xs) (item y ys) = json_eq x y && items_eq xs ys
  items_eq _ _ = false

  pub members_in : Members → Members → Bool
  members_in no_members e = true
  members_in (member k x d) e =
      elim (find_member k e) [ none ↦ false | some y ↦ json_eq x y ] && members_in d e
