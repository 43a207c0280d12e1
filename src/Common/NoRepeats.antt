-- ===== src/Common/NoRepeats.antt =====
-- Lists of texts without repetition, and the counting that they allow.
use Prim.Native.Nat.{suc, ◌≤◌}
use Prim.Native.String.{String}
use mathlib.Core.Path.{◌≡◌}
use mathlib.Core.Bool.{true, false}
use mathlib.Core.Logic.{inl, inr}
use mathlib.Core.List.{List, [], ◌∷◌, ◌++◌}
use native.Mathlib.Omega.{arith}
use text.Mathlib.Text.{◌==◌}
use text.Mathlib.TextEquality.{eq_iff}
use text.Mathlib.TextPositions.{eq_refl}
use multi_agent_rag_local.Common.Tests.{Bool-cases, if◌then◌else◌}
use multi_agent_rag_local.Common.Lists.{length}
use multi_agent_rag_local.Common.Members.{
  contains, intersection, contains-intersection, contains-append, subset,
}

abbrev pub Distinct : List String → Type 0
Distinct [] = Unit
Distinct (x ∷ xs) = (contains x xs ≡ false) × Distinct xs

-- Every element of the first list is in the second.
abbrev pub Within : List String → List String → Type 0
Within xs ys = (z : String) → contains z xs ≡ true → contains z ys ≡ true

abbrev remove_one : String → List String → List String
remove_one x [] = []
remove_one x (y ∷ ys) = let rest = remove_one x ys in if y == x then ys else y ∷ rest

length-remove_one :
    (x : String) (ys : List String)
    → contains x ys ≡ true
    → suc (length (remove_one x ys)) ≡ length ys
length-remove_one x [] h = cc
length-remove_one x (y ∷ ys) h = ground (arith, length-remove_one x ys)

contains-remove_one :
    (x z : String) (ys : List String)
    → (x == z) ≡ false
    → contains z ys ≡ true
    → contains z (remove_one x ys) ≡ true
contains-remove_one x z [] other h = cc
contains-remove_one x z (y ∷ ys) other h =
    ground (arith, eq_iff y x, eq_iff y z, eq_iff x z, contains-remove_one x z ys)

apart :
    (x z : String) (xs : List String)
    → contains x xs ≡ false
    → contains z xs ≡ true
    → (x == z) ≡ false
apart x z xs h k = elim (Bool-cases (x == z)) [ inl e ↦ ground (arith, eq_iff x z) | inr e ↦ e ]

-- A list without repetition is no longer than a list that contains it.
pub length-Within : (xs ys : List String) → Distinct xs → Within xs ys → length xs ≤ length ys
length-Within [] ys d w = omega arith
length-Within (x ∷ xs) ys (new, d) w =
    let inside : contains x ys ≡ true = w x (ground (arith, eq_refl x)) in
    let rest =
      length-Within xs (remove_one x ys) d
        (λ z h. contains-remove_one x z ys (apart x z xs new h) (w z (ground (arith, h)))) in
    omega (arith, rest, length-remove_one x ys inside)

-- If it is as long, it contains that list.
pub Within-full :
    (xs ys : List String) → Distinct xs → Within xs ys → length ys ≤ length xs → Within ys xs
Within-full xs ys d w h y k = elim (Bool-cases (contains y xs)) [
  | inl e ↦ e
  | inr out ↦
      let smaller =
        length-Within xs (remove_one y ys) d
          (λ z i. contains-remove_one y z ys (apart y z xs out i) (w z i)) in
      absurd (omega (arith, smaller, length-remove_one y ys k))
]

pub Distinct-intersection : (xs ys : List String) → Distinct xs → Distinct (intersection xs ys)
Distinct-intersection [] ys d = tt
Distinct-intersection (x ∷ xs) ys (new, d) = elim (Bool-cases (contains x ys)) [
  | inl e ↦ rw e (ground (arith, contains-intersection x xs ys), Distinct-intersection xs ys d)
  | inr e ↦ rw e (Distinct-intersection xs ys d)
]

pub length-intersection :
    (xs ys : List String) → Distinct xs → length (intersection xs ys) ≤ length ys
length-intersection xs ys d =
    length-Within (intersection xs ys) ys (Distinct-intersection xs ys d)
      λ z h. ground (arith, contains-intersection z xs ys)

-- As many common elements as the second list has elements: the first contains it.
pub intersection-full :
    (xs ys : List String) → Distinct xs → length (intersection xs ys) ≡ length ys → Within ys xs
intersection-full xs ys d h z k =
    let full =
      Within-full (intersection xs ys) ys (Distinct-intersection xs ys d)
        (λ v i. ground (arith, contains-intersection v xs ys)) (omega (arith, h)) z k in
    ground (arith, contains-intersection z xs ys)

pub Distinct-append :
    (xs ys : List String)
    → Distinct xs
    → Distinct ys
    → ((z : String) → contains z ys ≡ true → contains z xs ≡ false)
    → Distinct (xs ++ ys)
Distinct-append [] ys d e f = e
Distinct-append (x ∷ xs) ys (new, d) e f = (
  elim (Bool-cases (contains x ys)) [
    | inl h ↦ ground (arith, f x h, eq_refl x)
    | inr h ↦ ground (arith, contains-append x xs ys)
  ],
  Distinct-append xs ys d e (λ z h. ground (arith, f z h)),
)

pub Distinct-left : (xs ys : List String) → Distinct (xs ++ ys) → Distinct xs
Distinct-left [] ys d = tt
Distinct-left (x ∷ xs) ys (new, d) =
    (ground (arith, contains-append x xs ys), Distinct-left xs ys d)

pub subset-Within : (xs ys : List String) → subset xs ys ≡ true → Within xs ys
subset-Within [] ys h z k = cc
subset-Within (x ∷ xs) ys h z k = ground (arith, eq_iff x z, subset-Within xs ys (ground arith) z)
