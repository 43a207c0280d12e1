-- ===== src/Common/Members.antt =====
-- Membership of a text in a list of texts, as a test: Python's `x in xs` on sets and tuples.
use Prim.Native.Nat.{ℕ, zero, suc, ◌<◌}
use mathlib.Core.Option.{some, some-injective, none-ne-some}
use Prim.Native.String.{String}
use mathlib.Core.Path.{◌≡◌, refl}
use mathlib.Core.Bool.{Bool, true, false, ◌&&◌, ◌||◌, not}
use mathlib.Core.List.{List, [], ◌∷◌, ◌++◌, map}
use native.Mathlib.Omega.{arith}
use text.Mathlib.Text.{◌==◌}
use text.Mathlib.TextEquality.{eq_iff}
use mathlib.Core.Logic.{inl, inr}
use multi_agent_rag_local.Common.Tests.{Bool-cases}
use multi_agent_rag_local.Common.Lists.{get_elem?, filter, length, length-filter}

abbrev pub contains : String → List String → Bool
contains x [] = false
contains x (y ∷ ys) = y == x || contains x ys

-- Every element of the first list is in the second.
abbrev pub subset : List String → List String → Bool
subset [] ys = true
subset (x ∷ xs) ys = contains x ys && subset xs ys

-- `a.intersection(b)`, and whether it is nonempty.
abbrev pub intersection : List String → List String → List String
intersection xs ys = filter (λ x. contains x ys) xs

abbrev pub meets : List String → List String → Bool
meets [] ys = false
meets (x ∷ xs) ys = contains x ys || meets xs ys

-- `a.difference(b)`
abbrev pub difference : List String → List String → List String
difference xs ys = filter (λ x. not (contains x ys)) xs

pub contains-append :
    (x : String) (xs ys : List String) → contains x (xs ++ ys) ≡ (contains x xs || contains x ys)
contains-append x [] ys = refl
contains-append x (y ∷ xs) ys = ground (arith, contains-append x xs ys)

-- A predicate of every element.
abbrev pub All {ℓ κ} : {A : Type ℓ} → (A → Type κ) → List A → Type κ
All P [] = Unit
All P (x ∷ xs) = P x × All P xs

pub All-append {ℓ κ} :
    {A : Type ℓ} (P : A → Type κ) (xs ys : List A) → All P xs → All P ys → All P (xs ++ ys)
All-append P [] ys h k = k
All-append P (x ∷ xs) ys h k = (h.0, All-append P xs ys h.1 k)

pub All-mono {ℓ κ μ} :
    {A : Type ℓ} (P : A → Type κ) (Q : A → Type μ) (xs : List A)
    → ((x : A) → P x → Q x)
    → All P xs
    → All Q xs
All-mono P Q [] f h = tt
All-mono P Q (x ∷ xs) f h = (f x h.0, All-mono P Q xs f h.1)

pub All-filter {ℓ κ} :
    {A : Type ℓ} (P : A → Type κ) (p : A → Bool) (xs : List A) → All P xs → All P (filter p xs)
All-filter P p [] h = tt
All-filter P p (x ∷ xs) h = elim (Bool-cases (p x)) [
  | inl e ↦ rw e (h.0, All-filter P p xs h.1)
  | inr e ↦ rw e (All-filter P p xs h.1)
]

-- An element of a list, at a place.
pub data In {ℓ} {A : Type ℓ} (a : A) : List A → Type ℓ where
  here : {xs : List A} → In a (a ∷ xs)
  there : {x : A} {xs : List A} → In a xs → In a (x ∷ xs)

In-filter_head {ℓ} :
    {A : Type ℓ} {a : A} (p : A → Bool) (x : A) (xs : List A)
    → p x ≡ true
    → (In a (filter p xs) → In a xs × (p a ≡ true))
    → In a (x ∷ filter p xs)
    → In a (x ∷ xs) × (p a ≡ true)
In-filter_head p x xs e f here = (here, e)
In-filter_head p x xs e f (there h) = let (i, q) = f h in (there i, q)

pub In-filter {ℓ} :
    {A : Type ℓ} {a : A} (p : A → Bool) (xs : List A) → In a (filter p xs) → In a xs × (p a ≡ true)
In-filter p [] h = elim h [ ]
In-filter p (x ∷ xs) h = elim (Bool-cases (p x)) [
  | inl e ↦ In-filter_head p x xs e (In-filter p xs) (rw e at h)
  | inr e ↦ let (i, q) = In-filter p xs (rw e at h) in (there i, q)
]

pub In-eq {ℓ} : {A : Type ℓ} {x y : A} {ys : List A} → y ≡ x → In x (y ∷ ys)
In-eq e = rw e here

pub contains-In : (x : String) (xs : List String) → contains x xs ≡ true → In x xs
contains-In x [] h = cc
contains-In x (y ∷ ys) h = elim (Bool-cases (y == x)) [
  | inl e ↦ In-eq ((eq_iff y x).0 e)
  | inr e ↦ there (contains-In x ys (rw e at h))
]

pub In-map {ℓ κ} :
    {A : Type ℓ} {B : Type κ} {b : B} (f : A → B) (xs : List A)
    → In b (map f xs)
    → (a : A) × In a xs × (f a ≡ b)
In-map f [] h = elim h [ ]
In-map f (x ∷ xs) here = (x, here, refl)
In-map f (x ∷ xs) (there h) = let (a, i, e) = In-map f xs h in (a, there i, e)

pub difference-empty :
    (x : String) (xs ys : List String)
    → difference xs ys ≡ []
    → contains x xs ≡ true
    → contains x ys ≡ true
difference-empty x [] ys h k = cc
difference-empty x (z ∷ xs) ys h k = ground (arith, eq_iff z x, difference-empty x xs ys)

pub contains-intersection :
    (x : String) (xs ys : List String)
    → contains x (intersection xs ys) ≡ (contains x xs && contains x ys)
contains-intersection x [] ys = refl
contains-intersection x (z ∷ xs) ys = ground (arith, eq_iff z x, contains-intersection x xs ys)

pub In-All {ℓ κ} : {A : Type ℓ} (P : A → Type κ) (xs : List A) (a : A) → All P xs → In a xs → P a
In-All P [] a h i = elim i [ ]
In-All P (x ∷ xs) _ h here = h.0
In-All P (x ∷ xs) a h (there i) = In-All P xs a h.1 i

pub All-In {ℓ κ} :
    {A : Type ℓ} (P : A → Type κ) (xs : List A) → ((a : A) → In a xs → P a) → All P xs
All-In P [] f = tt
All-In P (x ∷ xs) f = (f x here, All-In P xs (λ a i. f a (there i)))

pub In-append_right {ℓ} : {A : Type ℓ} {a : A} (xs ys : List A) → In a ys → In a (xs ++ ys)
In-append_right [] ys i = i
In-append_right (x ∷ xs) ys i = there (In-append_right xs ys i)

pub filter-In {ℓ} :
    {A : Type ℓ} (p : A → Bool) (xs : List A) (a : A) → In a xs → p a ≡ true → In a (filter p xs)
filter-In p [] a i h = elim i [ ]
filter-In p (x ∷ xs) _ here h = rw h here
filter-In p (x ∷ xs) a (there i) h = elim (Bool-cases (p x)) [
  | inl e ↦ rw e (there (filter-In p xs a i h))
  | inr e ↦ rw e (filter-In p xs a i h)
]

pub filter-shorter {ℓ} :
    {A : Type ℓ} (p : A → Bool) (xs : List A) (a : A)
    → In a xs
    → p a ≡ false
    → length (filter p xs) < length xs
filter-shorter p [] a i h = elim i [ ]
filter-shorter p (x ∷ xs) _ here h = rw h (omega (arith, length-filter p xs))
filter-shorter p (x ∷ xs) a (there i) h = ground (arith, filter-shorter p xs a i h)

pub get_elem?-In {ℓ} :
    {A : Type ℓ} (xs : List A) (i : ℕ) (a : A) → get_elem? xs i ≡ some a → In a xs
get_elem?-In [] i a h = absurd (none-ne-some _ h)
get_elem?-In (x ∷ xs) zero a h = In-eq (some-injective x a h)
get_elem?-In (x ∷ xs) (suc i) a h = there (get_elem?-In xs i a h)
