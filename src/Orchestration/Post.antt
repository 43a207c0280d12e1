-- ===== src/Orchestration/Post.antt =====
-- What holds of every result of an action, with one rule for each way to build an action.
use multi_agent_rag_local.Common.{
  String, ◌≡◌, refl, Bool, true, false, Option, none, some, if◌then◌else◌,
}
use multi_agent_rag_local.Orchestration.Timeout.{
  Error, type_error, stage_execution, Result, ok, err,
}
use multi_agent_rag_local.Orchestration.Stage.{
  read_world, World, Run, pure, raise, lift, required, ◌>>=◌,
}

-- `P` of what is returned, `E` of what is raised.
abbrev pub Meets {ℓ} : {A : Type ℓ} → (A → Type 0) → (Error → Type 0) → Result A → Type 0
Meets P E (ok a) = P a
Meets P E (err e) = E e

-- From any world.
pub record Ensures {ℓ} {A : Type ℓ} (P : A → Type 0) (E : Error → Type 0) (m : Run A) : Type ℓ where
  pub at : (w : World) → Meets P E (m w).0

-- Nothing is said of an error, or of a value.
abbrev pub AnyError : Error → Type 0
AnyError e = Unit

abbrev pub Anything {ℓ} : {A : Type ℓ} → A → Type 0
Anything a = Unit

module _ {ℓ} {A : Type ℓ} {P : A → Type 0} {E : Error → Type 0} where
  pub Ensures-pure : (a : A) → P a → Ensures P E (pure a)
  unfolding pure
  Ensures-pure a h = record { at = λ w. h }

  pub Ensures-raise : (e : Error) → E e → Ensures P E (raise {A = A} e)
  unfolding raise
  Ensures-raise e h = record { at = λ w. h }

  pub Ensures-lift : (r : Result A) → Meets P E r → Ensures P E (lift r)
  unfolding lift
  Ensures-lift r h = record { at = λ w. h }

  pub Ensures-required :
      (key : String) (o : Option A)
      → ((a : A) → o ≡ some a → P a)
      → E (stage_execution key (type_error key))
      → Ensures P E (required key o)
  unfolding required
  Ensures-required key none p e = record { at = λ w. e }
  Ensures-required key (some a) p e = record { at = λ w. p a refl }

  pub Ensures-world :
      (f : World → Run A) → ((w : World) → Ensures P E (f w)) → Ensures P E (read_world f)
  unfolding read_world
  Ensures-world f h = record { at = λ w. (h w).at w }

  pub Ensures-if :
      (b : Bool) (m n : Run A)
      → (b ≡ true → Ensures P E m)
      → (b ≡ false → Ensures P E n)
      → Ensures P E (if b then m else n)
  Ensures-if true m n hm hn = hm refl
  Ensures-if false m n hm hn = hn refl

Meets-any {ℓ} : {A : Type ℓ} (r : Result A) → Meets Anything AnyError r
Meets-any (ok a) = tt
Meets-any (err e) = tt

-- Nothing is claimed, and so nothing has to be known.
pub Ensures-any {ℓ} : {A : Type ℓ} (m : Run A) → Ensures Anything AnyError m
Ensures-any m = record { at = λ w. Meets-any (m w).0 }

module _ {ℓ κ} {A : Type ℓ} {B : Type κ} {P : B → Type 0} {E : Error → Type 0} where
  bind_step :
      (Q : A → Type 0) (f : A → Run B) (r : Result A) (w : World)
      → Meets Q E r
      → ((a : A) → Q a → Ensures P E (f a))
      → Meets P E ((lift r >>= f) w).0
  unfolding ◌>>=◌
  bind_step Q f (ok a) w h k = (k a h).at w
  bind_step Q f (err e) w h k = h

  pub Ensures-bind :
      (Q : A → Type 0) (m : Run A) (f : A → Run B)
      → Ensures Q E m
      → ((a : A) → Q a → Ensures P E (f a))
      → Ensures P E (m >>= f)
  unfolding ◌>>=◌
  Ensures-bind Q m f h k = record { at = λ w. bind_step Q f (m w).0 (m w).1 (h.at w) k }

module _ {ℓ κ} {A : Type ℓ} {B : Type κ} {P : B → Type 0} where
  -- Of the first part nothing is used.
  pub Ensures-then :
      (m : Run A) (f : A → Run B)
      → ((a : A) → Ensures P AnyError (f a))
      → Ensures P AnyError (m >>= f)
  Ensures-then m f k = Ensures-bind Anything m f (Ensures-any m) (λ a _. k a)

  -- The first part reads a key of the state.
  pub Ensures-read :
      (key : String) (o : Option A) (f : A → Run B)
      → ((a : A) → o ≡ some a → Ensures P AnyError (f a))
      → Ensures P AnyError (required key o >>= f)
  unfolding ◌>>=◌
  Ensures-read key none f k = record { at = λ w. tt }
  Ensures-read key (some a) f k = k a refl

Meets-both {ℓ} :
    {A : Type ℓ} (P : A → Type 0) (E : Error → Type 0) (r : Result A)
    → Meets P AnyError r
    → Meets Anything E r
    → Meets P E r
Meets-both P E (ok a) h k = h
Meets-both P E (err e) h k = k

-- What is known of values and what is known of errors, put together.
pub Ensures-both {ℓ} :
    {A : Type ℓ} {P : A → Type 0} {E : Error → Type 0} (m : Run A)
    → Ensures P AnyError m
    → Ensures Anything E m
    → Ensures P E m
Ensures-both {P} {E} m h k = record { at = λ w. Meets-both P E (m w).0 (h.at w) (k.at w) }
