-- ===== src/Golang.antt =====
-- What the models take of Go itself: `error` values, and how a call ends.
pub mod Mutex
pub mod Int64
use panapi.Prelude.{String, Option, none, some, ◌≡◌, refl}

-- An `error` that is not nil: `errors.New(text)`, or one that a package outside the repository made.
pub data Error : Type 0 where
  new : String → Error
  foreign : String → Error

-- A result of type `error`; `none` is nil.
abbrev pub Err : Type 0
Err = Option Error

-- How a call ends: it returns, it panics (a nil dereference), or the process exits (`log.Fatalln`).
pub data Run {ℓ} (A : Type ℓ) : Type ℓ where
  returns : A → Run A
  panics : Run A
  exits : Run A

infixl 5 ◌>>=◌
abbrev pub ◌>>=◌ {ℓ κ} : {A : Type ℓ} {B : Type κ} → Run A → (A → Run B) → Run B
returns a >>= f = f a
panics >>= f = panics
exits >>= f = exits

-- `*p`
abbrev pub deref {ℓ} : {A : Type ℓ} → Option A → Run A
deref none = panics
deref (some a) = returns a

-- Inversion of a bind that returns.
pub >>=-eq-returns {ℓ κ} :
    {A : Type ℓ} {B : Type κ} (m : Run A) (f : A → Run B) {b : B}
    → (m >>= f) ≡ returns b
    → (a : A) × (m ≡ returns a) × (f a ≡ returns b)
>>=-eq-returns (returns a) f h = (a, refl, h)
>>=-eq-returns panics f h = cc
>>=-eq-returns exits f h = cc
