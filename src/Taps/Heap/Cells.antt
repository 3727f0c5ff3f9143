-- ===== src/Taps/Heap/Cells.antt =====
-- Cells of the heap of taps/ behind a pointer.
use panapi.Prelude.{ℕ, ◌<◌, ◌≤◌, Option, none, some, ◌≡◌, refl, arith, update}

abbrev pub read {ℓ} : {A : Type ℓ} → (ℕ → A) → Option ℕ → Option A
read cells none = none
read cells (some a) = some (cells a)

abbrev pub Below : ℕ → Option ℕ → Type 0
Below n none = Unit
Below n (some a) = a < n

abbrev pub From : ℕ → Option ℕ → Type 0
From n none = Unit
From n (some a) = n ≤ a

pub below-later : (a : Option ℕ) {n m : ℕ} → n ≤ m → Below n a → Below m a
below-later none le b = tt
below-later (some a) le b = omega arith

pub update-keeps :
    {B : Type 0} (f : ℕ → B) (n : ℕ) (x : B) (a : Option ℕ)
    → Below n a
    → read (update f n x) a ≡ read f a
update-keeps f n x none b = refl
update-keeps f n x (some a) b = ground arith

pub from-later : (a : Option ℕ) {n m : ℕ} → n ≤ m → From m a → From n a
from-later none le b = tt
from-later (some a) le b = omega arith

pub update-apart :
    {B : Type 0} (f : ℕ → B) {n t : ℕ} (x : B) (a : Option ℕ)
    → t < n
    → From n a
    → read (update f t x) a ≡ read f a
update-apart f x none lt b = refl
update-apart f x (some a) lt b = ground arith

pub update-same : {B : Type 0} (f : ℕ → B) (n : ℕ) (x : B) → update f n x n ≡ x
update-same f n x = ground arith
