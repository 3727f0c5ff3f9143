-- ===== src/Examples/Copy/Contracts.antt =====
-- What package io documents of the readers and writers that `myCopy` is given, and what there is to
-- be said of some of them only.
use panapi.Prelude.{
  ℕ, zero, suc, ◌+◌, ◌≤◌, none, some, List, [], ◌∷◌, ◌++◌, length, ◌≡◌, refl, ap, arith,
}
use panapi.Golang.{Error}
use panapi.Examples.Copy.{ReadError, Streams, buffer_size}

abbrev pub take : ℕ → List ℕ → List ℕ
take zero xs = []
take (suc n) [] = []
take (suc n) (x ∷ xs) = x ∷ take n xs

abbrev pub drop : ℕ → List ℕ → List ℕ
drop zero xs = xs
drop (suc n) [] = []
drop (suc n) (x ∷ xs) = drop n xs

-- what there is to see of a state
pub record View (W : Type 0) : Type 0 where
  -- the bytes that the reader is still to give, and those that the writer was given
  pub pending : W → List ℕ
  pub delivered : W → List ℕ
  -- the sum of the numbers that went through the channel
  pub reported : W → ℕ

pub record IsDocumented {W : Type 0} (s : Streams W) (v : View W) : Type 0 where
  pub read_takes :
      (w : W) → v.pending w ≡ (s.read buffer_size w).0.0 ++ v.pending (s.read buffer_size w).1
  pub read_delivers : (w : W) → v.delivered (s.read buffer_size w).1 ≡ v.delivered w
  pub read_reports : (w : W) → v.reported (s.read buffer_size w).1 ≡ v.reported w
  pub eof_at_end :
      (w : W)
      → (s.read buffer_size w).0.1 ≡ some ReadError.eof
      → v.pending (s.read buffer_size w).1 ≡ []
  pub write_bounded : (bs : List ℕ) (w : W) → (s.write bs w).0.0 ≤ length bs
  -- a writer that takes less than it is given returns an error
  pub write_full :
      (bs : List ℕ) (w : W) → (s.write bs w).0.1 ≡ none → (s.write bs w).0.0 ≡ length bs
  pub write_delivers :
      (bs : List ℕ) (w : W)
      → v.delivered (s.write bs w).1 ≡ v.delivered w ++ take (s.write bs w).0.0 bs
  pub write_takes : (bs : List ℕ) (w : W) → v.pending (s.write bs w).1 ≡ v.pending w
  pub write_reports : (bs : List ℕ) (w : W) → v.reported (s.write bs w).1 ≡ v.reported w
  pub send_reports : (n : ℕ) (w : W) → v.reported (s.send n w) ≡ v.reported w + n
  pub send_delivers : (n : ℕ) (w : W) → v.delivered (s.send n w) ≡ v.delivered w
  pub send_takes : (n : ℕ) (w : W) → v.pending (s.send n w) ≡ v.pending w

-- The reader never gives nothing without an error. Package io discourages that and does not exclude
-- it.
abbrev pub MakesProgress : {W : Type 0} → Streams W → Type 0
MakesProgress {W} s =
    (w : W) → (s.read buffer_size w).0.1 ≡ none → 1 ≤ length (s.read buffer_size w).0.0

-- A state is what a last round leaves in which the reader reported `io.EOF` and the writer failed on
-- what was read with it.
abbrev pub LastWriteFailed : {W : Type 0} → Streams W → W → Type 0
LastWriteFailed {W} s final =
    (w : W) × ((s.read buffer_size w).0.1 ≡ some ReadError.eof)
    × ((e : Error) × ((s.write (s.read buffer_size w).0.0 (s.read buffer_size w).1).0.1 ≡ some e))
    × (final
        ≡ s.send (length (s.read buffer_size w).0.0)
            (s.write (s.read buffer_size w).0.0 (s.read buffer_size w).1).1)

pub take-drop : (n : ℕ) (xs : List ℕ) → take n xs ++ drop n xs ≡ xs
take-drop zero xs = refl
take-drop (suc n) [] = refl
take-drop (suc n) (x ∷ xs) = ap (λ ys. x ∷ ys) (take-drop n xs)

pub length-take : (n : ℕ) (xs : List ℕ) → n ≤ length xs → length (take n xs) ≡ n
length-take zero xs h = refl
length-take (suc n) [] h = omega arith
length-take (suc n) (x ∷ xs) h = ap suc (length-take n xs (omega arith))

pub take-length : (xs : List ℕ) → take (length xs) xs ≡ xs
take-length [] = refl
take-length (x ∷ xs) = ap (λ ys. x ∷ ys) (take-length xs)

pub drop-length : (xs : List ℕ) → drop (length xs) xs ≡ []
drop-length [] = refl
drop-length (x ∷ xs) = drop-length xs
