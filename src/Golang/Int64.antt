-- ===== src/Golang/Int64.antt =====
-- The signed integers of Go with 64 bits, `int64` and, on the machines with 64 bits, `int`: their sums
-- wrap around in two's complement.
use Prim.Native.Nat.{◌%◌}
use panapi.Prelude.{ℕ, ◌+◌, ◌-◌, ◌<◌, ◌≡◌, ap, arith, ltb, if◌then◌else◌}

-- `negsuc n` is -(n + 1)
pub data ℤ : Type 0 where
  pos : ℕ → ℤ
  negsuc : ℕ → ℤ

-- 2 ^ 64
abbrev pub range : ℕ
range = 18446744073709551616

-- 2 ^ 63
abbrev pub int64_limit : ℕ
int64_limit = 9223372036854775808

-- the number that 64 bits stand for
unfoldable pub of_bits : ℕ → ℤ
of_bits n = if ltb (n % range) int64_limit then pos (n % range) else negsuc (range - 1 - n % range)

-- the 64 bits of a number
abbrev pub bits : ℤ → ℕ
bits (pos n) = n % range
bits (negsuc n) = range - 1 - n % range

-- the sum
unfoldable pub add : ℤ → ℤ → ℤ
unfolding of_bits
add a b = of_bits (bits a + bits b)

bits-of_bits : (n : ℕ) → bits (of_bits n) ≡ n % range
unfolding of_bits
bits-of_bits n = ground arith

of_bits-cong : (m n : ℕ) → m % range ≡ n % range → of_bits m ≡ of_bits n
unfolding of_bits
of_bits-cong m n h = ap (λ k. if ltb k int64_limit then pos k else negsuc (range - 1 - k)) h

-- two additions are one
pub add-add : (t : ℤ) (a b : ℕ) → add (add t (pos a)) (pos b) ≡ add t (pos (a + b))
unfolding add
add-add t a b = let inner = bits-of_bits (bits t + a % range) in of_bits-cong _ _ (omega arith)

-- a sum that stays below 2 ^ 63 does not wrap around
pub add-pos : (a b : ℕ) → a + b < int64_limit → add (pos a) (pos b) ≡ pos (a + b)
unfolding add of_bits
add-pos a b h = ground arith
