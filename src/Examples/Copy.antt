-- ===== src/Examples/Copy.antt =====
-- `myCopy` of examples/capacityseeker/main.go, on readers, writers and the channel of package io
-- and Go, which are parameters on a state of type `W`. A byte is a number. The numbers of bytes that
-- a reader and a writer return are not negative; the total is an `int64`.
pub mod Contracts
pub mod Rounds
pub mod Delivered
pub mod Transfer
use panapi.Prelude.{
  ℕ, zero, suc, ◌+◌, String, str_append, Option, none, some, List, length, Bool, true, false, ◌==◌,
  ◌&&◌, is_nil, if◌then◌else◌,
}
use panapi.Golang.{Error, Err}
use panapi.Golang.Int64.{ℤ, pos, add}
use panapi.Rpc.ConnectionTracer.{error_text}

-- what an `io.Reader` returns as its error when it is not nil; `eof` is `io.EOF`
pub data ReadError : Type 0 where
  eof : ReadError
  other : Error → ReadError

pub record Streams (W : Type 0) : Type 0 where
  -- `r.Read` of a buffer of a length: the bytes that it puts into the buffer
  pub read : ℕ → W → (List ℕ × Option ReadError) × W
  pub write : List ℕ → W → (ℕ × Err) × W
  -- `c <- nr`
  pub send : ℕ → W → W

abbrev pub buffer_size : ℕ
buffer_size = 32768

-- the tests at the end of a round: `none` if the loop goes on, and otherwise the error it returns
unfoldable pub verdict : ℕ → ℕ → Option ReadError → Err → Option Err
verdict nr nw err none =
    if nw == nr
    then elim err [
      | none ↦ none
      | some eof ↦ some none
      | some (other e) ↦ some (some (Error.new (str_append "Read err: " (error_text e))))
    ]
    else some (some (Error.new "short write"))
verdict nr nw (some eof) (some erw) = some none
verdict nr nw _ (some erw) = some (some (Error.new (str_append "Write error: " (error_text erw))))

-- the loop, on fuel
unfoldable pub copy_rounds : {W : Type 0} → Streams W → ℕ → ℤ → W → Option ((ℤ × Err) × W)
unfolding verdict
copy_rounds s zero total w = none
copy_rounds s (suc fuel) total w =
    let ((buf, err), w1) = s.read buffer_size w in
    let ((nw, erw), w2) = s.write buf w1 in
    let sum = add total (pos nw) in
    let w3 = s.send (length buf) w2 in
    let rest = copy_rounds s fuel sum w3 in
    elim (verdict (length buf) nw err erw) [ none ↦ rest | some e ↦ some ((sum, e), w3) ]

unfoldable pub my_copy : {W : Type 0} → Streams W → ℕ → W → Option ((ℤ × Err) × W)
unfolding copy_rounds
my_copy s fuel w = copy_rounds s fuel (pos 0) w
