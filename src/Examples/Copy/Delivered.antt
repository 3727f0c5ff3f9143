-- ===== src/Examples/Copy/Delivered.antt =====
-- What `myCopy` delivers, returns and reports.
use panapi.Prelude.{ℕ, suc, ◌<◌, Option, some, none, length, ◌≡◌, refl}
use panapi.Golang.{Error, Err}
use panapi.Golang.Int64.{pos, add}
use panapi.Examples.Copy.{ReadError, eof, Streams, buffer_size, verdict, copy_rounds, my_copy}
use panapi.Examples.Copy.Contracts.{View, IsDocumented, MakesProgress}
use panapi.Examples.Copy.Rounds.{Copied, copied}

module _ {W : Type 0} (s : Streams W) (v : View W) (doc : IsDocumented s v) where
  -- With a reader and a writer as package io documents them, of which the reader never gives nothing
  -- without an error, `myCopy` returns on more rounds than the reader has bytes. It has then given the
  -- writer a first part of those bytes, in order, and returns their number as an int64; if it returns
  -- no error, it has given the writer all of them and sent the same number through the channel, or the
  -- reader reported the end in the last round and the writer failed in that round.
  pub my_copy-Copied :
      (moves : MakesProgress s) (fuel : ℕ) (w : W)
      → length (v.pending w) < fuel
      → Copied s v (pos 0) w (my_copy s fuel w)
  unfolding my_copy
  my_copy-Copied moves fuel w h = copied s v doc moves fuel (pos 0) w h

hidden :
    (nr nw : ℕ) (err : Option ReadError) (erw : Err) (e : Error)
    → err ≡ some eof
    → erw ≡ some e
    → verdict nr nw err erw ≡ some none
unfolding verdict
hidden nr nw err erw e at_eof failed = rw (at_eof, failed) refl

-- If in one round the reader reports the end and the writer fails, `myCopy` returns no error, and
-- the number of bytes that the writer took, however many it was to take.
pub eof_hides_write_error :
    {W : Type 0} (s : Streams W) (fuel : ℕ) (w : W) (e : Error)
    → (s.read buffer_size w).0.1 ≡ some eof
    → (s.write (s.read buffer_size w).0.0 (s.read buffer_size w).1).0.1 ≡ some e
    → (w' : W) × (my_copy s (suc fuel) w
        ≡ some (
          (
            add (pos 0) (pos (s.write (s.read buffer_size w).0.0 (s.read buffer_size w).1).0.0),
            none,
          ),
          w',
        ))
unfolding my_copy copy_rounds
eof_hides_write_error s fuel w e at_eof failed =
    let buf = (s.read buffer_size w).0.0 in
    let put = s.write buf (s.read buffer_size w).1 in
    let w3 = s.send (length buf) put.1 in
    (w3, rw (my_copy, copy_rounds, hidden (length buf) put.0.0 _ _ e at_eof failed) refl)
