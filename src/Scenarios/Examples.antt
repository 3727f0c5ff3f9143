-- ===== src/Scenarios/Examples.antt =====
-- Runs of the example programs.
use panapi.Prelude.{
  ℕ, ◌+◌, ◌≤◌, Option, none, some, List, [], ◌∷◌, ◌++◌, length, ◌≡◌, refl, sym, ap, arith,
}
use panapi.Golang.Int64.{pos, add}
use panapi.Examples.Copy.{ReadError, eof, Streams, buffer_size, my_copy}
use panapi.Examples.Copy.Contracts.{
  View, IsDocumented, MakesProgress, LastWriteFailed, take, drop, take-drop, take-length,
}
use panapi.Examples.Copy.Rounds.{Copied}
use panapi.Examples.Copy.Delivered.{my_copy-Copied}
use panapi.Examples.Copy.Transfer.{transfer_counts}
use panapi.Examples.Report.{bytes, tick, report, begin, IsAccount, report-IsAccount}

-- a reader over the bytes that are left, a writer that takes all, and the sum in the channel
record Pipe : Type 0 where
  left : List ℕ
  taken : List ℕ
  sum : ℕ

abbrev next : ℕ → List ℕ → List ℕ × Option ReadError
next n [] = ([], some eof)
next n (b ∷ bs) = (take n (b ∷ bs), none)

abbrev pipe : Streams Pipe
pipe = record {
  read = λ n w. (next n w.left, record w { left = drop n w.left });
  write = λ bs w. ((length bs, none), record w { taken = w.taken ++ bs });
  send = λ n w. record w { sum = w.sum + n };
}

abbrev pipe_view : View Pipe
pipe_view = record { pending = λ w. w.left; delivered = λ w. w.taken; reported = λ w. w.sum }

next_takes : (bs : List ℕ) → bs ≡ (next buffer_size bs).0 ++ drop buffer_size bs
next_takes [] = refl
next_takes (b ∷ bs) = sym (take-drop buffer_size (b ∷ bs))

next_progress : (bs : List ℕ) → (next buffer_size bs).1 ≡ none → 1 ≤ length (next buffer_size bs).0
next_progress [] h = cc
next_progress (b ∷ bs) h = omega arith

pipe-MakesProgress : MakesProgress pipe
pipe-MakesProgress w = next_progress w.left

never_failed : (w : Pipe) → ¬ LastWriteFailed pipe w
never_failed w (before, at_end, (e, failed), after) = cc failed

next_ends : (bs : List ℕ) → (next buffer_size bs).1 ≡ some eof → drop buffer_size bs ≡ []
next_ends [] h = refl
next_ends (b ∷ bs) h = cc

pipe-IsDocumented : IsDocumented pipe pipe_view
pipe-IsDocumented = record {
  read_takes = λ w. next_takes w.left;
  read_delivers = λ w. refl;
  read_reports = λ w. refl;
  eof_at_end = λ w. next_ends w.left;
  write_full = λ bs w h. refl;
  write_bounded = λ bs w. omega arith;
  write_delivers = λ bs w. ap (λ bs. w.taken ++ bs) (sym (take-length bs));
  write_takes = λ bs w. refl;
  write_reports = λ bs w. refl;
  send_reports = λ n w. refl;
  send_delivers = λ n w. refl;
  send_takes = λ n w. refl;
}

abbrev three : Pipe
three = record { left = 7 ∷ 8 ∷ 9 ∷ []; taken = 6 ∷ []; sum = 1 }

my_copy-Copied_example : Copied pipe pipe_view (pos 0) three (my_copy pipe 4 three)
my_copy-Copied_example =
    my_copy-Copied pipe pipe_view pipe-IsDocumented pipe-MakesProgress 4 three (omega arith)

abbrev source : Pipe
source = record { left = 7 ∷ 8 ∷ 9 ∷ []; taken = []; sum = 0 }

abbrev sent : Pipe
sent = record { left = []; taken = 7 ∷ 8 ∷ 9 ∷ []; sum = 3 }

abbrev arriving : Pipe
arriving = record { left = 7 ∷ 8 ∷ 9 ∷ []; taken = []; sum = 5 }

abbrev arrived : Pipe
arrived = record { left = []; taken = 7 ∷ 8 ∷ 9 ∷ []; sum = 8 }

transfer_counts_example :
    (pos 3 ≡ pos (length source.left))
    × (pos 3 ≡ pos 3)
    × (sent.sum ≡ source.sum + 3)
    × (arrived.sum ≡ arriving.sum + 3)
    × (arrived.taken ≡ arriving.taken ++ source.left)
unfolding my_copy add
transfer_counts_example =
    transfer_counts pipe pipe_view pipe-IsDocumented pipe pipe_view pipe-IsDocumented
      pipe-MakesProgress pipe-MakesProgress 4 4 (pos 3) (pos 3) source sent arriving arrived
      (omega arith) (omega arith) refl (never_failed sent) refl refl (omega arith) refl
      (never_failed arrived)

report-IsAccount_example : IsAccount 30 (report (bytes 10 ∷ tick ∷ bytes 20 ∷ []) begin)
report-IsAccount_example = report-IsAccount (bytes 10 ∷ tick ∷ bytes 20 ∷ []) (omega arith)
