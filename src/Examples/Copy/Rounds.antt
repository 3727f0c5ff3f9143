-- ===== src/Examples/Copy/Rounds.antt =====
-- The rounds of `myCopy`: what each leaves, and what they come to.
use mathlib.Core.List.{append_assoc}
use panapi.Prelude.{
  ℕ, zero, suc, ◌+◌, ◌<◌, Option, none, some, List, [], ◌++◌, length, length_append, ◌≡◌, refl, sym,
  ap, ◌∙◌, arith, Option-cases, ◌⊎◌, inl, inr,
}
use panapi.Golang.{Err}
use panapi.Golang.Int64.{ℤ, pos, add, add-add}
use panapi.Examples.Copy.{ReadError, eof, other, Streams, buffer_size, verdict, copy_rounds}
use panapi.Examples.Copy.Contracts.{
  View, IsDocumented, MakesProgress, LastWriteFailed, take, drop, take-drop, length-take,
  take-length, drop-length,
}

-- the loop goes on only after a round without errors that wrote all that it read
goes_on :
    (nr nw : ℕ) (err : Option ReadError) (erw : Err)
    → verdict nr nw err erw ≡ none
    → (err ≡ none) × (nw ≡ nr)
unfolding verdict
goes_on nr nw none none h = ground arith
goes_on nr nw (some eof) none h = ground arith
goes_on nr nw (some (other e)) none h = ground arith
goes_on nr nw none (some e) h = cc
goes_on nr nw (some eof) (some e) h = cc
goes_on nr nw (some (other e')) (some e) h = cc

-- it ends without an error only at the end of what there is to read
ends_well :
    (nr nw : ℕ) (err : Option ReadError) (erw : Err)
    → verdict nr nw err erw ≡ some none
    → err ≡ some ReadError.eof
unfolding verdict
ends_well nr nw none none h = ground arith
ends_well nr nw (some eof) none h = refl
ends_well nr nw (some (other e)) none h = ground arith
ends_well nr nw none (some e) h = cc
ends_well nr nw (some eof) (some e) h = refl
ends_well nr nw (some (other e')) (some e) h = cc

all_dropped : (n : ℕ) (xs ys : List ℕ) → n ≡ length xs → ys ≡ [] → drop n xs ++ ys ≡ []
all_dropped n xs ys h h' = rw (h, h', drop-length xs) refl

sums :
    (total : ℤ) (n : ℕ) (xs ys : List ℕ)
    → n ≡ length xs
    → add (add total (pos n)) (pos (length ys)) ≡ add total (pos (length (xs ++ ys)))
sums total n xs ys h = rw (length_append xs ys, sym h) (add-add total n (length ys))

-- What there is to say of a run of the loop from a total and a state: it ends; the writer was given
-- a first part of what the reader had, and the number of its bytes is added to the total; if there
-- was no error, it was given everything, and the same number went through the channel, or the last
-- write failed.
pub record Copied {W : Type 0} (s : Streams W) (v : View W) (total : ℤ) (w : W)
    (run : Option ((ℤ × Err) × W)) : Type 0 where
  pub count : ℤ
  pub error : Err
  pub final : W
  pub sent : List ℕ
  pub rest : List ℕ
  pub returned : run ≡ some ((count, error), final)
  pub delivered : v.delivered final ≡ v.delivered w ++ sent
  pub taken : v.pending w ≡ sent ++ rest
  pub counted : count ≡ add total (pos (length sent))
  pub complete :
      error ≡ none
      → LastWriteFailed s final ⊎ ((rest ≡ []) × (v.reported final ≡ v.reported w + length sent))

module _ {W : Type 0} (s : Streams W) (v : View W) (doc : IsDocumented s v) where
  -- a round: what is read and written, and the state after it
  abbrev buf : W → List ℕ
  buf w = (s.read buffer_size w).0.0

  abbrev err : W → Option ReadError
  err w = (s.read buffer_size w).0.1

  abbrev nw : W → ℕ
  nw w = (s.write (buf w) (s.read buffer_size w).1).0.0

  abbrev erw : W → Err
  erw w = (s.write (buf w) (s.read buffer_size w).1).0.1

  abbrev after : W → W
  after w = s.send (length (buf w)) (s.write (buf w) (s.read buffer_size w).1).1

  after_pending : (w : W) → v.pending w ≡ buf w ++ v.pending (after w)
  after_pending w =
      doc.read_takes w ∙ ap (λ ps. buf w ++ ps) (sym (doc.send_takes _ _ ∙ doc.write_takes _ _))

  after_delivered : (w : W) → v.delivered (after w) ≡ v.delivered w ++ take (nw w) (buf w)
  after_delivered w =
      doc.send_delivers _ _
      ∙ doc.write_delivers _ _
      ∙ ap (λ ds. ds ++ take (nw w) (buf w)) (doc.read_delivers w)

  after_reported : (w : W) → v.reported (after w) ≡ v.reported w + length (buf w)
  after_reported w =
      doc.send_reports _ _
      ∙ ap (λ n. n + length (buf w)) (doc.write_reports _ _ ∙ doc.read_reports w)

  -- at the end of what there is to read, everything was read
  at_end :
      (w : W)
      → err w ≡ some eof
      → LastWriteFailed s (after w)
        ⊎ ((drop (nw w) (buf w) ++ v.pending (after w) ≡ [])
            × (v.reported (after w) ≡ v.reported w + length (take (nw w) (buf w))))
  at_end w h = elim (Option-cases (erw w)) [
    | inr (e, failed) ↦ inl (w, h, (e, failed), refl)
    | inl well ↦
        let none_left = doc.send_takes _ _ ∙ doc.write_takes _ _ ∙ doc.eof_at_end w h in
        let full = doc.write_full _ _ well in
        let taken = length-take (nw w) (buf w) (doc.write_bounded _ _) ∙ full in
        inr (
          all_dropped (nw w) (buf w) _ full none_left,
          after_reported w ∙ ap (λ n. v.reported w + n) (sym taken),
        )
  ]

  all_written :
      (w : W) → verdict (length (buf w)) (nw w) (err w) (erw w) ≡ none → take (nw w) (buf w) ≡ buf w
  all_written w h = rw ((goes_on _ _ _ _ h).1) (take-length (buf w))

  shorter :
      (moves : MakesProgress s) (fuel : ℕ) (w : W)
      → length (v.pending w) < suc fuel
      → verdict (length (buf w)) (nw w) (err w) (erw w) ≡ none
      → length (v.pending (after w)) < fuel
  shorter moves fuel w h on =
      let split = ap length (after_pending w) ∙ length_append (buf w) (v.pending (after w)) in
      let progress = moves w (goes_on _ _ _ _ on).0 in omega arith

  stops :
      (fuel : ℕ) (total : ℤ) (w : W) (e : Err)
      → verdict (length (buf w)) (nw w) (err w) (erw w) ≡ some e
      → Copied s v total w (copy_rounds s (suc fuel) total w)
  unfolding copy_rounds
  stops fuel total w e h = record {
    count = add total (pos (nw w));
    error = e;
    final = after w;
    sent = take (nw w) (buf w);
    rest = drop (nw w) (buf w) ++ v.pending (after w);
    returned = rw (copy_rounds, h) refl;
    delivered = after_delivered w;
    taken =
        after_pending w
        ∙ ap (λ bs. bs ++ v.pending (after w)) (sym (take-drop (nw w) (buf w)))
        ∙ append_assoc (take (nw w) (buf w)) (drop (nw w) (buf w)) (v.pending (after w));
    counted = rw (length-take (nw w) (buf w) (doc.write_bounded _ _)) refl;
    complete = λ ok. at_end w (ends_well (length (buf w)) (nw w) (err w) (erw w) (h ∙ ap some ok));
  }

  continues :
      (fuel : ℕ) (total : ℤ) (w : W)
      → verdict (length (buf w)) (nw w) (err w) (erw w) ≡ none
      → Copied s v
          (add total (pos (nw w)))
          (after w)
          (copy_rounds s fuel (add total (pos (nw w))) (after w))
      → Copied s v total w (copy_rounds s (suc fuel) total w)
  unfolding copy_rounds
  continues fuel total w h c = record {
    count = c.count;
    error = c.error;
    final = c.final;
    sent = buf w ++ c.sent;
    rest = c.rest;
    returned = rw (copy_rounds, h) c.returned;
    delivered =
        c.delivered
        ∙ ap (λ ds. ds ++ c.sent) (after_delivered w)
        ∙ append_assoc (v.delivered w) (take (nw w) (buf w)) c.sent
        ∙ ap (λ bs. v.delivered w ++ (bs ++ c.sent)) (all_written w h);
    taken =
        after_pending w ∙ ap (λ ps. buf w ++ ps) c.taken ∙ sym (append_assoc (buf w) c.sent c.rest);
    counted = c.counted ∙ sums total (nw w) (buf w) c.sent (goes_on _ _ _ _ h).1;
    complete = λ ok. elim (c.complete ok) [
      | inl lost ↦ inl lost
      | inr (all, told) ↦
          inr (all, ground (arith, told, after_reported w, length_append (buf w) c.sent))
    ];
  }

  pub copied :
      (moves : MakesProgress s) (fuel : ℕ) (total : ℤ) (w : W)
      → length (v.pending w) < fuel
      → Copied s v total w (copy_rounds s fuel total w)
  copied moves zero total w h = absurd (omega arith)
  copied moves (suc fuel) total w h =
      elim (Option-cases (verdict (length (buf w)) (nw w) (err w) (erw w))) [
        | inl on ↦
            continues fuel total w on (copied moves fuel _ (after w) (shorter moves fuel w h on))
        | inr (e, off) ↦ stops fuel total w e off
      ]
