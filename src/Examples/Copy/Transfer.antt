-- ===== src/Examples/Copy/Transfer.antt =====
-- A transfer of capacityseeker: the client's copying from its source to the connection, and the
-- server's from the connection to the discard.
use mathlib.Core.List.{append-nil}
use panapi.Prelude.{
  ℕ, ◌+◌, ◌<◌, Option, none, some, List, [], ◌++◌, length, ◌≡◌, sym, ap, ◌∙◌, arith, subst, ◌⊎◌,
  inl, inr,
}
use panapi.Golang.{Err}
use panapi.Golang.Int64.{ℤ, pos, add, add-pos, int64_limit}
use panapi.Examples.Copy.{Streams, my_copy}
use panapi.Examples.Copy.Contracts.{View, IsDocumented, MakesProgress, LastWriteFailed}
use panapi.Examples.Copy.Delivered.{my_copy-Copied}

same_count :
    {W : Type 0} (n m : ℤ) (e e' : Err) (w w' : W)
    → ◌≡◌ {A = Option ((ℤ × Err) × W)} (some ((n, e), w)) (some ((m, e'), w'))
    → (n ≡ m) × (e ≡ e') × (w ≡ w')
same_count n m e e' w w' h = (cc, cc, cc)

all_counted :
    (n m : ℤ) (xs ys rest : List ℕ)
    → n ≡ add (pos 0) (pos (length xs))
    → n ≡ m
    → ys ≡ xs ++ rest
    → rest ≡ []
    → length ys < int64_limit
    → (m ≡ pos (length ys)) × (xs ≡ ys)
all_counted n m xs ys rest count same split empty small =
    let whole = sym (append-nil xs) ∙ ap (λ zs. xs ++ zs) (sym empty) ∙ sym split in
    let size = ap length whole in
    let counted = add-pos 0 (length xs) (omega arith) in
    (sym same ∙ count ∙ counted ∙ ap pos {x = 0 + length xs} (omega arith), whole)

everything : {A B C : Type 0} → (A → C) → ¬ C → A ⊎ B → B
everything f h (inl a) = absurd (h (f a))
everything f h (inr b) = b

-- a run without an error gave everything
finished :
    {W : Type 0} (s : Streams W) (v : View W) (doc : IsDocumented s v) (moves : MakesProgress s)
    (fuel : ℕ) (n : ℤ) (w w1 : W)
    → length (v.pending w) < fuel
    → length (v.pending w) < int64_limit
    → my_copy s fuel w ≡ some ((n, none), w1)
    → ¬ LastWriteFailed s w1
    → (n ≡ pos (length (v.pending w)))
      × (v.delivered w1 ≡ v.delivered w ++ v.pending w)
      × (v.reported w1 ≡ v.reported w + length (v.pending w))
finished s v doc moves fuel n w w1 enough small runs written =
    let c = my_copy-Copied s v doc moves fuel w enough in
    let (counts, ended, final) =
      same_count c.count n c.error none c.final w1 (sym c.returned ∙ runs) in
    let (none_left, told) =
      everything (subst (LastWriteFailed s) final) written (c.complete ended) in
    let (size, whole) =
      all_counted c.count n c.sent (v.pending w) c.rest c.counted counts c.taken none_left small in
    (
      size,
      ap v.delivered (sym final) ∙ c.delivered ∙ ap (λ bs. v.delivered w ++ bs) whole,
      ap v.reported (sym final) ∙ told ∙ ap (λ k. v.reported w + k) (ap length whole),
    )

module _ {W W' : Type 0} (s : Streams W) (v : View W) (doc : IsDocumented s v) (s' : Streams W')
    (v' : View W') (doc' : IsDocumented s' v') where
  -- With readers that never give nothing without an error: if the client, whose source has fewer than
  -- 2 ^ 63 bytes, and the server both return without an error, neither by a last write that failed, and
  -- what the server reads is what the client has written to a new connection, then both return the
  -- number of bytes of the client's source, and both reports were told of that many bytes.
  pub transfer_counts :
      (moves : MakesProgress s) (moves' : MakesProgress s') (fuel fuel' : ℕ) (n n' : ℤ) (w w1 : W)
      (w' w1' : W')
      → length (v.pending w) < fuel
      → length (v.pending w) < int64_limit
      → my_copy s fuel w ≡ some ((n, none), w1)
      → ¬ LastWriteFailed s w1
      → v.delivered w ≡ []
      → v'.pending w' ≡ v.delivered w1
      → length (v'.pending w') < fuel'
      → my_copy s' fuel' w' ≡ some ((n', none), w1')
      → ¬ LastWriteFailed s' w1'
      → (n ≡ pos (length (v.pending w)))
        × (n' ≡ n)
        × (v.reported w1 ≡ v.reported w + length (v.pending w))
        × (v'.reported w1' ≡ v'.reported w' + length (v.pending w))
        × (v'.delivered w1' ≡ v'.delivered w' ++ v.pending w)
  transfer_counts moves moves' fuel fuel' n n' w w1 w' w1' enough small sends sent new reads enough'
        receives received =
      let (count, given, told) = finished s v doc moves fuel n w w1 enough small sends sent in
      let arrived = reads ∙ given ∙ ap (λ bs. bs ++ v.pending w) new in
      let (count', given', told') =
        finished s' v' doc' moves' fuel' n' w' w1' enough'
          (subst (λ bs. length bs < int64_limit) (sym arrived) small) receives received in
      (
        count,
        count' ∙ ap (λ bs. pos (length bs)) arrived ∙ sym count,
        told,
        told' ∙ ap (λ bs. v'.reported w' + length bs) arrived,
        given' ∙ ap (λ bs. v'.delivered w' ++ bs) arrived,
      )
