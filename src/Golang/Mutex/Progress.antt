-- ===== src/Golang/Mutex/Progress.antt =====
-- No schedule leads to where a goroutine could not finish any more: who holds the mutex can go on, and
-- gives it back, and the others can have their turns then.
use panapi.Prelude.{ℕ, Option, none, some, List, [], ◌∷◌, ◌++◌, ◌≡◌, refl, ◌∙◌, subst, arith}
use panapi.Golang.{returns, >>=-eq-returns}
use panapi.Golang.Mutex.{
  Access, body, Goroutine, waiting, holding, finished, System, with, turn_of, turn, run, begin,
}
use panapi.Golang.Mutex.Order.{
  Consistent, Status, Inv, begin-Inv, run-Inv, lock-Inv, step-Inv, unlock-Inv,
}

module _ {X S : Type 0} where
  -- a goroutine has finished, and the mutex is free
  abbrev pub Settled : ℕ → System X S → Type 0
  Settled i sys = (sys.holder ≡ none) × ((x : X) × (sys.goroutines i ≡ finished x))

module _ {X S : Type 0} (start : X) (bodies : ℕ → List (Access X S)) (s0 : S)
    (total : (k : ℕ) (s : S) → (r : X × S) × (body (bodies k) (start, s) ≡ returns r)) where
  run-append :
      (first second : List ℕ) (sys sys' : System X S)
      → run start first sys ≡ returns sys'
      → run start (first ++ second) sys ≡ run start second sys'
  unfolding run
  run-append [] second sys sys' e = let same : sys ≡ sys' = (cc e) in rw same refl
  run-append (i ∷ first) second sys sys' e =
      let (next, moves, rest) = >>=-eq-returns (turn start i sys) (run start first) e in
      rw moves (run-append first second next sys' rest)

  abbrev Inv0 : System X S → Type 0
  Inv0 = Inv start bodies s0

  one_turn :
      (i : ℕ) (g : Goroutine X S) (rest : List ℕ) (sys sys' : System X S)
      → sys.goroutines i ≡ g
      → turn_of start g i sys ≡ returns sys'
      → run start (i ∷ rest) sys ≡ run start rest sys'
  unfolding run turn
  one_turn i g rest sys sys' at moves = rw (at, moves) refl

  -- the holder takes its remaining steps, and unlocks
  drained :
      (i : ℕ) (steps : List (Access X S)) (x : X) (sys : System X S)
      → sys.goroutines i ≡ holding steps x
      → Inv0 sys
      → (is : List ℕ) × (sys' : System X S) × (run start is sys ≡ returns sys')
        × Settled i sys'
        × Inv0 sys'
  unfolding run
  drained i [] x sys at h =
      let sys' : System X S = record (with i (finished x) sys) { holder = none } in
      (
        i ∷ [],
        sys',
        one_turn i (holding [] x) [] sys sys' at refl,
        (refl, (x, ground arith)),
        unlock-Inv start bodies s0 i x sys at h,
      )
  drained i (step ∷ steps) x sys at h =
      let (r, runs, inv) = step-Inv start bodies s0 i step steps x sys (total i) at h in
      let sys' : System X S = record (with i (holding steps r.0) sys) { shared = r.1 } in
      let (is, last, goes, settled, inv') = drained i steps r.0 sys' (ground arith) inv in
      (
        i ∷ is,
        last,
        one_turn i (holding (step ∷ steps) x) is sys sys' at (rw runs refl) ∙ goes,
        settled,
        inv',
      )

  -- a free mutex can be had
  finishes :
      (i : ℕ) (g : Goroutine X S) (sys : System X S)
      → sys.goroutines i ≡ g
      → sys.holder ≡ none
      → Inv0 sys
      → (is : List ℕ) × (sys' : System X S) × (run start is sys ≡ returns sys') × Settled i sys'
  unfolding run
  finishes i (finished x) sys at free h = ([], sys, refl, (free, (x, at)))
  finishes i (holding steps x) sys at free h =
      let held : sys.holder ≡ some i =
        subst (Status start bodies s0 sys.holder h.log i) at (h.status i) in
      cc (free, held)
  finishes i (waiting steps) sys at free h =
      let sys' : System X S = record (with i (holding steps start) sys) { holder = some i } in
      let (is, last, goes, settled, _) =
        drained i steps start sys' (ground arith)
          (lock-Inv start bodies s0 i steps sys at free h) in
      (i ∷ is, last, one_turn i (waiting steps) is sys sys' at (rw free refl) ∙ goes, settled)

  -- the mutex becomes free
  freed :
      (o : Option ℕ) (sys : System X S)
      → sys.holder ≡ o
      → Inv0 sys
      → (is : List ℕ) × (sys' : System X S) × (run start is sys ≡ returns sys')
        × (sys'.holder ≡ none)
        × Inv0 sys'
  unfolding run
  freed none sys e h = ([], sys, refl, e, h)
  freed (some j) sys e h =
      let (s, x, steps, serial, at, same) =
        subst (λ o. Consistent start bodies s0 o h.log sys) e h.consistent in
      let (is, sys', goes, settled, inv) = drained j steps x sys at h in
      (is, sys', goes, settled.0, inv)

  -- Wherever a schedule has led, any goroutine can still finish.
  pub can_finish :
      (schedule : List ℕ) (i : ℕ)
      → (rest : List ℕ) × (sys : System X S) × (run start (schedule ++ rest) (begin bodies s0)
          ≡ returns sys)
        × Settled i sys
  can_finish schedule i =
      let (sys, runs, h) =
        run-Inv start bodies s0 schedule (begin bodies s0) total (begin-Inv start bodies s0) in
      let (is, sys1, goes, free, h1) = freed sys.holder sys refl h in
      let (js, sys2, ends, settled) = finishes i (sys1.goroutines i) sys1 refl free h1 in
      (
        is ++ js,
        sys2,
        run-append schedule (is ++ js) (begin bodies s0) sys runs
            ∙ run-append is js sys sys1 goes
            ∙ ends,
        settled,
      )
