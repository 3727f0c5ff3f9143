-- ===== src/Golang/Mutex/Order.antt =====
-- The invariant of goroutines under a mutex: the order in which they have had it.
use panapi.Prelude.{
  ℕ, Option, none, some, List, [], ◌∷◌, ◌≡◌, ◌≢◌, refl, sym, ◌∙◌, subst, ◌⊎◌, inl, inr, arith,
  update, Option-cases,
}
use native.Mathlib.Decide.{ℕ_discrete}
use panapi.Golang.{returns, >>=-eq-returns}
use panapi.Golang.Mutex.{
  Access, body, Goroutine, waiting, holding, finished, System, with, turn_of, turn, run, begin,
}

module _ {X S : Type 0} (start : X) (bodies : ℕ → List (Access X S)) (s0 : S) where
  -- Goroutines have run one after the other, the last one first in the log, with what it left in
  -- its variables.
  pub data Serial : List (ℕ × X) → S → Type 0 where
    none_yet : Serial [] s0
    then_one :
        {log : List (ℕ × X)} {s s' : S} (i : ℕ) (x : X)
        → Serial log s
        → body (bodies i) (start, s) ≡ returns (x, s')
        → Serial ((i, x) ∷ log) s'

  abbrev pub Logged : ℕ → X → List (ℕ × X) → Type 0
  Logged i x [] = ⊥
  Logged i x ((j, y) ∷ log) = ((i ≡ j) × (x ≡ y)) ⊎ Logged i x log

  -- no goroutine is twice in the log
  abbrev pub Once : List (ℕ × X) → Type 0
  Once [] = Unit
  Once ((i, x) ∷ log) = ((y : X) → ¬ Logged i y log) × Once log

  -- where the shared state stands: the holder is on its way from where the others left it
  abbrev pub Consistent : Option ℕ → List (ℕ × X) → System X S → Type 0
  Consistent none log sys = Serial log sys.shared
  Consistent (some j) log sys =
      (s : S) × (x : X) × (steps : List (Access X S)) × Serial log s
      × (sys.goroutines j ≡ holding steps x)
      × (body steps (x, sys.shared) ≡ body (bodies j) (start, s))

  abbrev pub Status : Option ℕ → List (ℕ × X) → ℕ → Goroutine X S → Type 0
  Status holder log i (waiting steps) = steps ≡ bodies i
  Status holder log i (holding steps x) = holder ≡ some i
  Status holder log i (finished x) = Logged i x log

  pub record Inv (sys : System X S) : Type 0 where
    pub log : List (ℕ × X)
    pub once : Once log
    pub consistent : Consistent sys.holder log sys
    pub status : (i : ℕ) → Status sys.holder log i (sys.goroutines i)
    pub recorded : (i : ℕ) (x : X) → Logged i x log → sys.goroutines i ≡ finished x

  pub begin-Inv : Inv (begin bodies s0)
  unfolding begin
  begin-Inv = record {
    log = [];
    once = tt;
    consistent = none_yet;
    status = λ i. refl;
    recorded = λ i x h. elim h [ ];
  }

  -- one goroutine moves
  moved :
      (P : ℕ → Goroutine X S → Type 0) (g : ℕ → Goroutine X S) (i : ℕ) (v : Goroutine X S)
      → P i v
      → ((k : ℕ) → i ≢ k → P k (g k))
      → (k : ℕ) → P k (update g i v k)
  moved P g i v here others k = elim (ℕ_discrete i k) [
    | yes e ↦
        let same : update g i v k ≡ v = ground arith in
        subst (P k) (sym same) (subst (λ k. P k v) e here)
    | no ne ↦ let same : update g i v k ≡ g k = ground arith in subst (P k) (sym same) (others k ne)
  ]

  Status-locked :
      (i : ℕ) (log : List (ℕ × X)) (k : ℕ) (g : Goroutine X S)
      → Status none log k g
      → Status (some i) log k g
  Status-locked i log k (waiting steps) h = h
  Status-locked i log k (holding steps x) h = cc h
  Status-locked i log k (finished x) h = h

  Status-unlocked :
      (i : ℕ) (x : X) (log : List (ℕ × X)) (k : ℕ) (g : Goroutine X S)
      → i ≢ k
      → Status (some i) log k g
      → Status none ((i, x) ∷ log) k g
  Status-unlocked i x log k (waiting steps) ne h = h
  Status-unlocked i x log k (holding steps y) ne h = absurd (ne (cc h))
  Status-unlocked i x log k (finished y) ne h = inr h

  -- the mutex is granted
  pub lock-Inv :
      (i : ℕ) (steps : List (Access X S)) (sys : System X S)
      → sys.goroutines i ≡ waiting steps
      → sys.holder ≡ none
      → Inv sys
      → Inv (record (with i (holding steps start) sys) { holder = some i })
  lock-Inv i steps sys g free h =
      let g' : ℕ → Goroutine X S = update sys.goroutines i (holding steps start) in
      let serial : Serial h.log sys.shared =
        subst (λ o. Consistent o h.log sys) free h.consistent in
      let own : steps ≡ bodies i = subst (Status sys.holder h.log i) g (h.status i) in
      record {
        log = h.log;
        once = h.once;
        consistent = (sys.shared, start, steps, serial, ground arith, rw own refl);
        status = moved (Status (some i) h.log) sys.goroutines i (holding steps start) refl (λ k ne.
            Status-locked i h.log k (sys.goroutines k)
              (subst (λ o. Status o h.log k (sys.goroutines k)) free (h.status k)));
        recorded = λ k x l.
            moved (λ k g. Logged k x h.log → g ≡ finished x) sys.goroutines i (holding steps start)
              (λ l. cc (g, h.recorded i x l)) (λ k ne l. h.recorded k x l) k l;
      }

  -- whoever is between `Lock` and `Unlock` has the mutex, and is on the way from a serial state
  holder-Consistent :
      (i : ℕ) (steps : List (Access X S)) (x : X) (sys : System X S)
      → sys.goroutines i ≡ holding steps x
      → (h : Inv sys)
      → (sys.holder ≡ some i)
        × ((s : S) × Serial h.log s × (body steps (x, sys.shared) ≡ body (bodies i) (start, s)))
  holder-Consistent i steps x sys g h =
      let held : sys.holder ≡ some i = subst (Status sys.holder h.log i) g (h.status i) in
      let (s, y, rest, serial, at, same) = subst (λ o. Consistent o h.log sys) held h.consistent in
      let x_is : y ≡ x = (cc (at, g)) in
      let steps_are : rest ≡ steps = (cc (at, g)) in
      (held, (s, serial, rw (← x_is, ← steps_are) same))

  -- the holder takes a step, and nobody else changes the state
  pub step-Inv :
      (i : ℕ) (step : Access X S) (steps : List (Access X S)) (x : X) (sys : System X S)
      → ((s : S) → (r : X × S) × (body (bodies i) (start, s) ≡ returns r))
      → sys.goroutines i ≡ holding (step ∷ steps) x
      → Inv sys
      → (r : X × S) × (step (x, sys.shared) ≡ returns r)
        × Inv (record (with i (holding steps r.0) sys) { shared = r.1 })
  unfolding body
  step-Inv i step steps x sys total g h =
      let (held, (s, serial, same)) = holder-Consistent i (step ∷ steps) x sys g h in
      let (whole, ends) = total s in
      let (r, runs, rest) = >>=-eq-returns (step (x, sys.shared)) (body steps) (same ∙ ends) in
      let sys' : System X S = record (with i (holding steps r.0) sys) { shared = r.1 } in
      (
        r,
        runs,
        record {
          log = h.log;
          once = h.once;
          consistent =
              subst (λ o. Consistent o h.log sys') (sym held)
                (s, r.0, steps, serial, ground arith, rest ∙ sym ends);
          status =
              moved (Status sys.holder h.log) sys.goroutines i (holding steps r.0) held
                (λ k ne. h.status k);
          recorded = λ k y l.
              moved (λ k g. Logged k y h.log → g ≡ finished y) sys.goroutines i (holding steps r.0)
                (λ l. cc (g, h.recorded i y l)) (λ k ne l. h.recorded k y l) k l;
        },
      )

  -- the holder unlocks
  pub unlock-Inv :
      (i : ℕ) (x : X) (sys : System X S)
      → sys.goroutines i ≡ holding [] x
      → Inv sys
      → Inv (record (with i (finished x) sys) { holder = none })
  unfolding body
  unlock-Inv i x sys g h =
      let (held, (s, serial, same)) = holder-Consistent i [] x sys g h in
      let new : (y : X) → ¬ Logged i y h.log = λ y l. cc (g, h.recorded i y l) in
      record {
        log = (i, x) ∷ h.log;
        once = (new, h.once);
        consistent = then_one i x serial (sym same);
        status =
            moved (Status none ((i, x) ∷ h.log)) sys.goroutines i (finished x) (inl (refl, refl))
              (λ k ne.
                Status-unlocked i x h.log k (sys.goroutines k) ne
                  (subst (λ o. Status o h.log k (sys.goroutines k)) held (h.status k)));
        recorded = λ k y l.
            moved (λ k g. Logged k y ((i, x) ∷ h.log) → g ≡ finished y) sys.goroutines i
              (finished x) (λ l. elim l [ inl (_, e) ↦ cc e | inr old ↦ absurd (new y old) ])
              (λ k ne l. elim l [ inl (e, _) ↦ absurd (ne (sym e)) | inr old ↦ h.recorded k y old ])
              k l;
      }

  -- whose turn it is can move or wait, and the order stands
  turn-Inv :
      (i : ℕ) (g : Goroutine X S) (sys : System X S)
      → ((k : ℕ) (s : S) → (r : X × S) × (body (bodies k) (start, s) ≡ returns r))
      → sys.goroutines i ≡ g
      → Inv sys
      → (sys' : System X S) × (turn_of start g i sys ≡ returns sys') × Inv sys'
  turn-Inv i (waiting steps) sys total g h = elim (Option-cases sys.holder) [
    | inl free ↦ (_, rw free refl, lock-Inv i steps sys g free h)
    | inr (j, held) ↦ (sys, rw held refl, h)
  ]
  turn-Inv i (holding [] x) sys total g h = (_, refl, unlock-Inv i x sys g h)
  turn-Inv i (holding (step ∷ steps) x) sys total g h =
      let (r, runs, inv) = step-Inv i step steps x sys (total i) g h in (_, rw runs refl, inv)
  turn-Inv i (finished x) sys total g h = (sys, refl, h)

  pub run-Inv :
      (schedule : List ℕ) (sys : System X S)
      → ((k : ℕ) (s : S) → (r : X × S) × (body (bodies k) (start, s) ≡ returns r))
      → Inv sys
      → (sys' : System X S) × (run start schedule sys ≡ returns sys') × Inv sys'
  unfolding run turn
  run-Inv [] sys total h = (sys, refl, h)
  run-Inv (i ∷ is) sys total h =
      let (next, moves, inv) = turn-Inv i (sys.goroutines i) sys total refl h in
      let (last, runs, inv') = run-Inv is next total inv in (last, rw moves runs, inv')
