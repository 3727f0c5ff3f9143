-- ===== src/Golang/Mutex/Serial.antt =====
-- What goroutines do under a mutex is what they do one after the other.
use panapi.Prelude.{ℕ, Option, none, some, List, ◌≡◌, ◌↔◌, refl}
use panapi.Golang.{returns}
use panapi.Golang.Mutex.{Access, body, Goroutine, waiting, holding, finished, System, run, begin}
use panapi.Golang.Mutex.Order.{Serial, Logged, Once, Consistent, Status, begin-Inv, run-Inv}

module _ {X S : Type 0} (start : X) (bodies : ℕ → List (Access X S)) (s0 : S) where
  -- how far the shared state is ahead of where the finished goroutines left it: not at all, or by
  -- what the holder has done
  abbrev pub Ahead : Option ℕ → System X S → S → Type 0
  Ahead none sys s = sys.shared ≡ s
  Ahead (some j) sys s =
      (x : X) × (steps : List (Access X S)) × (sys.goroutines j ≡ holding steps x)
      × (body steps (x, sys.shared) ≡ body (bodies j) (start, s))

  Consistent-Ahead :
      (o : Option ℕ) (log : List (ℕ × X)) (sys : System X S)
      → Consistent start bodies s0 o log sys
      → (s : S) × Serial start bodies s0 log s × Ahead o sys s
  Consistent-Ahead none log sys h = (sys.shared, h, refl)
  Consistent-Ahead (some j) log sys (s, x, steps, serial, at, same) =
      (s, serial, (x, steps, at, same))

  Status-finished :
      (o : Option ℕ) (log : List (ℕ × X)) (i : ℕ) (x : X) (g : Goroutine X S)
      → g ≡ finished x
      → Status start bodies s0 o log i g
      → Logged start bodies s0 i x log
  Status-finished o log i x (waiting steps) e h = cc e
  Status-finished o log i x (holding steps y) e h = cc e
  Status-finished o log i x (finished y) e h = let same : y ≡ x = (cc e) in rw (← same) h

  -- Every schedule returns. The finished goroutines have run one after the other.
  pub serialised :
      (schedule : List ℕ)
      → ((k : ℕ) (s : S) → (r : X × S) × (body (bodies k) (start, s) ≡ returns r))
      → (sys : System X S) × (log : List (ℕ × X)) × (s : S) × (run start schedule (begin bodies s0)
          ≡ returns sys)
        × Serial start bodies s0 log s
        × Ahead sys.holder sys s
        × Once start bodies s0 log
        × ((i : ℕ) (x : X) → (sys.goroutines i ≡ finished x) ↔ Logged start bodies s0 i x log)
  serialised schedule total =
      let (sys, runs, h) =
        run-Inv start bodies s0 schedule (begin bodies s0) total (begin-Inv start bodies s0) in
      let (s, serial, ahead) = Consistent-Ahead sys.holder h.log sys h.consistent in
      (
        sys,
        h.log,
        s,
        runs,
        serial,
        ahead,
        h.once,
        λ i x. (
          λ e. Status-finished sys.holder h.log i x (sys.goroutines i) e (h.status i),
          h.recorded i x,
        ),
      )
