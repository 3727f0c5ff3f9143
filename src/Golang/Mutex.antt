-- ===== src/Golang/Mutex.antt =====
-- Goroutines that share a state under one mutex: each locks it, takes its steps on the state and on
-- its own variables, and unlocks it. A schedule says whose turn it is, one access at a time.
pub mod Order
pub mod Serial
pub mod Progress
use panapi.Prelude.{ℕ, Option, none, some, List, [], ◌∷◌, update}
use panapi.Golang.{Run, returns, ◌>>=◌}

-- one access to the shared state, by a goroutine with variables of type `X`
abbrev pub Access : Type 0 → Type 0 → Type 0
Access X S = X × S → Run (X × S)

pub data Goroutine (X S : Type 0) : Type 0 where
  waiting : List (Access X S) → Goroutine X S
  holding : List (Access X S) → X → Goroutine X S
  finished : X → Goroutine X S

pub record System (X S : Type 0) : Type 0 where
  pub shared : S
  pub holder : Option ℕ
  pub goroutines : ℕ → Goroutine X S

module _ {X S : Type 0} where
  -- between `Lock` and `Unlock`, undisturbed
  unfoldable pub body : List (Access X S) → Access X S
  body [] r = returns r
  body (step ∷ steps) r = step r >>= body steps

  abbrev pub with : ℕ → Goroutine X S → System X S → System X S
  with i g sys = record sys { goroutines = update sys.goroutines i g }

  -- `Lock` is granted only when nobody holds the mutex
  abbrev locked : X → List (Access X S) → ℕ → Option ℕ → System X S → System X S
  locked start steps i none sys = record (with i (holding steps start) sys) { holder = some i }
  locked start steps i (some _) sys = sys

  abbrev pub turn_of : X → Goroutine X S → ℕ → System X S → Run (System X S)
  turn_of start (waiting steps) i sys = returns (locked start steps i sys.holder sys)
  turn_of start (holding [] x) i sys = returns (record (with i (finished x) sys) { holder = none })
  turn_of start (holding (step ∷ steps) x) i sys = step (x, sys.shared) >>= λ r.
      returns (record (with i (holding steps r.0) sys) { shared = r.1 })
  turn_of start (finished x) i sys = returns sys

  unfoldable pub turn : X → ℕ → System X S → Run (System X S)
  turn start i sys = turn_of start (sys.goroutines i) i sys

  unfoldable pub run : X → List ℕ → System X S → Run (System X S)
  unfolding turn
  run start [] sys = returns sys
  run start (i ∷ is) sys = turn start i sys >>= run start is

  unfoldable pub begin : (ℕ → List (Access X S)) → S → System X S
  begin bodies s = record { shared = s; holder = none; goroutines = λ i. waiting (bodies i) }
