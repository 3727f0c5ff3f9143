-- ===== src/Examples/Workers.antt =====
-- The two workers of examples/ that hold a conversation without a preconnection: `serverWorker` of
-- pingpong and `worker` of concurrent. Neither need end; each is run for a number of rounds.
pub mod Echo
use panapi.Prelude.{ℕ, zero, suc, String, str_append, Option, none, some}
use panapi.Golang.{Error, Err}

-- A connection of type `Con` with a `bufio.Reader` on it, and Go's clock, on a state of type `N`.
pub record Line (Con N : Type 0) : Type 0 where
  pub write : Con → String → N → Err × N
  -- `r.ReadString('\n')`
  pub read_string : Con → N → (String × Err) × N
  pub close : Con → N → Err × N
  -- `<-ticker`, with the time that comes
  pub tick : N → String × N

module _ {Con N : Type 0} (line : Line Con N) (conn : Con) where
  -- a round of `serverWorker` once the answer is written, and once a line is read; `go` is the rest
  abbrev pub answered : (N → Err × N) → Err × N → Err × N
  answered go (some e, n) = (some e, n)
  answered go (none, n) = go n

  abbrev pub heard : (N → Err × N) → (String × Err) × N → Err × N
  heard go ((ping, some e), n) = (some e, n)
  heard go ((ping, none), n) = answered go (line.write conn ping n)

  -- the loop of `serverWorker`: `none` while it runs, and the error that ended it
  unfoldable pub server_rounds : ℕ → N → Err × N
  server_rounds zero n = (none, n)
  server_rounds (suc fuel) n = heard (server_rounds fuel) (line.read_string conn n)

  -- the deferred `conn.Close`, once the loop has ended
  abbrev pub closed : Err × N → Err × N
  closed (none, n) = (none, n)
  closed (some e, n) = (some e, (line.close conn n).1)

  unfoldable pub server_worker : ℕ → N → Err × N
  unfolding server_rounds
  server_worker fuel n = closed (server_rounds fuel n)

  -- the loop of `worker`: `none` while it runs, and then the error that it logs. That of
  -- `ReadString` is another variable, of the loop's body.
  abbrev pub responded : (String → N → Option Err × N) → (String × Err) × N → Option Err × N
  responded go ((response, some e), n) = (some none, n)
  responded go ((response, none), n) = let (time, n') = line.tick n in go (str_append time "\n") n'

  abbrev pub requested : (String → N → Option Err × N) → Err × N → Option Err × N
  requested go (some e, n) = (some (some e), n)
  requested go (none, n) = responded go (line.read_string conn n)

  unfoldable pub worker_rounds : ℕ → String → N → Option Err × N
  worker_rounds zero request n = (none, n)
  worker_rounds (suc fuel) request n = requested (worker_rounds fuel) (line.write conn request n)

  abbrev pub hung_up : Option Err × N → Option Err × N
  hung_up (none, n) = (none, n)
  hung_up (some err, n) = (some err, (line.close conn n).1)

  unfoldable pub worker : ℕ → N → Option Err × N
  unfolding worker_rounds
  worker fuel n = hung_up (worker_rounds fuel "Hello!\n" n)
