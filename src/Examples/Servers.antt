-- ===== src/Examples/Servers.antt =====
-- `runServer` of examples/, on the heap of taps/ and a network of type `N`. The loop of `Accept` is
-- run for a number of rounds; `start` begins the goroutine that a connection is handed to.
pub mod Accepts
use panapi.Prelude.{ℕ, zero, suc, ◌+◌, String, Option, none, some, update}
use panapi.Golang.{Err, Run, returns, deref, ◌>>=◌}
use panapi.Taps.Heap.{Heap}
use panapi.Taps.Preconnection.{Protocol, listen}
use panapi.Examples.Clients.{empty}

-- what the code uses of a `taps.Listener` and of a `taps.Connection`
pub record Accepting (Proto Key N Lis Con : Type 0) : Type 0 where
  pub accept : Lis → Heap Proto Key → N → Run ((Option Con × Err) × (Heap Proto Key × N))
  pub preconnection : Con → Option ℕ

module _ {Proto Key N Lis Con Sel : Type 0} (protocol : Protocol Proto Key N Lis Con Sel)
    (accepting : Accepting Proto Key N Lis Con) (start : Con → N → N) where
  -- the state that goes along
  abbrev pub State : Type 0
  State = Heap Proto Key × N

  unfoldable pub server_preconnection : String → Proto → Heap Proto Key → ℕ × Heap Proto Key
  server_preconnection local proto h = (
    h.next + 1,
    record h {
      endpoints = update h.endpoints h.next (record { address = local; protocol = some proto });
      preconnections =
          update h.preconnections (h.next + 1) (record empty { local_endpoint = some h.next });
      next = h.next + 2;
    },
  )

  -- one round of pingpong and concurrent, once `Accept` has returned; `go` is the rest
  abbrev pub served : (State → Run State) → (Option Con × Err) × State → Run State
  served go ((conn, some e), s) = go s
  served go ((conn, none), (h, n)) = deref conn >>= λ c. go (h, start c n)

  unfoldable pub accept_rounds : ℕ → Lis → State → Run State
  accept_rounds zero l s = returns s
  accept_rounds (suc fuel) l s = accepting.accept l s.0 s.1 >>= served (accept_rounds fuel l)

  abbrev unless_failed : Err → State → State → State
  unless_failed (some e) failed started = failed
  unless_failed none failed started = started

  -- one round of capacityseeker, which logs the remote address before it looks at the error
  abbrev pub seeker_served : (State → Run State) → (Option Con × Err) × State → Run State
  seeker_served go ((conn, err), (h, n)) = deref conn >>= λ c.
      deref (accepting.preconnection c) >>= λ p. deref (h.preconnections p).remote_endpoint >>= λ a.
      go (unless_failed err (h, n) (h, start c n))

  unfoldable pub seeker_rounds : ℕ → Lis → State → Run State
  seeker_rounds zero l s = returns s
  seeker_rounds (suc fuel) l s = accepting.accept l s.0 s.1 >>= seeker_served (seeker_rounds fuel l)

  -- `Preconnection.Listen`, and the loop unless it failed: `none` is a server that still runs
  abbrev pub listened : (Lis → State → Run State) → (Option Lis × Err) × State → Run (Err × State)
  listened rounds ((l, some e), s) = returns (some e, s)
  listened rounds ((l, none), s) = deref l >>= λ l. rounds l s >>= λ s. returns (none, s)

  abbrev pub listening : String → Proto → State → Run ((Option Lis × Err) × State)
  listening local proto (h, n) =
      let (p, h') = server_preconnection local proto h in listen protocol p h' n

  unfoldable pub run_server : ℕ → String → Proto → State → Run (Err × State)
  unfolding server_preconnection accept_rounds
  run_server fuel local proto s = listening local proto s >>= listened (accept_rounds fuel)

  unfoldable pub seeker_run_server : ℕ → String → Proto → State → Run (Err × State)
  unfolding server_preconnection seeker_rounds
  seeker_run_server fuel local proto s = listening local proto s >>= listened (seeker_rounds fuel)
