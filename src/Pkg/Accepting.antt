-- ===== src/Pkg/Accepting.antt =====
-- What listeners do with the preconnection that they were made from.
use panapi.Prelude.{arith, ℕ, none, some, ◌≡◌, ◌≢◌, inl, inr, Option-cases}
use panapi.Golang.{Err, returns, panics}
use panapi.Taps.Heap.{Heap}
use panapi.Pkg.Properties.{satisfy}
use panapi.Pkg.Tcp.{Net, set_remote, endpoint_at}
use panapi.Pkg.Tcp
use panapi.Pkg.Quic.{Library, Listener, Connection, accept, preconnection}

module _ {Proto Key N L C : Type 0} (net : Net N L C) where
  no_preconnection :
      (p : ℕ) (h : Heap Proto Key) (n : N) (ln : Tcp.Listener L) (err : Err)
      (st : Heap Proto Key × N)
      → Tcp.new_listener net p h n ≡ returns ((some ln, err), st)
      → ln.p ≡ none
  unfolding Tcp.new_listener
  no_preconnection p h n ln err st made =
      elim (Option-cases (satisfy (h.preconnections p).transport_preferences).1) [
        | inl e ↦ ground arith
        | inr (x, e) ↦ ground arith
      ]

  -- A listener that TCP made panics on the first `Accept`, whatever the network answers: the listener
  -- does not have the preconnection that it was made from.
  pub accept_panics :
      (p : ℕ) (h : Heap Proto Key) (n : N) (ln : Tcp.Listener L) (err : Err)
      (st : Heap Proto Key × N) (h2 : Heap Proto Key) (n2 : N)
      → Tcp.new_listener net p h n ≡ returns ((some ln, err), st)
      → ln.l ≢ none
      → Tcp.accept net ln h2 n2 ≡ panics
  unfolding Tcp.accept
  accept_panics p h n ln err st h2 n2 made listening =
      (let lost = no_preconnection p h n ln err st made in ground arith)

module _ {Proto Key N L S Str : Type 0} (library : Library N L S Str) where
  -- The connections that a QUIC listener accepts share a preconnection: after a later `Accept` that
  -- returns a connection, the first connection's preconnection has the address of the later
  -- connection's session for its remote endpoint, whatever happened in between.
  pub accepted_shared :
      (ln : Listener L) (h h1 h2 h3 : Heap Proto Key) (n n1 n2 n3 : N) (c1 c2 : Connection S Str)
      (e1 e2 : Err)
      → accept library ln h n ≡ returns ((some c1, e1), (h1, n1))
      → accept library ln h2 n2 ≡ returns ((some c2, e2), (h3, n3))
      → (endpoint_at h3 (h3.preconnections (preconnection c1)).remote_endpoint
          ≡ returns (record { address = library.remote_addr c2.session; protocol = none }))
  unfolding accept set_remote preconnection
  accepted_shared ln h h1 h2 h3 n n1 n2 n3 c1 c2 e1 e2 first later = ground arith
