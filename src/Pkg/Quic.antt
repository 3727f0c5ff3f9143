-- ===== src/Pkg/Quic.antt =====
-- What pkg/inet/quic/quic.go and pkg/scion/quic/quic.go have in common: the listeners and the
-- connections of a QUIC library, `Library`, on a network of type `N`. `L`, `S` and `Str` are the
-- library's listeners, sessions and streams.
use panapi.Prelude.{ℕ, String, Option, none, some}
use panapi.Golang.{Error, Err, Run, returns, deref, ◌>>=◌}
use panapi.Taps.Heap.{Heap}
use panapi.Pkg.Tcp.{set_remote}

pub record Library (N L S Str : Type 0) : Type 0 where
  pub accept : L → N → (Option S × Err) × N
  pub close : L → N → Err × N
  pub remote_addr : S → String
  pub accept_stream : S → N → (Option Str × Err) × N
  pub open_stream : S → N → (Option Str × Err) × N
  pub close_stream : Str → N → Err × N
  pub close_with_error : S → ℕ → String → N → Err × N

pub record Listener (L : Type 0) : Type 0 where
  pub p : ℕ
  pub l : Option L

pub record Connection (S Str : Type 0) : Type 0 where
  pub stream : Option Str
  pub p : ℕ
  pub session : S

-- `Connection.Preconnection`
unfoldable pub preconnection : {S Str : Type 0} → Connection S Str → ℕ
preconnection c = c.p

module _ {N L S Str : Type 0} (library : Library N L S Str) where
  unfoldable pub accept :
      {Proto Key : Type 0}
      → Listener L
      → Heap Proto Key
      → N
      → Run ((Option (Connection S Str) × Err) × (Heap Proto Key × N))
  unfolding set_remote
  accept ln h n = elim ln.l [
    | none ↦ returns ((none, some (Error.new "not a listener")), (h, n))
    | some l ↦
        (let ((session, err), n') = library.accept l n in
          elim err [
            | some e ↦ returns ((none, some e), (h, n'))
            | none ↦
                (deref session >>= λ s.
                let h' = set_remote ln.p (library.remote_addr s) h in
                let ((stream, err'), n'') = library.accept_stream s n' in
                returns
                  ((some (record { stream = stream; p = ln.p; session = s }), err'), (h', n'')))
          ])
  ]

  -- `listener.Close`
  unfoldable pub close_listener : Listener L → N → Run (Err × N)
  close_listener ln n = deref ln.l >>= λ l. returns (library.close l n)

  -- `Connection.Close`: the stream, whatever comes of it, and then the session
  unfoldable pub close : Connection S Str → N → Run (Err × N)
  close c n = deref c.stream >>= λ stream.
      returns (library.close_with_error c.session 0 "closed" (library.close_stream stream n).1)

  -- the end of `Initiate`: a stream is opened on a session that was dialled
  unfoldable pub opened :
      {Proto Key : Type 0}
      → ℕ
      → Heap Proto Key
      → (Option S × Err) × N
      → Run ((Option (Connection S Str) × Err) × (Heap Proto Key × N))
  opened p h ((session, some e), n) = returns ((none, some e), (h, n))
  opened p h ((session, none), n) = deref session >>= λ s.
      let ((stream, err), n') = library.open_stream s n in
      returns ((some (record { stream = stream; p = p; session = s }), err), (h, n'))
