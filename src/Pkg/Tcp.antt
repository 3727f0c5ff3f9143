-- ===== src/Pkg/Tcp.antt =====
-- pkg/inet/tcp/tcp.go. `Net` is what the code uses of Go's package net, on a network of type `N`.
use panapi.Prelude.{ℕ, ◌+◌, String, Option, none, some, update}
use panapi.Golang.{Error, Err, Run, returns, deref, ◌>>=◌}
use panapi.Taps.Heap.{Endpoint, Heap}
use panapi.Pkg.Properties.{satisfy}

-- a listener and a connection are of an interface type, so each may be nil
pub record Net (N L C : Type 0) : Type 0 where
  pub listen : String → N → (Option L × Err) × N
  pub dial : String → N → (Option C × Err) × N
  pub accept : L → N → (Option C × Err) × N
  pub close : L → N → Err × N
  pub remote_addr : C → String

pub record Listener (L : Type 0) : Type 0 where
  pub p : Option ℕ
  pub l : Option L

pub record Connection (C : Type 0) : Type 0 where
  pub conn : Option C
  pub p : Option ℕ

-- the endpoint that a pointer holds
abbrev pub endpoint_at : {Proto Key : Type 0} → Heap Proto Key → Option ℕ → Run (Endpoint Proto)
endpoint_at h a = deref a >>= λ a. returns (h.endpoints a)

-- `p.RemoteEndpoint = &taps.RemoteEndpoint{taps.Endpoint{Address: address}}`
unfoldable pub set_remote : {Proto Key : Type 0} → ℕ → String → Heap Proto Key → Heap Proto Key
set_remote p address h = record h {
  endpoints = update h.endpoints h.next (record { address = address; protocol = none });
  preconnections =
      update h.preconnections p (record (h.preconnections p) { remote_endpoint = some h.next });
  next = h.next + 1;
}

-- `Connection.Preconnection`
unfoldable pub preconnection : {C : Type 0} → Connection C → Option ℕ
preconnection c = c.p

module _ {N L C : Type 0} (net : Net N L C) where
  unfoldable pub new_listener :
      {Proto Key : Type 0}
      → ℕ
      → Heap Proto Key
      → N
      → Run ((Option (Listener L) × Err) × (Heap Proto Key × N))
  new_listener p h n = elim (satisfy (h.preconnections p).transport_preferences).1 [
    | some e ↦ returns ((none, some e), (h, n))
    | none ↦
        (endpoint_at h (h.preconnections p).local_endpoint >>= λ e.
        let ((l, err), n') = net.listen e.address n in
        returns ((some (record { p = none; l = l }), err), (h, n')))
  ]

  unfoldable pub initiate :
      {Proto Key : Type 0}
      → ℕ
      → Heap Proto Key
      → N
      → Run ((Option (Connection C) × Err) × (Heap Proto Key × N))
  initiate p h n = elim (satisfy (h.preconnections p).transport_preferences).1 [
    | some e ↦ returns ((none, some e), (h, n))
    | none ↦
        (endpoint_at h (h.preconnections p).remote_endpoint >>= λ e.
        let ((conn, err), n') = net.dial e.address n in
        returns ((some (record { conn = conn; p = some p }), err), (h, n')))
  ]

  unfoldable pub accept :
      {Proto Key : Type 0}
      → Listener L
      → Heap Proto Key
      → N
      → Run ((Option (Connection C) × Err) × (Heap Proto Key × N))
  unfolding set_remote
  accept ln h n = elim ln.l [
    | none ↦ returns ((none, some (Error.new "not a listener")), (h, n))
    | some l ↦
        (let ((conn, err), n') = net.accept l n in
          deref conn >>= λ c. deref ln.p >>= λ p. returns (
            (some (record { conn = some c; p = some p }), err),
            (set_remote p (net.remote_addr c) h, n'),
          ))
  ]

  -- `listener.Close`, which does not look whether there is a listener to close
  unfoldable pub close : Listener L → N → Run (Err × N)
  close ln n = deref ln.l >>= λ l. returns (net.close l n)
