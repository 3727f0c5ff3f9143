-- ===== src/Pkg/Inet.antt =====
-- pkg/inet/quic/quic.go: QUIC without SCION. `Config` stands for the QUIC and TLS configurations,
-- and the parameters `listen_addr` and `dial_addr` for the functions of quic-go that take them.
use panapi.Prelude.{ℕ, String, Option, none, some}
use panapi.Golang.{Err, Run, returns, ◌>>=◌}
use panapi.Taps.Heap.{Heap}
use panapi.Pkg.Properties.{satisfy}
use panapi.Pkg.Tcp.{endpoint_at}
use panapi.Pkg.Quic.{Library, Listener, Connection, opened}

module _ {Proto Key N L S Str Config : Type 0} (library : Library N L S Str)
    (listen_addr : String → Config → N → (Option L × Err) × N)
    (dial_addr : String → Config → N → (Option S × Err) × N) where
  unfoldable pub new_listener :
      Config → ℕ → Heap Proto Key → N → Run ((Option (Listener L) × Err) × (Heap Proto Key × N))
  new_listener config p h n = elim (satisfy (h.preconnections p).transport_preferences).1 [
    | some e ↦ returns ((none, some e), (h, n))
    | none ↦
        (endpoint_at h (h.preconnections p).local_endpoint >>= λ e.
        let ((l, err), n') = listen_addr e.address config n in
        returns ((some (record { p = p; l = l }), err), (h, n')))
  ]

  unfoldable pub initiate :
      Config
      → ℕ
      → Heap Proto Key
      → N
      → Run ((Option (Connection S Str) × Err) × (Heap Proto Key × N))
  unfolding opened
  initiate config p h n = endpoint_at h (h.preconnections p).remote_endpoint >>= λ e.
      opened library p h (dial_addr e.address config n)
