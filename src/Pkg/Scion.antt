-- ===== src/Pkg/Scion.antt =====
-- pkg/scion/quic/quic.go: QUIC over SCION. `Config` stands for the QUIC and TLS configurations and
-- `Sel` for selectors; the fields of `Scion` are the functions of package pan that the code uses,
-- and `SetPreferences` of a selector.
use panapi.Prelude.{ℕ, String, Option, none, some}
use panapi.Golang.{Err, Run, returns, deref, ◌>>=◌}
use panapi.Taps.Preferences.{ConnectionPreferences}
use panapi.Taps.Heap.{Heap}
use panapi.Pkg.Properties.{satisfy_scion}
use panapi.Pkg.Tcp.{endpoint_at}
use panapi.Pkg.Quic.{Library, Listener, Connection, opened}

pub record Scion (N L S Config Sel Addr : Type 0) : Type 0 where
  pub resolve_udp_addr : String → N → (Addr × Err) × N
  -- on the IP address and the port of an address
  pub listen_quic : Addr → Config → N → (Option L × Err) × N
  pub dial_quic : Addr → Option Sel → Config → N → (Option S × Err) × N
  pub set_preferences : Sel → Option ConnectionPreferences → N → Run (Err × N)

-- the pointer `p.ConnectionPreferences`
abbrev pub preferences_at :
    {Proto Key : Type 0} → Heap Proto Key → Option ℕ → Option ConnectionPreferences
preferences_at h none = none
preferences_at h (some a) = some (h.preferences a)

module _ {N L S Str Config Sel Addr : Type 0} (library : Library N L S Str)
    (scion : Scion N L S Config Sel Addr) (config : Config) (selector : Option Sel) where
  -- the listener's preferences are handed to the selector only when there are some
  unfoldable pub listener_preferences : Option ConnectionPreferences → N → Run (Err × N)
  listener_preferences none n = returns (none, n)
  listener_preferences (some cp) n = deref selector >>= λ s. scion.set_preferences s (some cp) n

  -- the dialler's preferences, nil or not, are handed to the selector if there is one
  unfoldable pub dialler_preferences : Option Sel → Option ConnectionPreferences → N → Run (Err × N)
  dialler_preferences none cps n = returns (none, n)
  dialler_preferences (some s) cps n = scion.set_preferences s cps n

  unfoldable pub new_listener :
      {Proto Key : Type 0}
      → ℕ
      → Heap Proto Key
      → N
      → Run ((Option (Listener L) × Err) × (Heap Proto Key × N))
  unfolding listener_preferences
  new_listener p h n = elim (satisfy_scion (h.preconnections p).transport_preferences).1 [
    | some e ↦ returns ((none, some e), (h, n))
    | none ↦
        (endpoint_at h (h.preconnections p).local_endpoint >>= λ e.
        let ((addr, err), n1) = scion.resolve_udp_addr e.address n in
        elim err [
          | some e ↦ returns ((none, some e), (h, n1))
          | none ↦
              (listener_preferences (preferences_at h (h.preconnections p).connection_preferences)
                  n1
                >>= λ r. elim r.0 [
                  | some e ↦ returns ((none, some e), (h, r.1))
                  | none ↦
                      (let ((l, err'), n2) = scion.listen_quic addr config r.1 in
                        returns ((some (record { p = p; l = l }), err'), (h, n2)))
                ])
        ])
  ]

  unfoldable pub initiate :
      {Proto Key : Type 0}
      → ℕ
      → Heap Proto Key
      → N
      → Run ((Option (Connection S Str) × Err) × (Heap Proto Key × N))
  unfolding dialler_preferences opened
  initiate p h n = endpoint_at h (h.preconnections p).remote_endpoint >>= λ e.
      let ((addr, err), n1) = scion.resolve_udp_addr e.address n in
      elim err [
        | some e ↦ returns ((none, some e), (h, n1))
        | none ↦
            (dialler_preferences selector
                (preferences_at h (h.preconnections p).connection_preferences) n1
              >>= λ r. elim r.0 [
                | some e ↦ returns ((none, some e), (h, r.1))
                | none ↦ opened library p h (scion.dial_quic addr selector config r.1)
              ])
      ]
