-- ===== src/Examples/Servers/Accepts.antt =====
-- What the example servers do when `Accept` does not return a connection.
use panapi.Prelude.{ℕ, suc, String, Option, none, some, ◌≡◌, refl, [], ◌+◌, arith, false, ap, ◌∙◌}
use panapi.Golang.{Run, returns, panics, deref, ◌>>=◌}
use panapi.Taps.Heap.{Heap, Endpoint, Preconnection, TransportPreferences, copy}
use panapi.Taps.Heap.Cells.{read, Below, update-same}
use panapi.Taps.Preconnection.Views.{view, IsAllocated, write_all}
use panapi.Taps.Preconnection.Isolation.{copy_isolated}
use panapi.Pkg.Properties.{prohibits, satisfy}
use panapi.Taps.Preconnection.{Protocol, listen}
use panapi.Pkg.Tcp
use panapi.Pkg.Tcp.{Net}
use panapi.Pkg.Quic
use panapi.Pkg.Quic.{Library}
use panapi.Examples.Clients.{empty}
use panapi.Examples.Servers.{
  Accepting, served, seeker_served, accept_rounds, seeker_rounds, listening, listened, run_server,
  seeker_run_server, server_preconnection,
}

-- the protocols as the interfaces of taps/ see them; of TCP, `Selector` is nil
abbrev pub tcp_protocol :
    {N L C Key : Type 0} → Net N L C → Protocol Unit Key N (Tcp.Listener L) (Tcp.Connection C) Unit
tcp_protocol net = record {
  new_listener = λ proto p h n. Tcp.new_listener net p h n;
  initiate = λ proto p h n. Tcp.initiate net p h n;
  selector = λ proto. none;
  set_preferences = λ s prefs n. returns (none, n);
}

abbrev pub tcp_accepting :
    {N L C Key : Type 0} → Net N L C → Accepting Unit Key N (Tcp.Listener L) (Tcp.Connection C)
tcp_accepting net = record {
  accept = λ l h n. Tcp.accept net l h n;
  preconnection = λ c. Tcp.preconnection c;
}

abbrev pub quic_accepting :
    {Proto N L S Str Key : Type 0}
    → Library N L S Str
    → Accepting Proto Key N (Quic.Listener L) (Quic.Connection S Str)
quic_accepting library = record {
  accept = λ l h n. Quic.accept library l h n;
  preconnection = λ c. some (Quic.preconnection c);
}

unset :
    (tp : TransportPreferences)
    → tp.reliability ≡ 0
    → tp.preserve_order ≡ 0
    → tp.congestion_control ≡ 0
    → prohibits tp ≡ false
unset tp reliability preserve_order congestion_control = ground arith

nowhere : {A B : Type 0} (o : Option A) → ◌≡◌ {A = Run B} (deref o >>= λ a. panics) panics
nowhere none = refl
nowhere (some a) = refl

module _ {N L C Key : Type 0} (net : Net N L C) (start : Tcp.Connection C → N → N) where
  -- TCP listens with preferences that are all unset, at the address of the local endpoint
  tcp_listens :
      (q : ℕ) (h : Heap Unit Key) (n n' : N) (e : Endpoint Unit) (l : L)
      → prohibits (h.preconnections q).transport_preferences ≡ false
      → read h.endpoints (h.preconnections q).local_endpoint ≡ some e
      → net.listen e.address n ≡ ((some l, none), n')
      → Tcp.new_listener net q h n
        ≡ returns ((some (record { p = none; l = some l }), none), (h, n'))
  unfolding Tcp.new_listener satisfy
  tcp_listens q h n n' e l unset local opens = ground arith

  made : String → Heap Unit Key → ℕ × Heap Unit Key
  made local h = server_preconnection (tcp_protocol net) (tcp_accepting net) start local tt h

  made-stored :
      (local : String) (h : Heap Unit Key)
      → (made local h).1.preconnections (made local h).0
        ≡ record empty { local_endpoint = some h.next }
  unfolding made server_preconnection
  made-stored local h = update-same h.preconnections (h.next + 1) _

  made-endpoint :
      (local : String) (h : Heap Unit Key)
      → (made local h).1.endpoints h.next ≡ record { address = local; protocol = some tt }
  unfolding made server_preconnection
  made-endpoint local h = update-same h.endpoints h.next _

  made-local :
      (local : String) (h : Heap Unit Key)
      → read
          (made local h).1.endpoints
          ((made local h).1.preconnections (made local h).0).local_endpoint
        ≡ some (record { address = local; protocol = some tt })
  made-local local h =
      ap (λ pre. read (made local h).1.endpoints pre.local_endpoint) (made-stored local h)
      ∙ ap some (made-endpoint local h)

  allocated :
      (n : ℕ) (pre : Preconnection) (h : Heap Unit Key)
      → h.next ≡ n + 2
      → pre ≡ record empty { local_endpoint = some n }
      → (Below h.next pre.local_endpoint)
        × (Below h.next pre.remote_endpoint)
        × (Below h.next pre.transport_preferences.interface)
        × (Below h.next pre.connection_preferences)
  allocated n pre h size same = rw same (omega arith, tt, tt, tt)

  made-IsAllocated :
      (local : String) (h : Heap Unit Key) → IsAllocated (made local h).0 (made local h).1
  unfolding made server_preconnection
  made-IsAllocated local h =
      let below = allocated h.next _ (made local h).1 refl (made-stored local h) in
      record { local = below.0; remote = below.1; interface = below.2; preferences = below.3 }

  copied-view :
      (local : String) (h : Heap Unit Key)
      → view (copy (made local h).0 (made local h).1).0 (copy (made local h).0 (made local h).1).1
        ≡ view (made local h).0 (made local h).1
  unfolding write_all
  copied-view local h =
      (copy_isolated (made local h).0 (made local h).1 [] (made-IsAllocated local h) tt).0

  handed :
      (p a : ℕ) (h : Heap Unit Key) (n : N)
      → (h.preconnections p).local_endpoint ≡ some a
      → (h.endpoints a).protocol ≡ some tt
      → listen (tcp_protocol net) p h n ≡ Tcp.new_listener net (copy p h).0 (copy p h).1 n
  unfolding listen
  handed p a h n local spoken = rw (listen, local, spoken) refl

  made-listens :
      (local : String) (h : Heap Unit Key) (n n' : N) (l : L)
      → net.listen local n ≡ ((some l, none), n')
      → (h' : Heap Unit Key) × (listening
            (tcp_protocol net)
            (tcp_accepting net)
            start
            local
            tt
            (h, n)
          ≡ returns ((some (record { p = none; l = some l }), none), (h', n')))
  unfolding listen made server_preconnection
  made-listens local h n n' l opens =
      let (p, h1) = made local h in
      let v = copied-view local h in
      let stored = made-stored local h in
      let same = ap (λ v. v.local) v ∙ made-local local h in
      let reliability =
        ap (λ v. v.reliability) v ∙ ap (λ pre. pre.transport_preferences.reliability) stored in
      let preserve_order =
        ap (λ v. v.preserve_order) v
        ∙ ap (λ pre. pre.transport_preferences.preserve_order) stored in
      let congestion_control =
        ap (λ v. v.congestion_control) v
        ∙ ap (λ pre. pre.transport_preferences.congestion_control) stored in
      (
        (copy p h1).1,
        handed p h.next h1 n (ap (λ pre. pre.local_endpoint) stored)
              (ap (λ e. e.protocol) (made-endpoint local h))
            ∙ tcp_listens (copy p h1).0 (copy p h1).1 n n' _ l
                (unset ((copy p h1).1.preconnections (copy p h1).0).transport_preferences
                  reliability preserve_order congestion_control)
                same opens,
      )

  accept_fails :
      (l : L) (h : Heap Unit Key) (n : N)
      → Tcp.accept net (record { p = none; l = some l }) h n ≡ panics
  unfolding Tcp.accept
  accept_fails l h n = nowhere (net.accept l n).0.0

  -- The servers of all three programs panic in their first round over TCP, once they listen.
  pub tcp_servers_panic :
      (fuel : ℕ) (local : String) (h : Heap Unit Key) (n n' : N) (l : L)
      → net.listen local n ≡ ((some l, none), n')
      → (run_server (tcp_protocol net) (tcp_accepting net) start (suc fuel) local tt (h, n)
          ≡ panics)
        × (seeker_run_server (tcp_protocol net) (tcp_accepting net) start (suc fuel) local tt (h, n)
            ≡ panics)
  unfolding run_server seeker_run_server accept_rounds seeker_rounds
  tcp_servers_panic fuel local h n n' l opens =
      let (h', opened) = made-listens local h n n' l opens in
      (
        ap
              (λ m.
                m
                >>= listened (tcp_protocol net) (tcp_accepting net) start
                    (accept_rounds (tcp_protocol net) (tcp_accepting net) start (suc fuel)))
              opened
            ∙ ap
                (λ m.
                  (m
                    >>= served (tcp_protocol net) (tcp_accepting net) start (
                        accept_rounds (tcp_protocol net) (tcp_accepting net) start fuel
                          (record { p = none; l = some l })))
                  >>= λ s. returns (none, s))
                (accept_fails l h' n'),
        ap
              (λ m.
                m
                >>= listened (tcp_protocol net) (tcp_accepting net) start
                    (seeker_rounds (tcp_protocol net) (tcp_accepting net) start (suc fuel)))
              opened
            ∙ ap
                (λ m.
                  (m
                    >>= seeker_served (tcp_protocol net) (tcp_accepting net) start (
                        seeker_rounds (tcp_protocol net) (tcp_accepting net) start fuel
                          (record { p = none; l = some l })))
                  >>= λ s. returns (none, s))
                (accept_fails l h' n'),
      )
