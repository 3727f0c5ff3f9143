-- ===== src/Examples/Clients/Dialling.antt =====
-- How the clients of examples/ dial over SCION.
use panapi.Prelude.{ℕ, ◌+◌, String, Option, none, some, [], false, ◌≡◌, refl, ap, ◌∙◌, arith}
use panapi.Golang.{returns}
use panapi.Taps.Preferences.{ConnectionPreferences}
use panapi.Taps.Heap.{Heap, Endpoint, Preconnection, copy}
use panapi.Taps.Heap.Cells.{read, Below, update-same}
use panapi.Taps.Preconnection.{Protocol, initiate}
use panapi.Taps.Preconnection.Views.{view, IsAllocated, write_all}
use panapi.Taps.Preconnection.Isolation.{copy_isolated}
use panapi.Pkg.Tcp.{endpoint_at}
use panapi.Pkg.Quic
use panapi.Pkg.Quic.{Library, opened}
use panapi.Pkg.Scion
use panapi.Pkg.Scion.{Scion, preferences_at, dialler_preferences}
use panapi.Examples.Clients.{empty, client_preconnection}

-- `&squic.Protocol{...}` as the interface of taps/ sees it
abbrev pub scion_protocol :
    {N L S Str Config Sel Addr Key : Type 0}
    → Library N L S Str
    → Scion N L S Config Sel Addr
    → Config
    → Option Sel
    → Protocol Unit Key N (Quic.Listener L) (Quic.Connection S Str) Sel
scion_protocol library scion config selector = record {
  new_listener = λ proto p h n. Scion.new_listener library scion config selector p h n;
  initiate = λ proto p h n. Scion.initiate library scion config selector p h n;
  selector = λ proto. selector;
  set_preferences = scion.set_preferences;
}

-- the preferences that a client's profile stands for
abbrev pub with_profile : ℕ → ConnectionPreferences
with_profile profile = record {
  conn_timeout = 0;
  conn_capacity_profile = profile;
  multipath_policy = 0;
  isolate_session = false;
}

module _ {N L S Str Config Sel Addr Key : Type 0} (library : Library N L S Str)
    (scion : Scion N L S Config Sel Addr) (config : Config) (s : Sel) where
  abbrev protocol : Protocol Unit Key N (Quic.Listener L) (Quic.Connection S Str) Sel
  protocol = scion_protocol library scion config (some s)

  abbrev made : String → ℕ → Heap Unit Key → ℕ × Heap Unit Key
  made remote profile h = client_preconnection protocol remote tt profile h

  made-stored :
      (remote : String) (profile : ℕ) (h : Heap Unit Key)
      → (made remote profile h).1.preconnections (made remote profile h).0
        ≡ record empty { remote_endpoint = some h.next; connection_preferences = some (h.next + 1) }
  unfolding client_preconnection
  made-stored remote profile h = update-same h.preconnections (h.next + 2) _

  made-endpoint :
      (remote : String) (profile : ℕ) (h : Heap Unit Key)
      → (made remote profile h).1.endpoints h.next ≡ record { address = remote; protocol = some tt }
  unfolding client_preconnection
  made-endpoint remote profile h = update-same h.endpoints h.next _

  made-preferences :
      (remote : String) (profile : ℕ) (h : Heap Unit Key)
      → (made remote profile h).1.preferences (h.next + 1) ≡ with_profile profile
  unfolding client_preconnection
  made-preferences remote profile h = update-same h.preferences (h.next + 1) _

  allocated :
      (n : ℕ) (pre : Preconnection) (h : Heap Unit Key)
      → h.next ≡ n + 3
      → pre ≡ record empty { remote_endpoint = some n; connection_preferences = some (n + 1) }
      → (Below h.next pre.local_endpoint)
        × (Below h.next pre.remote_endpoint)
        × (Below h.next pre.transport_preferences.interface)
        × (Below h.next pre.connection_preferences)
  allocated n pre h size same = rw same (tt, omega arith, tt, omega arith)

  made-IsAllocated :
      (remote : String) (profile : ℕ) (h : Heap Unit Key)
      → IsAllocated (made remote profile h).0 (made remote profile h).1
  unfolding client_preconnection
  made-IsAllocated remote profile h =
      let below =
        allocated h.next _ (made remote profile h).1 refl (made-stored remote profile h) in
      record { local = below.0; remote = below.1; interface = below.2; preferences = below.3 }

  copied-view :
      (remote : String) (profile : ℕ) (h : Heap Unit Key)
      → view
          (copy (made remote profile h).0 (made remote profile h).1).0
          (copy (made remote profile h).0 (made remote profile h).1).1
        ≡ view (made remote profile h).0 (made remote profile h).1
  unfolding write_all
  copied-view remote profile h =
      (copy_isolated (made remote profile h).0 (made remote profile h).1 []
        (made-IsAllocated remote profile h) tt).0

  pointed :
      (h : Heap Unit Key) (o : Option ℕ) (e : Endpoint Unit)
      → read h.endpoints o ≡ some e
      → endpoint_at h o ≡ returns e
  pointed h none e same = cc
  pointed h (some a) e same = cc

  preferred :
      (h : Heap Unit Key) (o : Option ℕ) (cp : ConnectionPreferences)
      → read h.preferences o ≡ some cp
      → preferences_at h o ≡ some cp
  preferred h none cp same = cc
  preferred h (some a) cp same = same

  scion_dials :
      (q : ℕ) (h : Heap Unit Key) (n n1 n2 : N) (e : Endpoint Unit) (cp : ConnectionPreferences)
      (addr : Addr)
      → endpoint_at h (h.preconnections q).remote_endpoint ≡ returns e
      → preferences_at h (h.preconnections q).connection_preferences ≡ some cp
      → scion.resolve_udp_addr e.address n ≡ ((addr, none), n1)
      → scion.set_preferences s (some cp) n1 ≡ returns (none, n2)
      → Scion.initiate library scion config (some s) q h n
        ≡ opened library q h (scion.dial_quic addr (some s) config n2)
  unfolding Scion.initiate dialler_preferences
  scion_dials q h n n1 n2 e cp addr at wants resolves takes = ground arith

  handed :
      (p a : ℕ) (h : Heap Unit Key) (n : N)
      → (h.preconnections p).remote_endpoint ≡ some a
      → (h.endpoints a).protocol ≡ some tt
      → initiate protocol p h n
        ≡ Scion.initiate library scion config (some s) (copy p h).0 (copy p h).1 n
  unfolding initiate
  handed p a h n remote spoken = rw (initiate, remote, spoken) refl

  -- A client over SCION that has a selector hands it the preferences with the client's profile after
  -- it has resolved the remote address and before it dials that address with the selector; if the
  -- selector takes them, the result is what dialling gives, on the copy of the preconnection.
  pub client_dials :
      (remote : String) (profile : ℕ) (h : Heap Unit Key) (n n1 n2 : N) (addr : Addr)
      → scion.resolve_udp_addr remote n ≡ ((addr, none), n1)
      → scion.set_preferences s (some (with_profile profile)) n1 ≡ returns (none, n2)
      → let (p, h1) =
          client_preconnection (scion_protocol library scion config (some s)) remote tt profile h in
        initiate (scion_protocol library scion config (some s)) p h1 n
        ≡ opened library (copy p h1).0 (copy p h1).1 (scion.dial_quic addr (some s) config n2)
  client_dials remote profile h n n1 n2 addr resolves takes =
      let p = (made remote profile h).0 in
      let h1 = (made remote profile h).1 in
      let v = copied-view remote profile h in
      let stored = made-stored remote profile h in
      let endpoint =
        ap (λ v. v.remote) v
        ∙ ap (λ pre. read h1.endpoints pre.remote_endpoint) stored
        ∙ ap some (made-endpoint remote profile h) in
      let preferences =
        ap (λ v. v.preferences) v
        ∙ ap (λ pre. read h1.preferences pre.connection_preferences) stored
        ∙ ap some (made-preferences remote profile h) in
      handed p h.next h1 n (ap (λ pre. pre.remote_endpoint) stored)
        (ap (λ e. e.protocol) (made-endpoint remote profile h))
      ∙ scion_dials (copy p h1).0 (copy p h1).1 n n1 n2 _ _ addr
          (pointed (copy p h1).1 _ _ endpoint) (preferred (copy p h1).1 _ _ preferences) resolves
          takes
