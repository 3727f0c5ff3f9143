-- ===== src/Pkg/Refusals.antt =====
-- What a preconnection that prohibits what a protocol always provides leads to.
use panapi.Prelude.{arith, ℕ, String, Option, none, some, ◌≡◌, refl, ◌⊎◌}
use panapi.Golang.{Error, Err, returns}
use panapi.Taps.Enums.{prohibit}
use panapi.Taps.Heap.{TransportPreferences, Heap}
use panapi.Pkg.Properties.{satisfy, satisfy_scion}
use panapi.Pkg.Tcp.{Net}
use panapi.Pkg.Tcp
use panapi.Pkg.Quic.{Library, opened}
use panapi.Pkg.Inet
use panapi.Pkg.Scion.{Scion, preferences_at}
use panapi.Pkg.Scion

-- one of the three properties that the protocols check is prohibited
abbrev pub Prohibits : TransportPreferences → Type 0
Prohibits sp =
    (sp.reliability ≡ prohibit)
    ⊎ ((sp.preserve_order ≡ prohibit) ⊎ (sp.congestion_control ≡ prohibit))

abbrev pub refusal : Err
refusal = some (Error.new "Can't satisfy all constraints")

satisfy-Prohibits : (sp : TransportPreferences) → Prohibits sp → (satisfy sp).1 ≡ refusal
unfolding satisfy
satisfy-Prohibits sp h = ground arith

satisfy_scion-Prohibits :
    (sp : TransportPreferences) → Prohibits sp → (satisfy_scion sp).1 ≡ refusal
unfolding satisfy_scion
satisfy_scion-Prohibits sp h = ground arith

module _ {Proto Key N L C S Str Config Sel Addr : Type 0} (net : Net N L C)
    (library : Library N L S Str) (listen_addr : String → Config → N → (Option L × Err) × N)
    (dial_addr : String → Config → N → (Option S × Err) × N) (scion : Scion N L S Config Sel Addr)
    (config : Config) (selector : Option Sel) where
  -- If a preconnection prohibits reliability, order or congestion control, then none of the three
  -- protocols listens on it, and TCP does not dial: each returns the same error and has touched
  -- neither the network nor the heap.
  pub prohibited_refused :
      (p : ℕ) (h : Heap Proto Key) (n : N)
      → Prohibits (h.preconnections p).transport_preferences
      → (Tcp.new_listener net p h n ≡ returns ((none, refusal), (h, n)))
        × (Tcp.initiate net p h n ≡ returns ((none, refusal), (h, n)))
        × (Inet.new_listener library listen_addr dial_addr config p h n
            ≡ returns ((none, refusal), (h, n)))
        × (Scion.new_listener library scion config selector p h n
            ≡ returns ((none, refusal), (h, n)))
  unfolding Tcp.new_listener Tcp.initiate Inet.new_listener Scion.new_listener
  prohibited_refused p h n bad =
      let sp = (h.preconnections p).transport_preferences in
      (
        rw (Tcp.new_listener, satisfy-Prohibits sp bad) refl,
        rw (Tcp.initiate, satisfy-Prohibits sp bad) refl,
        rw (Inet.new_listener, satisfy-Prohibits sp bad) refl,
        rw (Scion.new_listener, satisfy_scion-Prohibits sp bad) refl,
      )

module _ {Proto Key N L S Str Config : Type 0} (library : Library N L S Str)
    (listen_addr : String → Config → N → (Option L × Err) × N)
    (dial_addr : String → Config → N → (Option S × Err) × N) (config : Config) where
  -- QUIC without SCION dials all the same: on a preconnection that prohibits what `Satisfy` checks,
  -- `Satisfy` returns an error, and `Initiate` a connection without an error whenever the library
  -- dials the remote endpoint and opens a stream.
  pub prohibited_dialled :
      (p a : ℕ) (h : Heap Proto Key) (n n1 n2 : N) (s : S) (str : Option Str)
      → Prohibits (h.preconnections p).transport_preferences
      → (h.preconnections p).remote_endpoint ≡ some a
      → dial_addr (h.endpoints a).address config n ≡ ((some s, none), n1)
      → library.open_stream s n1 ≡ ((str, none), n2)
      → ((satisfy (h.preconnections p).transport_preferences).1 ≡ refusal)
        × (Inet.initiate library listen_addr dial_addr config p h n
            ≡ returns ((some (record { stream = str; p = p; session = s }), none), (h, n2)))
  unfolding Inet.initiate opened
  prohibited_dialled p a h n n1 n2 s str bad remote dialled stream_opened =
      (satisfy-Prohibits _ bad, rw (remote, dialled, stream_opened) refl)
