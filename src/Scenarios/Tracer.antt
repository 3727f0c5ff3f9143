-- ===== src/Scenarios/Tracer.antt =====
-- A run of the tracer's client and daemon.
use panapi.Prelude.{ℕ, ◌+◌, String, false, Option, none, some, List, [], ◌∷◌, ◌≡◌, refl, ap}
use panapi.Golang.{Error, returns}
use panapi.Rpc.Loopback.{running}
use panapi.Rpc.ConnectionTracer.{ConnectionTracerMsg, TracerCall, ServerConnectionTracer}
use panapi.Rpc.ConnectionTracer.Client.{ConnectionTracerClient}
use panapi.Rpc.ConnectionTracer.Events.{TraceEvent, on_event}
use panapi.Rpc.ConnectionTracer.Delivery.{call, event_delivered}
use panapi.Rpc.Tracer.{Tracer, TracerMsg, send_dropped_packet}
use panapi.Rpc.Tracer.Told
use panapi.Rpc.Tracer.Told.{Gob, IsDocumented, never_told}
use panapi.Scenarios.Setting.{toy, quic}

-- a tracer that keeps the calls that it gets
abbrev recording : ServerConnectionTracer toy quic (List (TracerCall toy quic))
recording q t = returns (none, q ∷ t)

abbrev client : ConnectionTracerClient toy quic
client = record { id = 42; p = 1; odcid = 9; tracing_id = 3; local = some "a"; remote = some "x" }

abbrev wire : ConnectionTracerMsg toy quic → ConnectionTracerMsg toy quic
wire m = m

event_delivered_example :
    on_event toy quic
      (call toy quic recording wire)
      (TraceEvent.lost_packet 1 2 0)
      client
      (running [])
    ≡ returns (client, running (TracerCall.lost_packet (some "a") (some "x") 1 2 0 ∷ []))
event_delivered_example =
    event_delivered toy quic recording wire (TraceEvent.lost_packet 1 2 0) client refl []

abbrev counting_tracer : Tracer toy quic String ℕ
counting_tracer = record {
  sent_packet = λ addr hdr size frames n. n + size;
  dropped_packet = λ addr packet_type size reason n. n + 1;
}

-- an address is refused, and nothing else is changed; a refused message ends the connection
sent : Option String → TracerMsg toy quic String → Option (TracerMsg toy quic String)
sent none m = some m
sent (some addr) m = none

abbrev gob : Gob toy quic String ℕ
gob = record {
  wire = λ m. sent m.addr m;
  refusal = Error.foreign "gob: type not registered for interface: net.UDPAddr";
  refused = λ w. record w { connected = false };
}

sent_address :
    (a : Option String) (m m' : TracerMsg toy quic String)
    → m.addr ≡ none
    → a ≡ none
    → sent a m ≡ some m'
    → m'.addr ≡ none
unfolding sent
sent_address none m m' h h' e = cc
sent_address (some addr) m m' h h' e = cc

gob-IsDocumented : IsDocumented gob
unfolding sent
gob-IsDocumented = record {
  unregistered = λ m addr h. ap (λ a. sent a m) h;
  nil_stays = λ m m' h e. sent_address m.addr m m' h h e;
  unseen = λ w. refl;
}

never_told_example :
    (send_dropped_packet toy quic String
      (Told.call toy quic String counting_tracer gob)
      42
      (some "x")
      1
      1200
      3
      (running 5)).daemon
    ≡ some 5
never_told_example =
    (never_told toy quic String counting_tracer gob gob-IsDocumented 42 (some "x") none 1200 [] 1 3
      (running 5) 5 refl).1
