-- ===== src/Rpc/Tracer.antt =====
-- rpc/tracer.go: the two events that quic-go reports outside a connection. The reply stays blank.
pub mod Told
use panapi.Prelude.{ℕ, String, Option, none, some, List, [], ◌||◌, is_nil, str_eq, if◌then◌else◌}
use panapi.Golang.{Error, Err, Run, returns, exits, deref, ◌>>=◌}
use panapi.Pan.{Pan}
use panapi.Rpc.ConnectionTracer.{Quic}
use panapi.Rpc.ConnectionTracer.Client
use panapi.Rpc.ConnectionTracer.Client.{ConnectionTracerClient}
use panapi.Rpc.SelectorServer.{err_deref}

module _ (pan : Pan) (quic : Quic pan) (Addr : Type 0) where
  -- `logging.Tracer` of quic-go, on a state of type `T`; an address is a `net.Addr`
  pub record Tracer (T : Type 0) : Type 0 where
    pub sent_packet : Addr → Option quic.Header → ℕ → List quic.Frame → T → T
    pub dropped_packet : Addr → ℕ → ℕ → ℕ → T → T

  pub record TracerMsg : Type 0 where
    pub id : Option ℕ
    pub tracing_id : Option ℕ
    pub perspective : Option ℕ
    pub connection_id : Option quic.ConnectionId
    pub addr : Option Addr
    pub header : Option quic.Header
    pub byte_count : Option ℕ
    pub frames : List quic.Frame
    pub packet_type : Option ℕ
    pub drop_reason : Option ℕ

  -- `TracerMsg{}`
  abbrev pub blank : TracerMsg
  blank = record {
    id = none;
    tracing_id = none;
    perspective = none;
    connection_id = none;
    addr = none;
    header = none;
    byte_count = none;
    frames = [];
    packet_type = none;
    drop_reason = none;
  }

  -- the handlers of `TracerServer`
  module _ {T : Type 0} (tracer : Tracer T) where
    unfoldable pub receive_sent_packet : TracerMsg → T → Run (Err × T)
    receive_sent_packet args t =
        if is_nil args.addr || is_nil args.byte_count then returns (some err_deref, t) else do
          addr ← deref args.addr
          size ← deref args.byte_count
          returns (none, tracer.sent_packet addr args.header size args.frames t)

    unfoldable pub receive_dropped_packet : TracerMsg → T → Run (Err × T)
    receive_dropped_packet args t =
        if is_nil args.addr
          || is_nil args.packet_type
          || is_nil args.byte_count
          || is_nil args.drop_reason
        then returns (some err_deref, t)
        else do
          addr ← deref args.addr
          packet_type ← deref args.packet_type
          size ← deref args.byte_count
          reason ← deref args.drop_reason
          returns (none, tracer.dropped_packet addr packet_type size reason t)

  -- `TracerClient`, of which only the client's number goes into a message; `call` is `Client.Call`,
  -- and its error is dropped
  module _ {W : Type 0} (call : String → TracerMsg → W → Err × W) (id : ℕ) where
    unfoldable pub send_sent_packet : Option Addr → Option quic.Header → ℕ → List quic.Frame → W → W
    send_sent_packet addr hdr n fs w =
        (call "TracerServer.SentPacket"
          (record blank {
            id = some id;
            addr = addr;
            header = hdr;
            byte_count = some n;
            frames = fs;
          })
          w).1

    unfoldable pub send_dropped_packet : Option Addr → ℕ → ℕ → ℕ → W → W
    send_dropped_packet addr packet_type n reason w =
        (call "TracerServer.DroppedPacket"
          (record blank {
            id = some id;
            addr = addr;
            packet_type = some packet_type;
            byte_count = some n;
            drop_reason = some reason;
          })
          w).1

  -- `TracerClient.TracerForConnection`: the tracing number comes out of the context, and without it
  -- the application ends; `call` is `Client.Call` of the connection's tracer
  unfoldable pub tracer_client_for_connection :
      {W : Type 0}
      → Client.Call pan quic W
      → ℕ
      → Option ℕ
      → ℕ
      → quic.ConnectionId
      → W
      → Run (ConnectionTracerClient pan quic × W)
  unfolding Client.new_connection_tracer_client
  tracer_client_for_connection call client_id none p odcid w = exits
  tracer_client_for_connection call client_id (some id) p odcid w =
      Client.new_connection_tracer_client pan quic call client_id id p odcid w
