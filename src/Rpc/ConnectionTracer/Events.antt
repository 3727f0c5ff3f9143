-- ===== src/Rpc/ConnectionTracer/Events.antt =====
-- The calls of quic-go on the tracer of a connection, and what they are to tell the daemon's tracer.
use panapi.Prelude.{ℕ, String, Bool, Option, none, some, List, []}
use panapi.Golang.{Error, Run, returns, panics, exits}
use panapi.Pan.{Pan}
use panapi.Rpc.ConnectionTracer.{
  Quic, RttStats, TransportParameters, error_text, TracerCall, ConnectionTracerMsg, blank,
}
use panapi.Rpc.ConnectionTracer.Client
use panapi.Rpc.ConnectionTracer.Client.{ConnectionTracerClient}

module _ (pan : Pan) (quic : Quic pan) where
  -- a call of quic-go on the tracer of a connection
  pub data TraceEvent : Type 0 where
    started_connection :
        pan.UdpAddr → pan.UdpAddr → quic.ConnectionId → quic.ConnectionId → TraceEvent
    negotiated_version : ℕ → List ℕ → List ℕ → TraceEvent
    closed_connection : Error → TraceEvent
    sent_transport_parameters : Option TransportParameters → TraceEvent
    received_transport_parameters : Option TransportParameters → TraceEvent
    restored_transport_parameters : Option TransportParameters → TraceEvent
    sent_packet :
        Option quic.ExtendedHeader → ℕ → Option quic.AckFrame → List quic.Frame → TraceEvent
    received_version_negotiation_packet : Option quic.Header → List ℕ → TraceEvent
    received_retry : Option quic.Header → TraceEvent
    received_packet : Option quic.ExtendedHeader → ℕ → List quic.Frame → TraceEvent
    buffered_packet : ℕ → TraceEvent
    dropped_packet : ℕ → ℕ → ℕ → TraceEvent
    updated_metrics : RttStats → ℕ → ℕ → ℕ → TraceEvent
    acknowledged_packet : ℕ → ℕ → TraceEvent
    lost_packet : ℕ → ℕ → ℕ → TraceEvent
    updated_congestion_state : ℕ → TraceEvent
    updated_pto_count : ℕ → TraceEvent
    updated_key_from_tls : ℕ → ℕ → TraceEvent
    updated_key : ℕ → Bool → TraceEvent
    dropped_encryption_level : ℕ → TraceEvent
    dropped_key : ℕ → TraceEvent
    set_loss_timer : ℕ → ℕ → pan.Time → TraceEvent
    loss_timer_expired : ℕ → ℕ → TraceEvent
    loss_timer_canceled : TraceEvent
    close : TraceEvent
    debug : String → String → TraceEvent

  -- What the daemon's tracer is to be told of an event: the addresses are those that the connection
  -- was started with, frames are not passed on, and an error is its text.
  abbrev pub told : TraceEvent → ConnectionTracerClient pan quic → TracerCall pan quic
  told (TraceEvent.started_connection l r src dest) c =
      TracerCall.started_connection (some l) (some r) src dest
  told (TraceEvent.negotiated_version chosen client_versions server_versions) c =
      TracerCall.negotiated_version c.local c.remote chosen client_versions server_versions
  told (TraceEvent.closed_connection e) c =
      TracerCall.closed_connection c.local c.remote (some (Error.new (error_text e)))
  told (TraceEvent.sent_transport_parameters parameters) c =
      TracerCall.sent_transport_parameters c.local c.remote parameters
  told (TraceEvent.received_transport_parameters parameters) c =
      TracerCall.received_transport_parameters c.local c.remote parameters
  told (TraceEvent.restored_transport_parameters parameters) c =
      TracerCall.restored_transport_parameters c.local c.remote parameters
  told (TraceEvent.sent_packet hdr size ack _) c =
      TracerCall.sent_packet c.local c.remote hdr size ack []
  told (TraceEvent.received_version_negotiation_packet hdr versions) c =
      TracerCall.received_version_negotiation_packet c.local c.remote hdr versions
  told (TraceEvent.received_retry hdr) c = TracerCall.received_retry c.local c.remote hdr
  told (TraceEvent.received_packet hdr size _) c =
      TracerCall.received_packet c.local c.remote hdr size []
  told (TraceEvent.buffered_packet ptype) c = TracerCall.buffered_packet c.local c.remote ptype
  told (TraceEvent.dropped_packet ptype size reason) c =
      TracerCall.dropped_packet c.local c.remote ptype size reason
  told (TraceEvent.updated_metrics rtt_stats cwnd bytes_in_flight packets_in_flight) c =
      TracerCall.updated_metrics c.local c.remote (some rtt_stats) cwnd bytes_in_flight
        packets_in_flight
  told (TraceEvent.acknowledged_packet level pnum) c =
      TracerCall.acknowledged_packet c.local c.remote level pnum
  told (TraceEvent.lost_packet level pnum reason) c =
      TracerCall.lost_packet c.local c.remote level pnum reason
  told (TraceEvent.updated_congestion_state state) c =
      TracerCall.updated_congestion_state c.local c.remote state
  told (TraceEvent.updated_pto_count value) c = TracerCall.updated_pto_count c.local c.remote value
  told (TraceEvent.updated_key_from_tls level p) c =
      TracerCall.updated_key_from_tls c.local c.remote level p
  told (TraceEvent.updated_key generation remote) c =
      TracerCall.updated_key c.local c.remote generation remote
  told (TraceEvent.dropped_encryption_level level) c =
      TracerCall.dropped_encryption_level c.local c.remote level
  told (TraceEvent.dropped_key generation) c = TracerCall.dropped_key c.local c.remote generation
  told (TraceEvent.set_loss_timer ttype level t) c =
      TracerCall.set_loss_timer c.local c.remote ttype level t
  told (TraceEvent.loss_timer_expired ttype level) c =
      TracerCall.loss_timer_expired c.local c.remote ttype level
  told TraceEvent.loss_timer_canceled c = TracerCall.loss_timer_canceled c.local c.remote
  told TraceEvent.close c = TracerCall.close c.local c.remote
  told (TraceEvent.debug name msg) c = TracerCall.debug c.local c.remote name msg

  -- the client after an event
  abbrev pub client_after :
      TraceEvent → ConnectionTracerClient pan quic → ConnectionTracerClient pan quic
  client_after (TraceEvent.started_connection l r _ _) c = record c {
    local = some l;
    remote = some r;
  }
  client_after _ c = c

  -- the method of the client that an event calls
  module _ {W : Type 0} (call : Client.Call pan quic W) where
    unfoldable pub on_event :
        TraceEvent → ConnectionTracerClient pan quic → W → Run (ConnectionTracerClient pan quic × W)
    on_event (TraceEvent.started_connection l r src dest) =
        Client.started_connection pan quic call l r src dest
    on_event (TraceEvent.negotiated_version chosen client_versions server_versions) =
        Client.negotiated_version pan quic call chosen client_versions server_versions
    on_event (TraceEvent.closed_connection e) = Client.closed_connection pan quic call e
    on_event (TraceEvent.sent_transport_parameters parameters) =
        Client.sent_transport_parameters pan quic call parameters
    on_event (TraceEvent.received_transport_parameters parameters) =
        Client.received_transport_parameters pan quic call parameters
    on_event (TraceEvent.restored_transport_parameters parameters) =
        Client.restored_transport_parameters pan quic call parameters
    on_event (TraceEvent.sent_packet hdr size ack frames) =
        Client.sent_packet pan quic call hdr size ack frames
    on_event (TraceEvent.received_version_negotiation_packet hdr versions) =
        Client.received_version_negotiation_packet pan quic call hdr versions
    on_event (TraceEvent.received_retry hdr) = Client.received_retry pan quic call hdr
    on_event (TraceEvent.received_packet hdr size frames) =
        Client.received_packet pan quic call hdr size frames
    on_event (TraceEvent.buffered_packet ptype) = Client.buffered_packet pan quic call ptype
    on_event (TraceEvent.dropped_packet ptype size reason) =
        Client.dropped_packet pan quic call ptype size reason
    on_event (TraceEvent.updated_metrics rtt_stats cwnd bytes_in_flight packets_in_flight) =
        Client.updated_metrics pan quic call rtt_stats cwnd bytes_in_flight packets_in_flight
    on_event (TraceEvent.acknowledged_packet level pnum) =
        Client.acknowledged_packet pan quic call level pnum
    on_event (TraceEvent.lost_packet level pnum reason) =
        Client.lost_packet pan quic call level pnum reason
    on_event (TraceEvent.updated_congestion_state state) =
        Client.updated_congestion_state pan quic call state
    on_event (TraceEvent.updated_pto_count value) = Client.updated_pto_count pan quic call value
    on_event (TraceEvent.updated_key_from_tls level p) =
        Client.updated_key_from_tls pan quic call level p
    on_event (TraceEvent.updated_key generation remote) =
        Client.updated_key pan quic call generation remote
    on_event (TraceEvent.dropped_encryption_level level) =
        Client.dropped_encryption_level pan quic call level
    on_event (TraceEvent.dropped_key generation) = Client.dropped_key pan quic call generation
    on_event (TraceEvent.set_loss_timer ttype level t) =
        Client.set_loss_timer pan quic call ttype level t
    on_event (TraceEvent.loss_timer_expired ttype level) =
        Client.loss_timer_expired pan quic call ttype level
    on_event TraceEvent.loss_timer_canceled = Client.loss_timer_canceled pan quic call
    on_event TraceEvent.close = Client.close pan quic call
    on_event (TraceEvent.debug name msg) = Client.debug pan quic call name msg

  -- a call that keeps the message and succeeds
  abbrev keep : Client.Call pan quic (ConnectionTracerMsg pan quic)
  keep name args w = (none, args)

  abbrev kept :
      Run (ConnectionTracerClient pan quic × ConnectionTracerMsg pan quic)
      → ConnectionTracerMsg pan quic
  kept (returns (c, m)) = m
  kept panics = blank pan quic
  kept exits = blank pan quic

  -- the message that the client makes of an event
  abbrev pub message : TraceEvent → ConnectionTracerClient pan quic → ConnectionTracerMsg pan quic
  message e c = kept (on_event keep e c (blank pan quic))
