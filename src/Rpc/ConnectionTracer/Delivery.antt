-- ===== src/Rpc/ConnectionTracer/Delivery.antt =====
-- Events of a connection reach the daemon's tracer: the client's methods and the server's handlers
-- joined by net/rpc.
use panapi.Prelude.{String, Option, none, some, ◌≡◌, refl, str_eq, if◌then◌else◌}
use panapi.Golang.{Error, Err, Run, returns, panics, exits}
use panapi.Pan.{Pan}
use panapi.Rpc.Loopback.{World, over_wire, err_shutdown, err_unexpected_eof, running}
use panapi.Rpc.ConnectionTracer.{Quic, ConnectionTracerMsg, ServerConnectionTracer}
use panapi.Rpc.ConnectionTracer.Client
use panapi.Rpc.ConnectionTracer.Client.{ConnectionTracerClient}
use panapi.Rpc.ConnectionTracer.Server
use panapi.Rpc.ConnectionTracer.Server.{Handler}
use panapi.Rpc.ConnectionTracer.Events.{TraceEvent, told, client_after, on_event, message}

module _ (pan : Pan) (quic : Quic pan) {T : Type 0} (ct : ServerConnectionTracer pan quic T)
    (wire : ConnectionTracerMsg pan quic → ConnectionTracerMsg pan quic) where
  -- the handler that net/rpc finds under a name
  unfoldable pub find_method : String → Option (Handler pan quic ct)
  find_method name =
      if str_eq name "ConnectionTracerServer.NewTracerForConnection"
      then some (Server.new_tracer_for_connection pan quic ct)
      else if str_eq name "ConnectionTracerServer.StartedConnection"
      then some (Server.started_connection pan quic ct)
      else if str_eq name "ConnectionTracerServer.NegotiatedVersion"
      then some (Server.negotiated_version pan quic ct)
      else if str_eq name "ConnectionTracerServer.ClosedConnection"
      then some (Server.closed_connection pan quic ct)
      else if str_eq name "ConnectionTracerServer.SentTransportParameters"
      then some (Server.sent_transport_parameters pan quic ct)
      else if str_eq name "ConnectionTracerServer.ReceivedTransportParameters"
      then some (Server.received_transport_parameters pan quic ct)
      else if str_eq name "ConnectionTracerServer.RestoredTransportParameters"
      then some (Server.restored_transport_parameters pan quic ct)
      else if str_eq name "ConnectionTracerServer.SentPacket"
      then some (Server.sent_packet pan quic ct)
      else if str_eq name "ConnectionTracerServer.ReceivedVersionNegotiationPacket"
      then some (Server.received_version_negotiation_packet pan quic ct)
      else if str_eq name "ConnectionTracerServer.ReceivedRetry"
      then some (Server.received_retry pan quic ct)
      else if str_eq name "ConnectionTracerServer.ReceivedPacket"
      then some (Server.received_packet pan quic ct)
      else if str_eq name "ConnectionTracerServer.BufferedPacket"
      then some (Server.buffered_packet pan quic ct)
      else if str_eq name "ConnectionTracerServer.DroppedPacket"
      then some (Server.dropped_packet pan quic ct)
      else if str_eq name "ConnectionTracerServer.UpdatedMetrics"
      then some (Server.updated_metrics pan quic ct)
      else if str_eq name "ConnectionTracerServer.AcknowledgedPacket"
      then some (Server.acknowledged_packet pan quic ct)
      else if str_eq name "ConnectionTracerServer.LostPacket"
      then some (Server.lost_packet pan quic ct)
      else if str_eq name "ConnectionTracerServer.UpdatedCongestionState"
      then some (Server.updated_congestion_state pan quic ct)
      else if str_eq name "ConnectionTracerServer.UpdatedPTOCount"
      then some (Server.updated_pto_count pan quic ct)
      else if str_eq name "ConnectionTracerServer.UpdatedKeyFromTLS"
      then some (Server.updated_key_from_tls pan quic ct)
      else if str_eq name "ConnectionTracerServer.UpdatedKey"
      then some (Server.updated_key pan quic ct)
      else if str_eq name "ConnectionTracerServer.DroppedEncryptionLevel"
      then some (Server.dropped_encryption_level pan quic ct)
      else if str_eq name "ConnectionTracerServer.DroppedKey"
      then some (Server.dropped_key pan quic ct)
      else if str_eq name "ConnectionTracerServer.SetLossTimer"
      then some (Server.set_loss_timer pan quic ct)
      else if str_eq name "ConnectionTracerServer.LossTimerExpired"
      then some (Server.loss_timer_expired pan quic ct)
      else if str_eq name "ConnectionTracerServer.LossTimerCanceled"
      then some (Server.loss_timer_canceled pan quic ct)
      else if str_eq name "ConnectionTracerServer.Close"
      then some (Server.close pan quic ct)
      else if str_eq name "ConnectionTracerServer.Debug"
      then some (Server.debug pan quic ct)
      else none

  abbrev pub outcome : Run (Err × T) → World T → Err × World T
  outcome (returns (none, t)) w = (none, record w { daemon = some t })
  outcome (returns (some e, t)) w = (some (over_wire e), record w { daemon = some t })
  outcome panics w = (some err_unexpected_eof, record w { daemon = none })
  outcome exits w = (some err_unexpected_eof, record w { daemon = none })

  abbrev pub deliver :
      Option (Handler pan quic ct)
      → ConnectionTracerMsg pan quic
      → Option T
      → World T
      → Err × World T
  deliver handler args none w = (some err_shutdown, w)
  deliver none args (some t) w = (some (Error.foreign "rpc: can't find method"), w)
  deliver (some handler) args (some t) w = outcome (handler (wire args) t) w

  unfoldable pub call : Client.Call pan quic (World T)
  unfolding find_method
  call name args w =
      if w.connected then deliver (find_method name) args w.daemon w else (some err_shutdown, w)

  -- what becomes of the client: an error of any kind ends it
  abbrev pub verdict :
      ConnectionTracerClient pan quic
      → Run (Err × T)
      → Run (ConnectionTracerClient pan quic × World T)
  verdict c (returns (none, t)) = returns (c, running t)
  verdict c (returns (some _, _)) = exits
  verdict c panics = exits
  verdict c exits = exits

  verdict-outcome :
      (r : Run (Err × T)) (c : ConnectionTracerClient pan quic) (t : T)
      → Client.or_fatal pan quic call (outcome r (running t)).0 c (outcome r (running t)).1
        ≡ verdict c r
  verdict-outcome (returns (none, t')) c t = refl
  verdict-outcome (returns (some e, t')) c t = refl
  verdict-outcome panics c t = refl
  verdict-outcome exits c t = refl

  -- If the wire passes the message of an event on unchanged, as gob does not where a pointer in it
  -- leads to a zero value, the event makes exactly one call of the daemon's tracer, with the
  -- connection's addresses and the event's data but for the frames of a sent or a received packet, an
  -- error as its text; and the client goes on with its addresses if and only if that call returns no
  -- error; otherwise the application ends.
  pub event_delivered :
      (e : TraceEvent pan quic) (c : ConnectionTracerClient pan quic)
      (wired : wire (message pan quic e c) ≡ message pan quic e c) (t : T)
      → on_event pan quic call e c (running t)
        ≡ verdict (client_after pan quic e c) (ct (told pan quic e c) t)
  unfolding on_event call Client.started_connection Client.negotiated_version
      Client.closed_connection Client.sent_transport_parameters Client.received_transport_parameters
      Client.restored_transport_parameters Client.sent_packet
      Client.received_version_negotiation_packet Client.received_retry Client.received_packet
      Client.buffered_packet Client.dropped_packet Client.updated_metrics Client.acknowledged_packet
      Client.lost_packet Client.updated_congestion_state Client.updated_pto_count
      Client.updated_key_from_tls Client.updated_key Client.dropped_encryption_level
      Client.dropped_key Client.set_loss_timer Client.loss_timer_expired Client.loss_timer_canceled
      Client.close Client.debug Server.started_connection Server.negotiated_version
      Server.closed_connection Server.sent_transport_parameters Server.received_transport_parameters
      Server.restored_transport_parameters Server.sent_packet
      Server.received_version_negotiation_packet Server.received_retry Server.received_packet
      Server.buffered_packet Server.dropped_packet Server.updated_metrics Server.acknowledged_packet
      Server.lost_packet Server.updated_congestion_state Server.updated_pto_count
      Server.updated_key_from_tls Server.updated_key Server.dropped_encryption_level
      Server.dropped_key Server.set_loss_timer Server.loss_timer_expired Server.loss_timer_canceled
      Server.close Server.debug
  event_delivered (TraceEvent.started_connection l r src dest) c wired t =
      simp wired (verdict-outcome _ _ t)
  event_delivered TraceEvent.close c wired t = simp wired (verdict-outcome _ _ t)
  event_delivered _ c wired t = simp wired (verdict-outcome _ _ t)
