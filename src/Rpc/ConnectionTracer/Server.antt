-- ===== src/Rpc/ConnectionTracer/Server.antt =====
-- `ConnectionTracerServer` of rpc/connection_tracer.go: the handlers in the daemon.
use panapi.Prelude.{none, some, ◌||◌, is_nil, if◌then◌else◌}
use panapi.Golang.{Error, Err, Run, returns, deref, ◌>>=◌}
use panapi.Pan.{Pan}
use panapi.Rpc.SelectorServer.{err_deref}
use panapi.Rpc.ConnectionTracer.{Quic, ConnectionTracerMsg, TracerCall, ServerConnectionTracer}

module _ (pan : Pan) (quic : Quic pan) {T : Type 0} (ct : ServerConnectionTracer pan quic T) where
  -- a handler; the reply, a `NilMsg`, holds nothing
  abbrev pub Handler : Type 0
  Handler = ConnectionTracerMsg pan quic → T → Run (Err × T)

  unfoldable pub new_tracer_for_connection : Handler
  new_tracer_for_connection args t = if is_nil args.odc_id then returns (some err_deref, t) else do
    odcid ← deref args.odc_id
    ct (TracerCall.tracer_for_connection args.tracing_id args.perspective odcid) t

  unfoldable pub started_connection : Handler
  started_connection args t =
      if is_nil args.local
        || is_nil args.remote
        || is_nil args.src_conn_id
        || is_nil args.dest_conn_id
      then returns (some err_deref, t)
      else do
        src ← deref args.src_conn_id
        dest ← deref args.dest_conn_id
        ct (TracerCall.started_connection args.local args.remote src dest) t

  unfoldable pub negotiated_version : Handler
  negotiated_version args t =
      ct
        (TracerCall.negotiated_version args.local args.remote args.chosen args.client_versions
          args.server_versions)
        t

  unfoldable pub closed_connection : Handler
  closed_connection args t = elim args.error_msg [
    | none ↦ ct (TracerCall.closed_connection args.local args.remote none) t
    | some msg ↦ ct (TracerCall.closed_connection args.local args.remote (some (Error.new msg))) t
  ]

  unfoldable pub sent_transport_parameters : Handler
  sent_transport_parameters args t =
      ct (TracerCall.sent_transport_parameters args.local args.remote args.parameters) t

  unfoldable pub received_transport_parameters : Handler
  received_transport_parameters args t =
      ct (TracerCall.received_transport_parameters args.local args.remote args.parameters) t

  unfoldable pub restored_transport_parameters : Handler
  restored_transport_parameters args t =
      ct (TracerCall.restored_transport_parameters args.local args.remote args.parameters) t

  unfoldable pub sent_packet : Handler
  sent_packet args t =
      ct
        (TracerCall.sent_packet args.local args.remote args.extended_header args.byte_count
          args.ack_frame args.frames)
        t

  unfoldable pub received_version_negotiation_packet : Handler
  received_version_negotiation_packet args t =
      ct
        (TracerCall.received_version_negotiation_packet args.local args.remote args.header
          args.versions)
        t

  unfoldable pub received_retry : Handler
  received_retry args t = ct (TracerCall.received_retry args.local args.remote args.header) t

  unfoldable pub received_packet : Handler
  received_packet args t =
      ct
        (TracerCall.received_packet args.local args.remote args.extended_header args.byte_count
          args.frames)
        t

  unfoldable pub buffered_packet : Handler
  buffered_packet args t = ct (TracerCall.buffered_packet args.local args.remote args.packet_type) t

  unfoldable pub dropped_packet : Handler
  dropped_packet args t =
      ct
        (TracerCall.dropped_packet args.local args.remote args.packet_type args.byte_count
          args.drop_reason)
        t

  unfoldable pub updated_metrics : Handler
  updated_metrics args t =
      ct
        (TracerCall.updated_metrics args.local args.remote args.rtt_stats args.cwnd args.byte_count
          args.packets)
        t

  unfoldable pub acknowledged_packet : Handler
  acknowledged_packet args t =
      ct
        (TracerCall.acknowledged_packet args.local args.remote args.encryption_level
          args.packet_number)
        t

  unfoldable pub lost_packet : Handler
  lost_packet args t =
      ct
        (TracerCall.lost_packet args.local args.remote args.encryption_level args.packet_number
          args.loss_reason)
        t

  unfoldable pub updated_congestion_state : Handler
  updated_congestion_state args t =
      ct (TracerCall.updated_congestion_state args.local args.remote args.congestion_state) t

  unfoldable pub updated_pto_count : Handler
  updated_pto_count args t =
      ct (TracerCall.updated_pto_count args.local args.remote args.pto_count) t

  unfoldable pub updated_key_from_tls : Handler
  updated_key_from_tls args t =
      ct
        (TracerCall.updated_key_from_tls args.local args.remote args.encryption_level
          args.perspective)
        t

  unfoldable pub updated_key : Handler
  updated_key args t =
      ct (TracerCall.updated_key args.local args.remote args.generation args.bool) t

  unfoldable pub dropped_encryption_level : Handler
  dropped_encryption_level args t =
      ct (TracerCall.dropped_encryption_level args.local args.remote args.encryption_level) t

  unfoldable pub dropped_key : Handler
  dropped_key args t = ct (TracerCall.dropped_key args.local args.remote args.generation) t

  unfoldable pub set_loss_timer : Handler
  set_loss_timer args t = if is_nil args.time then returns (some err_deref, t) else do
    time ← deref args.time
    ct (TracerCall.set_loss_timer args.local args.remote args.timer_type args.encryption_level time)
        t

  unfoldable pub loss_timer_expired : Handler
  loss_timer_expired args t =
      ct
        (TracerCall.loss_timer_expired args.local args.remote args.timer_type args.encryption_level)
        t

  unfoldable pub loss_timer_canceled : Handler
  loss_timer_canceled args t = ct (TracerCall.loss_timer_canceled args.local args.remote) t

  unfoldable pub close : Handler
  close args t = ct (TracerCall.close args.local args.remote) t

  unfoldable pub debug : Handler
  debug args t = if is_nil args.key || is_nil args.value then returns (some err_deref, t) else do
    key ← deref args.key
    value ← deref args.value
    ct (TracerCall.debug args.local args.remote key value) t
