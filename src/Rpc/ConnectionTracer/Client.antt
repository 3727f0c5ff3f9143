-- ===== src/Rpc/ConnectionTracer/Client.antt =====
-- `ConnectionTracerClient` of rpc/connection_tracer.go: each event of a connection becomes a call
-- of the daemon. `log.Fatalln` ends the application.
use panapi.Prelude.{ℕ, String, Bool, Option, none, some, List}
use panapi.Golang.{Error, Err, Run, returns, exits}
use panapi.Pan.{Pan}
use panapi.Rpc.ConnectionTracer.{
  Quic, RttStats, new_rtt_stats, TransportParameters, error_text, ConnectionTracerMsg, blank,
}

pub record ConnectionTracerClient (pan : Pan) (quic : Quic pan) : Type 0 where
  pub id : ℕ  -- of the `Client`
  pub p : ℕ
  pub odcid : quic.ConnectionId
  pub tracing_id : ℕ
  pub local : Option pan.UdpAddr
  pub remote : Option pan.UdpAddr

-- `Client.Call` with a `NilMsg` for the reply
abbrev pub Call : (pan : Pan) → Quic pan → Type 0 → Type 0
Call pan quic W = String → ConnectionTracerMsg pan quic → W → Err × W

module _ (pan : Pan) (quic : Quic pan) where
  unfoldable pub new_msg : ConnectionTracerClient pan quic → ConnectionTracerMsg pan quic
  new_msg c = record (blank pan quic) {
    perspective = c.p;
    odc_id = some c.odcid;
    id = c.id;
    tracing_id = c.tracing_id;
    local = c.local;
    remote = c.remote;
  }

  module _ {W : Type 0} (call : Call pan quic W) where
    -- `if err != nil { c.l.Fatalln(err) }`
    abbrev pub or_fatal :
        Err → ConnectionTracerClient pan quic → W → Run (ConnectionTracerClient pan quic × W)
    or_fatal none c w = returns (c, w)
    or_fatal (some _) c w = exits

    abbrev send :
        String
        → ConnectionTracerMsg pan quic
        → ConnectionTracerClient pan quic
        → W
        → Run (ConnectionTracerClient pan quic × W)
    send method msg c w = let (err, w') = call method msg w in or_fatal err c w'

    -- a method of the client
    abbrev pub Method : Type 0
    Method = ConnectionTracerClient pan quic → W → Run (ConnectionTracerClient pan quic × W)

    unfoldable pub new_connection_tracer_client :
        ℕ → ℕ → ℕ → quic.ConnectionId → W → Run (ConnectionTracerClient pan quic × W)
    new_connection_tracer_client client_id id p odcid w =
        send "ConnectionTracerServer.NewTracerForConnection"
          (record (blank pan quic) {
            perspective = p;
            odc_id = some odcid;
            id = client_id;
            tracing_id = id;
          })
          (record {
            id = client_id;
            p = p;
            odcid = odcid;
            tracing_id = id;
            local = none;
            remote = none;
          })
          w

    unfoldable pub started_connection :
        pan.UdpAddr → pan.UdpAddr → quic.ConnectionId → quic.ConnectionId → Method
    unfolding new_msg
    started_connection local remote src_conn_id dest_conn_id c w =
        send "ConnectionTracerServer.StartedConnection"
          (record (new_msg c) {
            local = some local;
            remote = some remote;
            src_conn_id = some src_conn_id;
            dest_conn_id = some dest_conn_id;
          })
          (record c { local = some local; remote = some remote }) w

    unfoldable pub negotiated_version : ℕ → List ℕ → List ℕ → Method
    unfolding new_msg
    negotiated_version chosen client_versions server_versions c w =
        send "ConnectionTracerServer.NegotiatedVersion"
          (record (new_msg c) {
            chosen = chosen;
            client_versions = client_versions;
            server_versions = server_versions;
          })
          c w

    unfoldable pub closed_connection : Error → Method
    unfolding new_msg
    closed_connection e c w =
        send "ConnectionTracerServer.ClosedConnection"
          (record (new_msg c) { error_msg = some (error_text e) }) c w

    unfoldable pub sent_transport_parameters : Option TransportParameters → Method
    unfolding new_msg
    sent_transport_parameters parameters c w =
        send "ConnectionTracerServer.SentTransportParameters"
          (record (new_msg c) { parameters = parameters }) c w

    unfoldable pub received_transport_parameters : Option TransportParameters → Method
    unfolding new_msg
    received_transport_parameters parameters c w =
        send "ConnectionTracerServer.ReceivedTransportParameters"
          (record (new_msg c) { parameters = parameters }) c w

    unfoldable pub restored_transport_parameters : Option TransportParameters → Method
    unfolding new_msg
    restored_transport_parameters parameters c w =
        send "ConnectionTracerServer.RestoredTransportParameters"
          (record (new_msg c) { parameters = parameters }) c w

    unfoldable pub sent_packet :
        Option quic.ExtendedHeader → ℕ → Option quic.AckFrame → List quic.Frame → Method
    unfolding new_msg
    sent_packet hdr size ack frames c w =
        send "ConnectionTracerServer.SentPacket"
          (record (new_msg c) { extended_header = hdr; byte_count = size; ack_frame = ack }) c w

    unfoldable pub received_version_negotiation_packet : Option quic.Header → List ℕ → Method
    unfolding new_msg
    received_version_negotiation_packet hdr versions c w =
        send "ConnectionTracerServer.ReceivedVersionNegotiationPacket"
          (record (new_msg c) { header = hdr; versions = versions }) c w

    unfoldable pub received_retry : Option quic.Header → Method
    unfolding new_msg
    received_retry hdr c w =
        send "ConnectionTracerServer.ReceivedRetry" (record (new_msg c) { header = hdr }) c w

    unfoldable pub received_packet : Option quic.ExtendedHeader → ℕ → List quic.Frame → Method
    unfolding new_msg
    received_packet hdr size frames c w =
        send "ConnectionTracerServer.ReceivedPacket"
          (record (new_msg c) { extended_header = hdr; byte_count = size }) c w

    unfoldable pub buffered_packet : ℕ → Method
    unfolding new_msg
    buffered_packet ptype c w =
        send "ConnectionTracerServer.BufferedPacket" (record (new_msg c) { packet_type = ptype }) c
          w

    unfoldable pub dropped_packet : ℕ → ℕ → ℕ → Method
    unfolding new_msg
    dropped_packet ptype size reason c w =
        send "ConnectionTracerServer.DroppedPacket"
          (record (new_msg c) { packet_type = ptype; byte_count = size; drop_reason = reason }) c w

    unfoldable pub updated_metrics : RttStats → ℕ → ℕ → ℕ → Method
    unfolding new_msg new_rtt_stats
    updated_metrics rtt_stats cwnd bytes_in_flight packets_in_flight c w =
        send "ConnectionTracerServer.UpdatedMetrics"
          (record (new_msg c) {
            cwnd = cwnd;
            byte_count = bytes_in_flight;
            packets = packets_in_flight;
            rtt_stats = some (new_rtt_stats rtt_stats);
          })
          c w

    unfoldable pub acknowledged_packet : ℕ → ℕ → Method
    unfolding new_msg
    acknowledged_packet level pnum c w =
        send "ConnectionTracerServer.AcknowledgedPacket"
          (record (new_msg c) { encryption_level = level; packet_number = pnum }) c w

    unfoldable pub lost_packet : ℕ → ℕ → ℕ → Method
    unfolding new_msg
    lost_packet level pnum reason c w =
        send "ConnectionTracerServer.LostPacket"
          (record (new_msg c) {
            encryption_level = level;
            packet_number = pnum;
            loss_reason = reason;
          })
          c w

    unfoldable pub updated_congestion_state : ℕ → Method
    unfolding new_msg
    updated_congestion_state state c w =
        send "ConnectionTracerServer.UpdatedCongestionState"
          (record (new_msg c) { congestion_state = state }) c w

    unfoldable pub updated_pto_count : ℕ → Method
    unfolding new_msg
    updated_pto_count value c w =
        send "ConnectionTracerServer.UpdatedPTOCount" (record (new_msg c) { pto_count = value }) c w

    unfoldable pub updated_key_from_tls : ℕ → ℕ → Method
    unfolding new_msg
    updated_key_from_tls level p c w =
        send "ConnectionTracerServer.UpdatedKeyFromTLS"
          (record (new_msg c) { encryption_level = level; perspective = p }) c w

    unfoldable pub updated_key : ℕ → Bool → Method
    unfolding new_msg
    updated_key generation remote c w =
        send "ConnectionTracerServer.UpdatedKey"
          (record (new_msg c) { generation = generation; bool = remote }) c w

    unfoldable pub dropped_encryption_level : ℕ → Method
    unfolding new_msg
    dropped_encryption_level level c w =
        send "ConnectionTracerServer.DroppedEncryptionLevel"
          (record (new_msg c) { encryption_level = level }) c w

    unfoldable pub dropped_key : ℕ → Method
    unfolding new_msg
    dropped_key generation c w =
        send "ConnectionTracerServer.DroppedKey" (record (new_msg c) { generation = generation }) c
          w

    unfoldable pub set_loss_timer : ℕ → ℕ → pan.Time → Method
    unfolding new_msg
    set_loss_timer ttype level t c w =
        send "ConnectionTracerServer.SetLossTimer"
          (record (new_msg c) { timer_type = ttype; encryption_level = level; time = some t }) c w

    unfoldable pub loss_timer_expired : ℕ → ℕ → Method
    unfolding new_msg
    loss_timer_expired ttype level c w =
        send "ConnectionTracerServer.LossTimerExpired"
          (record (new_msg c) { timer_type = ttype; encryption_level = level }) c w

    unfoldable pub loss_timer_canceled : Method
    unfolding new_msg
    loss_timer_canceled c w = send "ConnectionTracerServer.LossTimerCanceled" (new_msg c) c w

    unfoldable pub close : Method
    unfolding new_msg
    close c w = send "ConnectionTracerServer.Close" (new_msg c) c w

    unfoldable pub debug : String → String → Method
    unfolding new_msg
    debug name msg c w =
        send "ConnectionTracerServer.Debug"
          (record (new_msg c) { key = some name; value = some msg }) c w
