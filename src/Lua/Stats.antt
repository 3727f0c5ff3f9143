-- ===== src/Lua/Stats.antt =====
-- `Stats` of lua/stats.go: each call of the tracer becomes a call of a function of the script. The
-- state is the interpreter's.
pub mod Functions
pub mod ClosePath
use panapi.Prelude.{ℕ, String, Bool, Option, none, some, List, [], ◌∷◌, map}
use panapi.Prelude.GoMap.{GoMap, insert}
use panapi.Golang.{Error, Err, Run, returns, panics}
use panapi.Pan.{Pan}
use panapi.Rpc.ConnectionTracer.{
  Quic, RttStats, TransportParameters, error_text, TracerCall, ServerConnectionTracer,
}
use panapi.Lua.Values.{LValue, bool, number, string, array, HostFunction, ignore}
use panapi.Lua.StatsTables.{new_lua_parameters, new_lua_rtt_stats}
use panapi.Lua.Interpreter.{Interpreter}

-- the names in `NewStats`
abbrev pub stats_functions : List String
stats_functions =
    "TracerForConnection" ∷ "StartedConnection" ∷ "NegotiatedVersion" ∷ "ClosedConnection"
    ∷ "SentTransportParameters" ∷ "ReceivedTransportParameters" ∷ "RestoredTransportParameters"
    ∷ "SentPacket" ∷ "ReceivedVersionNegotiationPacket" ∷ "ReceivedRetry" ∷ "ReceivedPacket"
    ∷ "BufferedPacket" ∷ "DroppedPacket" ∷ "UpdatedMetrics" ∷ "AcknowledgedPacket" ∷ "LostPacket"
    ∷ "UpdatedCongestionState" ∷ "UpdatedPTOCount" ∷ "UpdatedKeyFromTLS" ∷ "UpdatedKey"
    ∷ "DroppedEncryptionLevel" ∷ "DroppedKey" ∷ "SetLossTimer" ∷ "LossTimerExpired"
    ∷ "LossTimerCanceled" ∷ "Debug" ∷ []

-- the loop of `NewStats` over the names
unfoldable pub ignored : List String → GoMap HostFunction → GoMap HostFunction
ignored [] table = table
ignored (fn ∷ fns) table = ignored fns (insert fn ignore table)

-- `strhlpr` of an address: a nil pointer prints as `<nil>`
abbrev pub address : {pan : Pan} → Option pan.UdpAddr → LValue pan
address none = string "<nil>"
address {pan} (some a) = string (pan.addr_string a)

module _ (pan : Pan) (quic : Quic pan) {L : Type 0} (api : Interpreter pan L) where
  -- `NewStats`
  unfoldable pub new_stats : L → L
  unfolding ignored
  new_stats state = api.register_module "stats" (ignored stats_functions []) state

  abbrev pub call_function : String → List (LValue pan) → L → Run (Err × L)
  call_function fn args s = returns (api.call_by_param (api.raw_get_string "stats" fn s) 0 args s)

  -- the table that a loop of `Append` over versions fills
  abbrev versions_table : List ℕ → LValue pan
  versions_table vs = array pan (map (λ v. string (quic.version_string v)) vs)

  abbrev Method : Type 0
  Method = L → Run (Err × L)

  unfoldable pub tracer_for_connection : ℕ → ℕ → quic.ConnectionId → Method
  tracer_for_connection tracer_id p odcid =
      call_function "TracerForConnection"
        (number pan tracer_id ∷ number pan p ∷ string (quic.conn_id_string odcid) ∷ [])

  unfoldable pub started_connection :
      Option pan.UdpAddr → Option pan.UdpAddr → quic.ConnectionId → quic.ConnectionId → Method
  started_connection local remote src dest = call_function "StartedConnection" (
      address {pan = pan} local
      ∷ address {pan = pan} remote
      ∷ string (quic.conn_id_string src)
      ∷ string (quic.conn_id_string dest)
      ∷ [])

  unfoldable pub negotiated_version :
      Option pan.UdpAddr → Option pan.UdpAddr → ℕ → List ℕ → List ℕ → Method
  negotiated_version local remote chosen client_versions server_versions =
      call_function "NegotiatedVersion" (
        address {pan = pan} local
        ∷ address {pan = pan} remote
        ∷ string (quic.version_string chosen)
        ∷ versions_table client_versions
        ∷ versions_table server_versions
        ∷ [])

  -- `err.Error()` of a nil error panics
  unfoldable pub closed_connection : Option pan.UdpAddr → Option pan.UdpAddr → Option Error → Method
  closed_connection local remote none s = panics
  closed_connection local remote (some err) s =
      call_function "ClosedConnection"
        (address {pan = pan} local ∷ address {pan = pan} remote ∷ string (error_text err) ∷ []) s

  unfoldable pub sent_transport_parameters :
      Option pan.UdpAddr → Option pan.UdpAddr → Option TransportParameters → Method
  unfolding new_lua_parameters
  sent_transport_parameters local remote parameters = call_function "SentTransportParameters" (
      address {pan = pan} local
      ∷ address {pan = pan} remote
      ∷ new_lua_parameters pan parameters
      ∷ [])

  unfoldable pub received_transport_parameters :
      Option pan.UdpAddr → Option pan.UdpAddr → Option TransportParameters → Method
  unfolding new_lua_parameters
  received_transport_parameters local remote parameters =
      call_function "ReceivedTransportParameters" (
        address {pan = pan} local
        ∷ address {pan = pan} remote
        ∷ new_lua_parameters pan parameters
        ∷ [])

  unfoldable pub restored_transport_parameters :
      Option pan.UdpAddr → Option pan.UdpAddr → Option TransportParameters → Method
  unfolding new_lua_parameters
  restored_transport_parameters local remote parameters =
      call_function "RestoredTransportParameters" (
        address {pan = pan} local
        ∷ address {pan = pan} remote
        ∷ new_lua_parameters pan parameters
        ∷ [])

  unfoldable pub sent_packet :
      Option pan.UdpAddr
      → Option pan.UdpAddr
      → Option quic.ExtendedHeader
      → ℕ
      → Option quic.AckFrame
      → List quic.Frame
      → Method
  sent_packet local remote hdr size ack frames =
      call_function "SentPacket"
        (address {pan = pan} local ∷ address {pan = pan} remote ∷ number pan size ∷ [])

  unfoldable pub received_version_negotiation_packet :
      Option pan.UdpAddr → Option pan.UdpAddr → Option quic.Header → List ℕ → Method
  received_version_negotiation_packet local remote hdr versions =
      call_function "ReceivedVersionNegotiationPacket"
        (address {pan = pan} local ∷ address {pan = pan} remote ∷ versions_table versions ∷ [])

  unfoldable pub received_retry :
      Option pan.UdpAddr → Option pan.UdpAddr → Option quic.Header → Method
  received_retry local remote hdr =
      call_function "ReceivedRetry" (address {pan = pan} local ∷ address {pan = pan} remote ∷ [])

  unfoldable pub received_packet :
      Option pan.UdpAddr
      → Option pan.UdpAddr
      → Option quic.ExtendedHeader
      → ℕ
      → List quic.Frame
      → Method
  received_packet local remote hdr size frames =
      call_function "ReceivedPacket" (address {pan = pan} local ∷ address {pan = pan} remote ∷ [])

  unfoldable pub buffered_packet : Option pan.UdpAddr → Option pan.UdpAddr → ℕ → Method
  buffered_packet local remote ptype =
      call_function "BufferedPacket"
        (address {pan = pan} local ∷ address {pan = pan} remote ∷ number pan ptype ∷ [])

  unfoldable pub dropped_packet : Option pan.UdpAddr → Option pan.UdpAddr → ℕ → ℕ → ℕ → Method
  dropped_packet local remote ptype size reason = call_function "DroppedPacket" (
      address {pan = pan} local
      ∷ address {pan = pan} remote
      ∷ number pan ptype
      ∷ number pan size
      ∷ number pan reason
      ∷ [])

  unfoldable pub updated_metrics :
      Option pan.UdpAddr → Option pan.UdpAddr → Option RttStats → ℕ → ℕ → ℕ → Method
  unfolding new_lua_rtt_stats
  updated_metrics local remote rtt_stats cwnd bytes_in_flight packets_in_flight =
      call_function "UpdatedMetrics" (
        address {pan = pan} local
        ∷ address {pan = pan} remote
        ∷ new_lua_rtt_stats pan quic rtt_stats
        ∷ number pan cwnd
        ∷ number pan bytes_in_flight
        ∷ number pan packets_in_flight
        ∷ [])

  unfoldable pub acknowledged_packet : Option pan.UdpAddr → Option pan.UdpAddr → ℕ → ℕ → Method
  acknowledged_packet local remote level num = call_function "AcknowledgedPacket" (
      address {pan = pan} local
      ∷ address {pan = pan} remote
      ∷ string (quic.level_string level)
      ∷ number pan num
      ∷ [])

  unfoldable pub lost_packet : Option pan.UdpAddr → Option pan.UdpAddr → ℕ → ℕ → ℕ → Method
  lost_packet local remote level num reason = call_function "LostPacket" (
      address {pan = pan} local
      ∷ address {pan = pan} remote
      ∷ string (quic.level_string level)
      ∷ number pan num
      ∷ number pan reason
      ∷ [])

  unfoldable pub updated_congestion_state : Option pan.UdpAddr → Option pan.UdpAddr → ℕ → Method
  updated_congestion_state local remote state =
      call_function "UpdatedCongestionState"
        (address {pan = pan} local ∷ address {pan = pan} remote ∷ number pan state ∷ [])

  unfoldable pub updated_pto_count : Option pan.UdpAddr → Option pan.UdpAddr → ℕ → Method
  updated_pto_count local remote value =
      call_function "UpdatedPTOCount"
        (address {pan = pan} local ∷ address {pan = pan} remote ∷ number pan value ∷ [])

  unfoldable pub updated_key_from_tls : Option pan.UdpAddr → Option pan.UdpAddr → ℕ → ℕ → Method
  updated_key_from_tls local remote level p = call_function "UpdatedKeyFromTLS" (
      address {pan = pan} local
      ∷ address {pan = pan} remote
      ∷ string (quic.level_string level)
      ∷ number pan p
      ∷ [])

  unfoldable pub updated_key : Option pan.UdpAddr → Option pan.UdpAddr → ℕ → Bool → Method
  updated_key local remote generation rmte = call_function "UpdatedKey" (
      address {pan = pan} local
      ∷ address {pan = pan} remote
      ∷ number pan generation
      ∷ bool rmte
      ∷ [])

  unfoldable pub dropped_encryption_level : Option pan.UdpAddr → Option pan.UdpAddr → ℕ → Method
  dropped_encryption_level local remote level = call_function "DroppedEncryptionLevel" (
      address {pan = pan} local
      ∷ address {pan = pan} remote
      ∷ string (quic.level_string level)
      ∷ [])

  unfoldable pub dropped_key : Option pan.UdpAddr → Option pan.UdpAddr → ℕ → Method
  dropped_key local remote generation =
      call_function "DroppedKey"
        (address {pan = pan} local ∷ address {pan = pan} remote ∷ number pan generation ∷ [])

  unfoldable pub set_loss_timer :
      Option pan.UdpAddr → Option pan.UdpAddr → ℕ → ℕ → pan.Time → Method
  set_loss_timer local remote ttype level t = call_function "SetLossTimer" (
      address {pan = pan} local
      ∷ address {pan = pan} remote
      ∷ number pan ttype
      ∷ string (quic.level_string level)
      ∷ string (pan.time_string t)
      ∷ [])

  unfoldable pub loss_timer_expired : Option pan.UdpAddr → Option pan.UdpAddr → ℕ → ℕ → Method
  loss_timer_expired local remote ttype level = call_function "LossTimerExpired" (
      address {pan = pan} local
      ∷ address {pan = pan} remote
      ∷ number pan ttype
      ∷ string (quic.level_string level)
      ∷ [])

  unfoldable pub loss_timer_canceled : Option pan.UdpAddr → Option pan.UdpAddr → Method
  loss_timer_canceled local remote =
      call_function "LossTimerCanceled"
        (address {pan = pan} local ∷ address {pan = pan} remote ∷ [])

  unfoldable pub close : Option pan.UdpAddr → Option pan.UdpAddr → Method
  close local remote =
      call_function "Close" (address {pan = pan} local ∷ address {pan = pan} remote ∷ [])

  unfoldable pub debug : Option pan.UdpAddr → Option pan.UdpAddr → String → String → Method
  debug local remote name msg =
      call_function "Debug"
        (address {pan = pan} local ∷ address {pan = pan} remote ∷ string name ∷ string msg ∷ [])

  -- `Stats` as a `ServerConnectionTracer`
  unfoldable pub stats : ServerConnectionTracer pan quic L
  unfolding tracer_for_connection started_connection negotiated_version closed_connection
      sent_transport_parameters received_transport_parameters restored_transport_parameters
      sent_packet received_version_negotiation_packet received_retry received_packet buffered_packet
      dropped_packet updated_metrics acknowledged_packet lost_packet updated_congestion_state
      updated_pto_count updated_key_from_tls updated_key dropped_encryption_level dropped_key
      set_loss_timer loss_timer_expired loss_timer_canceled close debug
  stats (TracerCall.tracer_for_connection id p odcid) = tracer_for_connection id p odcid
  stats (TracerCall.started_connection l r src dest) = started_connection l r src dest
  stats (TracerCall.negotiated_version l r chosen client_versions server_versions) =
      negotiated_version l r chosen client_versions server_versions
  stats (TracerCall.closed_connection l r err) = closed_connection l r err
  stats (TracerCall.sent_transport_parameters l r parameters) =
      sent_transport_parameters l r parameters
  stats (TracerCall.received_transport_parameters l r parameters) =
      received_transport_parameters l r parameters
  stats (TracerCall.restored_transport_parameters l r parameters) =
      restored_transport_parameters l r parameters
  stats (TracerCall.sent_packet l r hdr size ack frames) = sent_packet l r hdr size ack frames
  stats (TracerCall.received_version_negotiation_packet l r hdr versions) =
      received_version_negotiation_packet l r hdr versions
  stats (TracerCall.received_retry l r hdr) = received_retry l r hdr
  stats (TracerCall.received_packet l r hdr size frames) = received_packet l r hdr size frames
  stats (TracerCall.buffered_packet l r ptype) = buffered_packet l r ptype
  stats (TracerCall.dropped_packet l r ptype size reason) = dropped_packet l r ptype size reason
  stats (TracerCall.updated_metrics l r rtt_stats cwnd bytes_in_flight packets_in_flight) =
      updated_metrics l r rtt_stats cwnd bytes_in_flight packets_in_flight
  stats (TracerCall.acknowledged_packet l r level num) = acknowledged_packet l r level num
  stats (TracerCall.lost_packet l r level num reason) = lost_packet l r level num reason
  stats (TracerCall.updated_congestion_state l r state) = updated_congestion_state l r state
  stats (TracerCall.updated_pto_count l r value) = updated_pto_count l r value
  stats (TracerCall.updated_key_from_tls l r level p) = updated_key_from_tls l r level p
  stats (TracerCall.updated_key l r generation rmte) = updated_key l r generation rmte
  stats (TracerCall.dropped_encryption_level l r level) = dropped_encryption_level l r level
  stats (TracerCall.dropped_key l r generation) = dropped_key l r generation
  stats (TracerCall.set_loss_timer l r ttype level t) = set_loss_timer l r ttype level t
  stats (TracerCall.loss_timer_expired l r ttype level) = loss_timer_expired l r ttype level
  stats (TracerCall.loss_timer_canceled l r) = loss_timer_canceled l r
  stats (TracerCall.close l r) = close l r
  stats (TracerCall.debug l r name msg) = debug l r name msg
