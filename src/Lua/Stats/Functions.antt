-- ===== src/Lua/Stats/Functions.antt =====
-- Which function of the script each call of the tracer reaches.
use panapi.Prelude.{String, [], ◌≡◌}
use panapi.Prelude.GoMap.{lookup, insert}
use panapi.Pan.{Pan}
use panapi.Rpc.ConnectionTracer.{Quic, TracerCall}
use panapi.Lua.Values.{LValue, nil, host, ignore}
use panapi.Lua.Interpreter.{Interpreter, IsDocumented}
use panapi.Lua.Stats.{new_stats, stats_functions, ignored}

module _ (pan : Pan) (quic : Quic pan) where
  -- the name of a method is the name of the script's function
  abbrev pub function_name : TracerCall pan quic → String
  function_name (TracerCall.tracer_for_connection _ _ _) = "TracerForConnection"
  function_name (TracerCall.started_connection _ _ _ _) = "StartedConnection"
  function_name (TracerCall.negotiated_version _ _ _ _ _) = "NegotiatedVersion"
  function_name (TracerCall.closed_connection _ _ _) = "ClosedConnection"
  function_name (TracerCall.sent_transport_parameters _ _ _) = "SentTransportParameters"
  function_name (TracerCall.received_transport_parameters _ _ _) = "ReceivedTransportParameters"
  function_name (TracerCall.restored_transport_parameters _ _ _) = "RestoredTransportParameters"
  function_name (TracerCall.sent_packet _ _ _ _ _ _) = "SentPacket"
  function_name (TracerCall.received_version_negotiation_packet _ _ _ _) =
      "ReceivedVersionNegotiationPacket"
  function_name (TracerCall.received_retry _ _ _) = "ReceivedRetry"
  function_name (TracerCall.received_packet _ _ _ _ _) = "ReceivedPacket"
  function_name (TracerCall.buffered_packet _ _ _) = "BufferedPacket"
  function_name (TracerCall.dropped_packet _ _ _ _ _) = "DroppedPacket"
  function_name (TracerCall.updated_metrics _ _ _ _ _ _) = "UpdatedMetrics"
  function_name (TracerCall.acknowledged_packet _ _ _ _) = "AcknowledgedPacket"
  function_name (TracerCall.lost_packet _ _ _ _ _) = "LostPacket"
  function_name (TracerCall.updated_congestion_state _ _ _) = "UpdatedCongestionState"
  function_name (TracerCall.updated_pto_count _ _ _) = "UpdatedPTOCount"
  function_name (TracerCall.updated_key_from_tls _ _ _ _) = "UpdatedKeyFromTLS"
  function_name (TracerCall.updated_key _ _ _ _) = "UpdatedKey"
  function_name (TracerCall.dropped_encryption_level _ _ _) = "DroppedEncryptionLevel"
  function_name (TracerCall.dropped_key _ _ _) = "DroppedKey"
  function_name (TracerCall.set_loss_timer _ _ _ _ _) = "SetLossTimer"
  function_name (TracerCall.loss_timer_expired _ _ _ _) = "LossTimerExpired"
  function_name (TracerCall.loss_timer_canceled _ _) = "LossTimerCanceled"
  function_name (TracerCall.close _ _) = "Close"
  function_name (TracerCall.debug _ _ _ _) = "Debug"

  -- what a module that `NewStats` has registered holds for a call
  abbrev pub stand_in : TracerCall pan quic → LValue pan
  stand_in (TracerCall.close _ _) = nil
  stand_in _ = host ignore

module _ (pan : Pan) (quic : Quic pan) {L : Type 0} (api : Interpreter pan L) where
  -- In an interpreter without the module, `NewStats` registers a function for every call of the
  -- tracer but `Close`, which has none.
  pub new_stats_functions :
      (doc : IsDocumented api) (q : TracerCall pan quic) (s : L)
      → ((key : String) → api.raw_get_string "stats" key s ≡ nil)
      → api.raw_get_string "stats" (function_name pan quic q) (new_stats pan quic api s)
        ≡ stand_in pan quic q
  unfolding new_stats lookup insert
  new_stats_functions doc (TracerCall.close l r) s h =
      doc.registered "stats" (ignored stats_functions []) "Close" s h
  new_stats_functions doc q s h =
      doc.registered "stats" (ignored stats_functions []) (function_name pan quic q) s h
