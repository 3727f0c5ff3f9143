-- ===== src/Lua/StatsTables.antt =====
-- lua/stats.go: the tables that the statistics functions of a script get.
use panapi.Prelude.{String, Option, none, some}
use panapi.Pan.{Pan}
use panapi.Rpc.ConnectionTracer.{Quic, RttStats, TransportParameters}
use panapi.Lua.Values.{
  LValue, nil_table, bool, number, float, string, table, Fields, field, end, done,
}

preferred_field : {pan : Pan} → Option String → Fields pan → Fields pan
preferred_field none rest = rest
preferred_field (some a) rest = field "PreferredAddress" (string a) rest

-- `new_lua_parameters`; for nil it gives a nil table
unfoldable pub new_lua_parameters : (pan : Pan) → Option TransportParameters → LValue pan
unfolding preferred_field
new_lua_parameters pan none = nil_table
new_lua_parameters pan (some p) =
    table
      (field "InitialMaxStreamDataBidiLocal" (number pan p.initial_max_stream_data_bidi_local) (
        field "InitialMaxStreamDataBidiRemote" (number pan p.initial_max_stream_data_bidi_remote) (
          field "InitialMaxStreamDataUni" (number pan p.initial_max_stream_data_uni) (
            field "InitialMaxData" (number pan p.initial_max_data) (
              field "MaxAckDelay" (number pan p.max_ack_delay) (
                field "AckDelayExponent" (number pan p.ack_delay_exponent) (
                  field "DisableActiveMigration" (bool p.disable_active_migration) (
                    field "MaxUDPPayloadSize" (number pan p.max_udp_payload_size) (
                      field "MaxUniStreamNum" (number pan p.max_uni_stream_num) (
                        field "MaxBidiStreamNum" (number pan p.max_bidi_stream_num) (
                          field "MaxIdleTimeout" (number pan p.max_idle_timeout) (
                            preferred_field p.preferred_address (
                              field "OriginalDestinationConnectionID"
                                (string p.original_destination_connection_id)
                                (field "InitialSourceConnectionID"
                                  (string p.initial_source_connection_id)
                                  (field "RetrySourceConnectionID"
                                    (string p.retry_source_connection_id)
                                    (field "StatelessResetToken" (string p.stateless_reset_token) (
                                      field "ActiveConnectionIDLimit"
                                        (number pan p.active_connection_id_limit)
                                        (field "MaxDatagramFrameSize"
                                          (number pan p.max_datagram_frame_size)
                                          end))))))))))))))))))
      done

-- `new_lua_rtt_stats`; for nil it gives a nil table
unfoldable pub new_lua_rtt_stats : (pan : Pan) → Quic pan → Option RttStats → LValue pan
new_lua_rtt_stats pan quic none = nil_table
new_lua_rtt_stats pan quic (some stats) =
    table
      (field "LatestRTT" (float (quic.seconds stats.latest_rtt)) (
        field "MaxAckDelay" (float (quic.seconds stats.max_ack_delay)) (
          field "MeanDeviation" (float (quic.seconds stats.mean_deviation)) (
            field "MinRTT" (float (quic.seconds stats.min_rtt)) (
              field "PTO" (float (quic.seconds stats.pto))
                (field "SmoothedRTT" (float (quic.seconds stats.smoothed_rtt)) end))))))
      done
