-- ===== src/Lua/Stats/ClosePath.antt =====
-- The calls of the tracer that end the daemon or the application.
use panapi.Prelude.{String, none, some, List, [], ◌∷◌, ◌≡◌, ◌≢◌, refl, ◌∙◌}
use panapi.Golang.{Err, returns, panics, exits}
use panapi.Pan.{Pan}
use panapi.Rpc.Loopback.{running}
use panapi.Rpc.ConnectionTracer.{Quic, ConnectionTracerMsg, TracerCall}
use panapi.Rpc.ConnectionTracer.Client.{ConnectionTracerClient}
use panapi.Rpc.ConnectionTracer.Server
use panapi.Rpc.ConnectionTracer.Events.{TraceEvent, on_event, message}
use panapi.Rpc.ConnectionTracer.Delivery.{call, verdict, event_delivered}
use panapi.Lua.Values.{LValue, nil}
use panapi.Lua.Interpreter.{Interpreter, IsDocumented}
use panapi.Lua.Stats.{stats, address, new_stats}
use panapi.Lua.Stats.Functions.{new_stats_functions}

module _ (pan : Pan) (quic : Quic pan) {L : Type 0} (api : Interpreter pan L) where
  -- The server passes a closed connection without an error text on with a nil error, and the
  -- script's tracer ends the daemon on it.
  pub closed_without_error_panics :
      (args : ConnectionTracerMsg pan quic) (s : L)
      → args.error_msg ≡ none
      → Server.closed_connection pan quic (stats pan quic api) args s ≡ panics
  unfolding Server.closed_connection stats
  closed_without_error_panics args s h = rw h refl

  failed_exits :
      (wire : ConnectionTracerMsg pan quic → ConnectionTracerMsg pan quic) (o : Err × L)
      (c : ConnectionTracerClient pan quic)
      → o.0 ≢ none
      → verdict pan quic (stats pan quic api) wire c (returns o) ≡ exits
  failed_exits wire (none, s) c h = absurd (h refl)
  failed_exits wire (some e, s) c h = refl

  -- in a state whose module has no function `Close`
  pub missing-exits :
      (doc : IsDocumented api) (wire : ConnectionTracerMsg pan quic → ConnectionTracerMsg pan quic)
      (c : ConnectionTracerClient pan quic)
      (wired : wire (message pan quic TraceEvent.close c) ≡ message pan quic TraceEvent.close c)
      (s : L)
      → api.raw_get_string "stats" "Close" s ≡ nil
      → on_event pan quic (call pan quic (stats pan quic api) wire) TraceEvent.close c (running s)
        ≡ exits
  unfolding stats
  missing-exits doc wire c wired s h =
      let args : List (LValue pan) = address c.local ∷ address c.remote ∷ [] in
      event_delivered pan quic (stats pan quic api) wire TraceEvent.close c wired s
      ∙ failed_exits wire (api.call_by_param (api.raw_get_string "stats" "Close" s) 0 args s) c
          (rw h (doc.nil_call_fails 0 args s))

  -- Let `between` be what the interpreter has done since `NewStats` registered its functions: it has
  -- loaded the script, and served earlier events and calls of the selector. If nothing in that has put
  -- a function `Close` into the module, then the next connection that an application closes ends the
  -- application, provided that the wire passes the message on unchanged: `NewStats` provides no
  -- function to call in its place, the call fails, and the client takes the error for fatal.
  pub close_exits :
      (doc : IsDocumented api) (wire : ConnectionTracerMsg pan quic → ConnectionTracerMsg pan quic)
      (c : ConnectionTracerClient pan quic)
      (wired : wire (message pan quic TraceEvent.close c) ≡ message pan quic TraceEvent.close c)
      (s : L) (between : L → L)
      → ((key : String) → api.raw_get_string "stats" key s ≡ nil)
      → (api.raw_get_string "stats" "Close" (new_stats pan quic api s) ≡ nil
          → api.raw_get_string "stats" "Close" (between (new_stats pan quic api s)) ≡ nil)
      → on_event pan quic
          (call pan quic (stats pan quic api) wire)
          TraceEvent.close
          c
          (running (between (new_stats pan quic api s)))
        ≡ exits
  close_exits doc wire c wired s between new unprovided =
      missing-exits doc wire c wired (between (new_stats pan quic api s)) (
        unprovided (new_stats_functions pan quic api doc (TracerCall.close c.local c.remote) s new))
