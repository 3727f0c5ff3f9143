-- ===== src/Scenarios/Stats.antt =====
-- Runs of the tracer in a script.
use panapi.Prelude.{◌+◌, some, ◌≡◌, refl}
use panapi.Prelude.GoMap.{lookup}
use panapi.Golang.{exits}
use panapi.Rpc.ConnectionTracer.{ConnectionTracerMsg}
use panapi.Rpc.ConnectionTracer.Client.{ConnectionTracerClient}
use panapi.Rpc.ConnectionTracer.Events.{TraceEvent, on_event}
use panapi.Rpc.ConnectionTracer.Delivery.{call}
use panapi.Rpc.Loopback.{running}
use panapi.Lua.Stats.{stats, new_stats}
use panapi.Lua.Stats.ClosePath.{close_exits}
use panapi.Scenarios.Setting.{toy, quic, machine, machine-IsDocumented, idle, Machine}

abbrev client : ConnectionTracerClient toy quic
client = record { id = 42; p = 1; odcid = 9; tracing_id = 3; local = some "a"; remote = some "x" }

abbrev wire : ConnectionTracerMsg toy quic → ConnectionTracerMsg toy quic
wire m = m

-- the script's loading, which leaves a value on the stack
abbrev events : Machine → Machine
events s = record s { values = s.values + 1 }

close_exits_example :
    on_event toy quic
      (call toy quic (stats toy quic machine) wire)
      TraceEvent.close
      client
      (running (events (new_stats toy quic machine idle)))
    ≡ exits
unfolding lookup
close_exits_example =
    close_exits toy quic machine machine-IsDocumented wire client refl idle events (λ key. refl)
      (λ h. h)
