-- ===== src/Scenarios/Daemon.antt =====
-- A run of the daemon without a script.
use panapi.Prelude.{
  ℕ, ◌+◌, String, List, false, none, some, [], ◌∷◌, ◌≡◌, ◌≢◌, refl, ap, str_eq, eq_iff,
  if◌then◌else◌, Bool-cases, sym, inl, inr,
}
use panapi.Prelude.GoMap.{GoMap, lookup, insert}
use panapi.Golang.{Error, returns, exits}
use panapi.Rpc.Loopback.{running}
use panapi.Rpc.ConnectionTracer.{ConnectionTracerMsg, TracerCall}
use panapi.Rpc.ConnectionTracer.Client.{ConnectionTracerClient}
use panapi.Rpc.ConnectionTracer.Events.{TraceEvent, on_event}
use panapi.Rpc.ConnectionTracer.Delivery.{call}
use panapi.Rpc.Setup.{Registry, new_server, new_tracer_server}
use panapi.Lua.Values.{LValue, HostFunction}
use panapi.Lua.Interpreter.{function_of}
use panapi.Lua.Stats.{stats, new_stats}
use panapi.Lua.Script.{Loader}
use panapi.Cmd.Daemon.{Host, main}
use panapi.Cmd.Daemon.Fallback.{IsFresh, fallen_back, no_script_ends_applications}
use panapi.Cmd.Daemon.Unscripted.{HostCallsKeep, Work, trace, tick, work, work_all}
use panapi.Lua.Selector.{new_selector}
use panapi.Pan.{PanPath}
use panapi.Taps.DefaultSelector.{PanSelector, default_selector}
use panapi.Rpc.Interfaces.{Request, Reply}
use panapi.Rpc.ServerSelector.Isolation.{serve_all, replies_of}
use panapi.Cmd.Daemon.Preferences.{without_preferences, paths_of, preferences_ignored}
use panapi.Scenarios.Setting.{
  strict, north, first_path, toy, quic, machine, machine-IsDocumented, idle, Machine, callable,
  called-keeps,
}

apart : (name other : String) → name ≢ other → str_eq other name ≡ false
apart name other h = elim (Bool-cases (str_eq other name)) [
  | inl found ↦ absurd (h (sym ((eq_iff other name).0 found)))
  | inr missing ↦ missing
]

other_module :
    (name other key : String) (functions : GoMap HostFunction) (s : Machine)
    → name ≢ other
    → ◌≡◌ {A = LValue toy}
        (function_of (lookup key (if str_eq other name then functions else s.modules other)))
        (function_of (lookup key (s.modules other)))
other_module name other key functions s h =
    ap (λ b. function_of (lookup key (if b then functions else s.modules other)))
      (apart name other h)

idle-IsFresh : IsFresh machine idle
unfolding lookup
idle-IsFresh = record { no_module = λ name key. refl; others_stay = other_module }

abbrev host : Host ℕ
host = record {
  listen = λ n. (none, n + 1);
  create = λ name n. (none, n + 1);
  start_profile = λ n. (none, n + 1);
}

abbrev loader : Loader Machine ℕ
loader = record {
  open_file = λ name n. (some (Error.foreign "no such file"), n + 10);
  load = λ name n s. (none, s);
  p_call = λ s. (none, s);
}

abbrev registry : Registry ℕ
registry = record { register = λ service n. (none, n + 100); create_log = λ n. (none, n + 1000) }

abbrev client : ConnectionTracerClient toy quic
client = record { id = 42; p = 1; odcid = 9; tracing_id = 3; local = some "a"; remote = some "x" }

abbrev wire : ConnectionTracerMsg toy quic → ConnectionTracerMsg toy quic
wire m = m

machine-HostCallsKeep : HostCallsKeep machine
machine-HostCallsKeep f n args s name key h = called-keeps (callable f) n s name key

-- what comes before: the tracer is made for the connection, `Periodic` is called, a packet is lost
abbrev earlier : List (Work toy quic)
earlier =
    trace (TracerCall.tracer_for_connection 3 1 9)
    ∷ tick 1
    ∷ trace (TracerCall.lost_packet (some "a") (some "x") 1 2 0)
    ∷ []

no_script_ends_applications_example :
    (main toy quic ℕ machine host loader registry idle "" "" 0
      ≡ returns (fallen_back toy quic ℕ machine host loader registry idle, 1311))
    × (on_event toy quic
          (call toy quic (stats toy quic machine) wire)
          TraceEvent.close
          client
          (running (fallen_back toy quic ℕ machine host loader registry idle).lua)
        ≡ exits)
unfolding new_server new_tracer_server work_all work stats new_stats lookup insert new_selector
no_script_ends_applications_example =
    no_script_ends_applications toy quic ℕ machine host loader registry idle machine-IsDocumented
      machine-HostCallsKeep idle-IsFresh "" 0 1 11 1311 (Error.foreign "no such file") refl refl
      refl earlier (fallen_back toy quic ℕ machine host loader registry idle).lua wire client refl
      refl

abbrev base : PanSelector toy (List (PanPath toy))
base = record {
  initialize = first_path.initialize;
  path = first_path.path;
  path_down = first_path.path_down;
  refresh = first_path.refresh;
  close = first_path.close;
}

abbrev calls : List (Request toy)
calls =
    Request.initialize (some strict) "a" "x" (north ∷ [])
    ∷ Request.set_preferences (some strict) "a" "x"
    ∷ Request.path "a" "x"
    ∷ []

preferences_ignored_example :
    (replies replies' : List (String × Reply toy)) × (m' m'' : GoMap (List (PanPath toy)))
    × (serve_all toy (default_selector base) (λ l r. []) calls [] ≡ returns (replies, m'))
    × (serve_all toy (default_selector base) (λ l r. []) (without_preferences calls) []
        ≡ returns (replies', m''))
    × (paths_of (replies_of toy (default_selector base) (λ l r. []) "ax" replies)
        ≡ paths_of (replies_of toy (default_selector base) (λ l r. []) "ax" replies'))
preferences_ignored_example = preferences_ignored toy base [] "ax" calls []
