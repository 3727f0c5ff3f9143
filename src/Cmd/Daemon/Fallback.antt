-- ===== src/Cmd/Daemon/Fallback.antt =====
-- The daemon that has no script.
use panapi.Prelude.{
  String, none, some, List, [], ◌≡◌, ◌≢◌, sym, subst, ap, ◌∙◌, true, false, str_eq,
}
use panapi.Prelude.GoMap.{GoMap}
use panapi.Golang.{Error, returns, exits, ◌>>=◌}
use panapi.Pan.{Pan}
use panapi.Rpc.Loopback.{running}
use panapi.Rpc.ConnectionTracer.{Quic, ConnectionTracerMsg, TracerCall}
use panapi.Rpc.ConnectionTracer.Client.{ConnectionTracerClient}
use panapi.Rpc.ConnectionTracer.Events.{TraceEvent, on_event, message}
use panapi.Rpc.ConnectionTracer.Delivery.{call}
use panapi.Rpc.Setup.{Registry, new_server}
use panapi.Lua.Values.{HostFunction, nil}
use panapi.Lua.Interpreter.{Interpreter, IsDocumented}
use panapi.Lua.Selector.{new_selector}
use panapi.Lua.Stats.{stats, new_stats}
use panapi.Lua.Stats.Functions.{new_stats_functions}
use panapi.Lua.Stats.ClosePath.{missing-exits}
use panapi.Lua.Script.{Loader, opened, load_script}
use panapi.Cmd.Daemon.Unscripted.{
  IsHost, IsUnscripted, HostCallsKeep, Work, work_all, work_all-keeps, registered-IsHost,
}
use panapi.Cmd.Daemon.{Host, Chosen, Daemon, or_exit, profile, choose, serve, listening, main}

-- The documented behaviour of a new interpreter: it has no module of ours, and a module that is
-- registered leaves the others as they were.
pub record IsFresh {pan : Pan} {L : Type 0} (lua : Interpreter pan L) (fresh : L) : Type 0 where
  pub no_module : (name key : String) → lua.raw_get_string name key fresh ≡ nil
  pub others_stay :
      (name other key : String) (functions : GoMap HostFunction) (s : L)
      → name ≢ other
      → lua.raw_get_string other key (lua.register_module name functions s)
        ≡ lua.raw_get_string other key s

panapi_not_stats : ◌≢◌ {A = String} "panapi" "stats"
panapi_not_stats h = let same : true ≡ false = ap (str_eq "panapi") h in cc same

not_opened :
    {L W : Type 0} (loader : Loader L W) (script : String) (l : L) (w w' : W) (e : Error)
    → loader.open_file script w ≡ (some e, w')
    → load_script loader script l w ≡ (some e, (l, w'))
unfolding load_script
not_opened loader script l w w' e h = ap (opened loader script l) h

stats_not_panapi : ◌≢◌ {A = String} "stats" "panapi"
stats_not_panapi h = let same : true ≡ false = ap (str_eq "stats") h in cc same

module _ (pan : Pan) (quic : Quic pan) {L W : Type 0} (S : Type 0) (api : Interpreter pan L)
    (host : Host W) (loader : Loader L W) (registry : Registry W) (fresh : L) where
  -- the interpreter after `NewSelector` and `NewStats`
  abbrev made : L
  made = new_stats pan quic api (new_selector pan api fresh).lua

  no_stats :
      (new : IsFresh api fresh) (key : String)
      → api.raw_get_string "stats" key (new_selector pan api fresh).lua ≡ nil
  unfolding new_selector
  no_stats new key =
      new.others_stay "panapi" "stats" key _ fresh panapi_not_stats ∙ new.no_module "stats" key

  made-IsUnscripted :
      (doc : IsDocumented api) (new : IsFresh api fresh) → IsUnscripted pan quic api made
  unfolding new_selector new_stats
  made-IsUnscripted doc new = record {
    in_stats =
        registered-IsHost pan quic api doc "stats" _ (new_selector pan api fresh).lua
          (no_stats new);
    in_panapi = λ key.
        subst IsHost
          (sym (
            new.others_stay "stats" "panapi" key _ (new_selector pan api fresh).lua
              stats_not_panapi))
          (registered-IsHost pan quic api doc "panapi" _ fresh (new.no_module "panapi") key);
  }

  -- the daemon with default selectors
  abbrev pub fallen_back : Daemon pan L S
  fallen_back = record { lua = made; selector = Chosen.server_selector [] }

  -- Without a script that can be opened, as when none is named, and when no profile is to be written
  -- and nothing else fails, the daemon starts: its selectors are those of `NewServerSelectorFunc`,
  -- and there are none yet. But the statistics stay with the interpreter, which has no function
  -- `Close`. So after any events and rounds of `Periodic` that the daemon has got through, if calls of
  -- the program's own functions do not touch the modules, an application that closes a connection
  -- ends, provided that the wire passes that message on unchanged.
  pub no_script_ends_applications :
      (doc : IsDocumented api) (keep : HostCallsKeep api) (new : IsFresh api fresh)
      (script : String) (w w1 w2 w3 : W) (e : Error)
      → host.listen w ≡ (none, w1)
      → loader.open_file script w1 ≡ (some e, w2)
      → new_server registry w2 ≡ returns (none, w3)
      → (earlier : List (Work pan quic)) (l : L)
        (wire : ConnectionTracerMsg pan quic → ConnectionTracerMsg pan quic)
        (c : ConnectionTracerClient pan quic)
      → work_all pan quic api earlier fallen_back.lua ≡ returns l
      → wire (message pan quic TraceEvent.close c) ≡ message pan quic TraceEvent.close c
      → (main pan quic S api host loader registry fresh script "" w ≡ returns (fallen_back, w3))
        × (on_event pan quic
              (call pan quic (stats pan quic api) wire)
              TraceEvent.close
              c
              (running l)
            ≡ exits)
  unfolding main listening profile serve choose
  no_script_ends_applications doc keep new script w w1 w2 w3 e listens missing registers earlier l
        wire c served wired =
      (
        ap (λ r. or_exit r >>= listening pan quic S api host loader registry fresh script "")
              listens
            ∙ ap
                (serve pan quic S api host loader registry fresh
                  (new_selector pan api fresh).tables)
                (not_opened loader script made w1 w2 e missing)
            ∙ ap (λ r. r >>= λ r. or_exit r >>= λ w4. returns (fallen_back, w4)) registers,
        missing-exits pan quic api doc wire c wired l (
            work_all-keeps pan quic api keep earlier made l (made-IsUnscripted doc new) served
              "stats" "Close"
            ∙ new_stats_functions pan quic api doc (TracerCall.close c.local c.remote)
                (new_selector pan api fresh).lua (no_stats new)),
      )
