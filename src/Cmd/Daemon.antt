-- ===== src/Cmd/Daemon.antt =====
-- `main` of cmd/daemon/main.go, up to the point where it waits for a signal. The socket, the files
-- and the profiler are parameters, on a state of type `W`; `lua.NewState` gives `fresh`.
pub mod Unscripted
pub mod Fallback
pub mod Preferences
pub mod Scripted
pub mod Refreshed
use panapi.Prelude.{String, Option, none, some, [], Bool, true, false, str_eq, if◌then◌else◌}
use panapi.Prelude.GoMap.{GoMap}
use panapi.Golang.{Err, Run, returns, exits, ◌>>=◌}
use panapi.Pan.{Pan}
use panapi.Rpc.ConnectionTracer.{Quic}
use panapi.Rpc.Setup.{Registry, new_server}
use panapi.Lua.PathTables.{PathTables}
use panapi.Lua.Interpreter.{Interpreter}
use panapi.Lua.Selector.{new_selector}
use panapi.Lua.Stats.{new_stats}
use panapi.Lua.Script.{Loader, load_script}

pub record Host (W : Type 0) : Type 0 where
  -- `net.ListenUnix`
  pub listen : W → Err × W
  -- `os.Create` of the profile, and `pprof.StartCPUProfile`
  pub create : String → W → Err × W
  pub start_profile : W → Err × W

-- the selector that the server gets: the script's, with its books, or `NewServerSelectorFunc` of
-- the default selector, with its map
pub data Chosen (pan : Pan) (S : Type 0) : Type 0 where
  lua_selector : PathTables pan → Chosen pan S
  server_selector : GoMap S → Chosen pan S

-- the daemon: the interpreter, which the script's selector and the statistics share
pub record Daemon (pan : Pan) (L S : Type 0) : Type 0 where
  pub lua : L
  pub selector : Chosen pan S

-- `if err != nil { log.Fatal(err) }`
abbrev pub or_exit {ℓ} : {A : Type ℓ} → Err × A → Run A
or_exit (none, a) = returns a
or_exit (some e, a) = exits

module _ (pan : Pan) (quic : Quic pan) {L W : Type 0} (S : Type 0) (api : Interpreter pan L)
    (host : Host W) (loader : Loader L W) (registry : Registry W) (fresh : L) where
  -- the profile, if there is to be one
  unfoldable pub profile : String → W → Run W
  profile cpulog w =
      if str_eq cpulog ""
      then returns w
      else or_exit (host.create cpulog w) >>= λ w'. or_exit (host.start_profile w')

  -- the selector once the script was loaded, or was not
  unfoldable pub choose : Err → PathTables pan → Chosen pan S
  choose none tables = Chosen.lua_selector tables
  choose (some e) tables = Chosen.server_selector []

  -- the end: the services are registered
  unfoldable pub serve : PathTables pan → Err × (L × W) → Run (Daemon pan L S × W)
  unfolding choose new_server
  serve tables (err, (lua, w3)) = new_server registry w3 >>= λ r.
      or_exit r >>= λ w4. returns (record { lua = lua; selector = choose err tables }, w4)

  -- what follows once the daemon listens
  unfoldable pub listening : String → String → W → Run (Daemon pan L S × W)
  unfolding profile load_script new_selector new_stats serve
  listening script cpulog w1 = profile cpulog w1 >>= λ w2.
      let selector = new_selector pan api fresh in
      serve selector.tables (load_script loader script (new_stats pan quic api selector.lua) w2)

  unfoldable pub main : String → String → W → Run (Daemon pan L S × W)
  unfolding listening
  main script cpulog w = or_exit (host.listen w) >>= listening script cpulog
