-- ===== src/Scenarios/Scripted.antt =====
-- A run of an application and a daemon with a script.
use panapi.Prelude.{String, true, false, none, some, [], ◌∷◌, map, List, ◌≡◌, ◌≢◌, refl, ap, str_eq}
use panapi.Prelude.GoMap.{GoMap, lookup}
use panapi.Golang.{returns}
use panapi.Rpc.PathMsg.{without_forwarding}
use panapi.Rpc.Interfaces.{Request, dispatch}
use panapi.Rpc.SelectorServer.{SelectorMsg}
use panapi.Rpc.SelectorClient
use panapi.Rpc.SelectorClient.{SelectorClient}
use panapi.Rpc.Loopback.{loopback, running}
use panapi.Lua.Values.{HostFunction, ignore}
use panapi.Lua.PathTables.{new_state}
use panapi.Lua.PathTables.Translation.{fresh_ids}
use panapi.Lua.Selector.{
  LuaSelector, lua_selector, new_selector, initialize, refresh, path_down, periodic,
}
use panapi.Lua.Selector.Renewed.{initialized, initialize-eq, refreshed, refresh-eq}
use panapi.Lua.Selector.Spared.{Work, call, tick, trace, serve_others}
use panapi.Cmd.Daemon.Scripted.{script_decides}
use panapi.Cmd.Daemon.Refreshed.{refresh_decides}
use panapi.Scenarios.Setting.{toy, north, south, interface, Machine, machine, scripted, idle}

abbrev provided : GoMap HostFunction
provided = ("Initialize", ignore) ∷ ("Path", ignore) ∷ []

abbrev loaded : LuaSelector toy Machine
loaded = record { lua = scripted "panapi" provided; tables = new_state toy }

abbrev wire : SelectorMsg toy → SelectorMsg toy
wire m = m

abbrev told : LuaSelector toy Machine
told =
    (initialized machine none "a" "x" (map (without_forwarding toy) (north ∷ south ∷ [])) loaded).1

abbrev others : List (Work toy Machine)
others = tick 1 ∷ trace (λ m. m) ∷ call (Request.path_down "a" "x" "south" interface) ∷ []

north_named : ◌≢◌ {A = String} north.fingerprint ""
north_named e = let same : true ≡ false = ap (str_eq "north") e in cc same

loaded_first :
    serve_others machine []
      (record (new_selector toy machine idle) { lua = scripted "panapi" provided })
    ≡ returns loaded
unfolding serve_others new_selector
loaded_first = refl

accepts :
    initialize toy machine none "a" "x" (map (without_forwarding toy) (north ∷ south ∷ [])) loaded
    ≡ returns (none, told)
unfolding lookup
accepts =
    initialize-eq machine none "a" "x" (map (without_forwarding toy) (north ∷ south ∷ [])) loaded

worked : serve_others machine others told ≡ returns told
unfolding serve_others periodic dispatch lua_selector path_down lookup
worked = refl

abbrev client : SelectorClient toy
client = record { connection_preferences = none; local = none; remote = none; paths = [] }

script_decides_example :
    (c : SelectorClient toy) × (SelectorClient.initialize toy
        (loopback toy (lua_selector toy machine) wire)
        "a"
        "x"
        (north ∷ south ∷ [])
        client
        (running loaded)
      ≡ returns (c, running told))
    × (SelectorClient.path toy (loopback toy (lua_selector toy machine) wire) c (running told)
        ≡ returns (some north, running told))
unfolding lookup fresh_ids new_state
script_decides_example =
    script_decides toy machine wire (λ m h. refl) idle (scripted "panapi" provided)
      (record (scripted "panapi" provided) { values = 1 }) [] others loaded told told client "a" "x"
      (north ∷ south ∷ []) 0 0 north loaded_first ((refl, tt), (tt, tt)) accepts worked (tt, tt)
      refl refl refl refl north_named

abbrev refreshable : GoMap HostFunction
refreshable = ("Refresh", ignore) ∷ ("Path", ignore) ∷ []

abbrev in_use : LuaSelector toy Machine
in_use = record { lua = scripted "panapi" refreshable; tables = new_state toy }

abbrev renewed_once : LuaSelector toy Machine
renewed_once =
    (refreshed machine "a" "x" (map (without_forwarding toy) (north ∷ south ∷ [])) in_use).1

-- a client that has the southern path from before
abbrev connected : SelectorClient toy
connected = record {
  connection_preferences = none;
  local = some "a";
  remote = some "x";
  paths = ("south", some south) ∷ [];
}

in_use_first :
    serve_others machine []
      (record (new_selector toy machine idle) { lua = scripted "panapi" refreshable })
    ≡ returns in_use
unfolding serve_others new_selector
in_use_first = refl

refreshes :
    refresh toy machine "a" "x" (map (without_forwarding toy) (north ∷ south ∷ [])) in_use
    ≡ returns (none, renewed_once)
unfolding lookup
refreshes = refresh-eq machine "a" "x" (map (without_forwarding toy) (north ∷ south ∷ [])) in_use

refreshed_worked : serve_others machine others renewed_once ≡ returns renewed_once
unfolding serve_others periodic dispatch lua_selector path_down lookup
refreshed_worked = refl

refresh_decides_example :
    (c : SelectorClient toy) × (SelectorClient.refresh toy
        (loopback toy (lua_selector toy machine) wire)
        (north ∷ south ∷ [])
        connected
        (running in_use)
      ≡ returns (c, running renewed_once))
    × (SelectorClient.path toy
          (loopback toy (lua_selector toy machine) wire)
          c
          (running renewed_once)
        ≡ returns (some north, running renewed_once))
unfolding lookup fresh_ids new_state
refresh_decides_example =
    refresh_decides toy machine wire (λ m h. refl) idle (scripted "panapi" refreshable)
      (record (scripted "panapi" refreshable) { values = 1 }) [] others in_use renewed_once
      renewed_once connected "a" "x" (north ∷ south ∷ []) 0 0 north in_use_first refl refl
      ((refl, tt), (tt, tt)) refreshes refreshed_worked (tt, tt) refl refl refl refl north_named
