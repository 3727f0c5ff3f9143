-- ===== src/Lua/Selector.antt =====
-- `LuaSelector` of lua/selector.go: the path selector that runs in a Lua script.
pub mod Renewed
pub mod Translates
pub mod Balance
pub mod Spared
use panapi.Prelude.{ℕ, String, Option, none, some, List, [], ◌∷◌, map, str_append, if◌then◌else◌}
use panapi.Prelude.GoMap.{GoMap, insert}
use panapi.Golang.{Err, Run, returns, ◌>>=◌}
use panapi.Pan.{Pan, PathInterface, PanPath}
use panapi.Taps.Preferences.{ConnectionPreferences}
use panapi.Rpc.Interfaces.{ServerSelector}
use panapi.Lua.Values.{LValue, string, number, HostFunction, not_implemented, log, now}
use panapi.Lua.Tables.{new_lua_path_interface, new_lua_preferences, lua_table_slice_to_table}
use panapi.Lua.PathTables.{PathTables, new_state, get_pan_path, clear_addr, set_paths}
use panapi.Lua.Interpreter.{Interpreter}

-- the functions that a script is to provide
abbrev pub selector_functions : List String
selector_functions =
    "Initialize" ∷ "SetPreferences" ∷ "Path" ∷ "PathDown" ∷ "Refresh" ∷ "Close" ∷ "Periodic" ∷ []

-- the loop of `NewSelector` over the names
unfoldable pub stand_ins : List String → GoMap HostFunction → GoMap HostFunction
stand_ins [] table = table
stand_ins (fn ∷ fns) table = stand_ins fns (
    insert fn
      (not_implemented (str_append "function " (str_append fn " not implemented in script"))) table)

pub record LuaSelector (pan : Pan) (L : Type 0) : Type 0 where
  pub lua : L
  pub tables : PathTables pan

module _ (pan : Pan) {L : Type 0} (api : Interpreter pan L) where
  -- `NewSelector`, without the goroutine that it starts
  unfoldable pub new_selector : L → LuaSelector pan L
  unfolding stand_ins
  new_selector state = record {
    lua =
        api.register_module "panapi"
          (insert "Now" now (insert "Log" log (stand_ins selector_functions []))) state;
    tables = new_state pan;
  }

  -- a call of a function of the script
  abbrev pub script : String → ℕ → List (LValue pan) → LuaSelector pan L → Err × LuaSelector pan L
  script fn results args s =
      let (err, lua) =
        api.call_by_param (api.raw_get_string "panapi" fn s.lua) results args s.lua in
      (err, record s { lua = lua })

  abbrev pub address : pan.UdpAddr → LValue pan
  address addr = string (pan.addr_string addr)

  -- one round of the goroutine; its error is dropped
  unfoldable pub periodic : ℕ → LuaSelector pan L → LuaSelector pan L
  periodic seconds s = (script "Periodic" 0 (number pan seconds ∷ []) s).1

  unfoldable pub initialize :
      Option ConnectionPreferences
      → pan.UdpAddr
      → pan.UdpAddr
      → List (PanPath pan)
      → LuaSelector pan L
      → Run (Err × LuaSelector pan L)
  initialize prefs local remote paths s = do
    (lpaths, tables) ← set_paths pan remote paths (clear_addr pan remote s.tables)
    returns (
        script "Initialize" 0
          (new_lua_preferences pan prefs
            ∷ address local
            ∷ address remote
            ∷ lua_table_slice_to_table pan lpaths
            ∷ [])
          (record s { tables = tables }))

  unfoldable pub set_preferences :
      Option ConnectionPreferences
      → pan.UdpAddr
      → pan.UdpAddr
      → LuaSelector pan L
      → Err × LuaSelector pan L
  set_preferences prefs local remote s =
      script "SetPreferences" 0
        (new_lua_preferences pan prefs ∷ address local ∷ address remote ∷ []) s

  -- the result of the script's `Path` is taken off the stack
  abbrev pub path_result :
      Err × LuaSelector pan L → (Option (PanPath pan) × Err) × LuaSelector pan L
  path_result (some err, s) = ((none, some err), s)
  path_result (none, s) =
      let lt = api.to_table s.lua in
      ((get_pan_path pan s.tables lt, none), record s { lua = api.pop 1 s.lua })

  unfoldable pub path :
      pan.UdpAddr
      → pan.UdpAddr
      → LuaSelector pan L
      → (Option (PanPath pan) × Err) × LuaSelector pan L
  unfolding get_pan_path
  path local remote s = path_result (script "Path" 1 (address local ∷ address remote ∷ []) s)

  unfoldable pub path_down :
      pan.UdpAddr
      → pan.UdpAddr
      → String
      → PathInterface pan
      → LuaSelector pan L
      → Err × LuaSelector pan L
  path_down local remote fp pi s =
      script "PathDown" 0
        (address local ∷ address remote ∷ string fp ∷ new_lua_path_interface pan pi ∷ []) s

  unfoldable pub refresh :
      pan.UdpAddr
      → pan.UdpAddr
      → List (PanPath pan)
      → LuaSelector pan L
      → Run (Err × LuaSelector pan L)
  refresh local remote paths s = do
    (lpaths, tables) ← set_paths pan remote paths (clear_addr pan remote s.tables)
    returns (
        script "Refresh" 0
          (address local ∷ address remote ∷ lua_table_slice_to_table pan lpaths ∷ [])
          (record s { tables = tables }))

  -- one result is asked for, and stays on the stack
  unfoldable pub close : pan.UdpAddr → pan.UdpAddr → LuaSelector pan L → Err × LuaSelector pan L
  close local remote s = script "Close" 1 (address local ∷ address remote ∷ []) s

  -- `LuaSelector` as a `ServerSelector`
  unfoldable pub lua_selector : ServerSelector pan (LuaSelector pan L)
  unfolding initialize set_preferences path path_down refresh close
  lua_selector = record {
    initialize = initialize;
    set_preferences = λ prefs l r s. returns (set_preferences prefs l r s);
    path = λ l r s. returns (path l r s);
    path_down = λ l r fp pi s. returns (path_down l r fp pi s);
    refresh = refresh;
    close = λ l r s. returns (close l r s);
  }
