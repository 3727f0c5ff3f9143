-- ===== src/Lua/Turns.antt =====
-- The methods of `LuaSelector` in lua/selector.go as goroutines run them: what each does between
-- `s.Lock()` and `s.Unlock()`, one access to the shared state at a time. A round of the goroutine
-- that `NewSelector` starts, and a method of `Stats`, lock the same mutex.
pub mod Bodies
pub mod InTurn
use panapi.Prelude.{ℕ, String, Option, none, some, List, [], ◌∷◌, ◌++◌, map}
use panapi.Prelude.GoMap.{lookup}
use panapi.Golang.{Error, Err, Run, returns, deref, ◌>>=◌}
use panapi.Golang.Mutex.{Access}
use panapi.Pan.{Pan, PanPath}
use panapi.Rpc.Interfaces.{Request, Reply, error, answer}
use panapi.Lua.Values.{LValue, nil, string, number}
use panapi.Lua.Tables.{new_lua_path_interface, new_lua_preferences, lua_table_slice_to_table}
use panapi.Lua.PathTables.{enter, clear_addr, get_pan_path}
use panapi.Lua.Interpreter.{Interpreter}
use panapi.Lua.Selector.{LuaSelector, address}
use panapi.Lua.Selector.Spared.{Work, call, tick, trace}

-- the variables of a method: the script's function, `lpaths`, `err`, `lt`, and the path
pub record Variables (pan : Pan) : Type 0 where
  pub function : LValue pan
  pub lpaths : List ℕ
  pub err : Err
  pub lt : Option ℕ
  pub picked : Option (PanPath pan)

abbrev pub unset : (pan : Pan) → Variables pan
unset pan = record { function = nil; lpaths = []; err = none; lt = none; picked = none }

module _ (pan : Pan) {L : Type 0} (api : Interpreter pan L) where
  abbrev pub Step : Type 0
  Step = Access (Variables pan) (LuaSelector pan L)

  -- `s.state.clear_addr(remote)`
  abbrev pub clear : pan.UdpAddr → Step
  clear remote (x, s) = returns (x, record s { tables = clear_addr pan remote s.tables })

  -- one round of the loop of `set_paths`
  abbrev pub set_path : String → PanPath pan → Step
  set_path raddr ppath (x, s) = deref (lookup raddr s.tables.lpaths) >>= λ inner. returns (
    record x { lpaths = x.lpaths ++ s.tables.next ∷ [] },
    record s { tables = enter pan raddr ppath inner s.tables },
  )

  -- `s.mod.RawGetString(fn)`
  abbrev pub get_function : String → Step
  get_function fn (x, s) = returns (record x { function = api.raw_get_string "panapi" fn s.lua }, s)

  -- `s.CallByParam`
  abbrev pub call_function : ℕ → (Variables pan → List (LValue pan)) → Step
  call_function results args (x, s) =
      let (err, lua) = api.call_by_param x.function results (args x) s.lua in
      returns (record x { err = err }, record s { lua = lua })

  -- what follows `if err != nil { return nil, err }` in `Path`
  abbrev pub unless_failed : Step → Err → Step
  unless_failed step none r = step r
  unless_failed step (some e) r = returns r

  abbrev pub to_table : Step
  to_table (x, s) = returns (record x { lt = api.to_table s.lua }, s)

  abbrev pub pop : Step
  pop (x, s) = returns (x, record s { lua = api.pop 1 s.lua })

  abbrev pub pick : Step
  pick (x, s) = returns (record x { picked = get_pan_path pan s.tables x.lt }, s)

  -- a function of the script that gets the two addresses first
  abbrev pub calls_script : String → ℕ → pan.UdpAddr → pan.UdpAddr → List (LValue pan) → List Step
  calls_script fn results local remote args =
      get_function fn
      ∷ call_function results (λ x. address pan api local ∷ address pan api remote ∷ args)
      ∷ []

  abbrev pub sets_paths : pan.UdpAddr → List (PanPath pan) → List Step
  sets_paths remote ppaths = clear remote ∷ map (set_path (pan.addr_string remote)) ppaths

  -- the body of each method
  unfoldable pub method : Request pan → List Step
  method (Request.initialize prefs local remote ppaths) =
      sets_paths remote ppaths
      ++ (get_function "Initialize"
          ∷ call_function 0 (λ x.
            new_lua_preferences pan prefs
            ∷ address pan api local
            ∷ address pan api remote
            ∷ lua_table_slice_to_table pan x.lpaths
            ∷ [])
          ∷ [])
  method (Request.set_preferences prefs local remote) =
      get_function "SetPreferences"
      ∷ call_function 0
          (λ x. new_lua_preferences pan prefs ∷ address pan api local ∷ address pan api remote ∷ [])
      ∷ []
  method (Request.path local remote) =
      calls_script "Path" 1 local remote []
      ++ ((λ r. unless_failed to_table r.0.err r)
          ∷ (λ r. unless_failed pop r.0.err r)
          ∷ (λ r. unless_failed pick r.0.err r)
          ∷ [])
  method (Request.path_down local remote fp pi) =
      calls_script "PathDown" 0 local remote (string fp ∷ new_lua_path_interface pan pi ∷ [])
  method (Request.refresh local remote ppaths) =
      sets_paths remote ppaths
      ++ (get_function "Refresh"
          ∷ call_function 0 (λ x.
            address pan api local
            ∷ address pan api remote
            ∷ lua_table_slice_to_table pan x.lpaths
            ∷ [])
          ∷ [])
  method (Request.close local remote) = calls_script "Close" 1 local remote []

  -- what a method returns
  abbrev pub result : Request pan → Variables pan → Reply pan
  result (Request.path _ _) x = answer x.picked x.err
  result _ x = error x.err

  unfoldable pub accesses : Work pan L → List Step
  unfolding method
  accesses (call q) = method q
  accesses (tick seconds) =
      get_function "Periodic" ∷ call_function 0 (λ x. number pan seconds ∷ []) ∷ []
  accesses (trace f) = (λ (x, s). returns (x, record s { lua = f s.lua })) ∷ []
