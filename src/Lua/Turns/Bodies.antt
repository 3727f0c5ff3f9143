-- ===== src/Lua/Turns/Bodies.antt =====
-- Undisturbed, the accesses of a method are the method.
use panapi.Prelude.{ℕ, String, none, some, List, [], ◌∷◌, ◌++◌, map, ◌≡◌, refl, ◌∙◌}
use mathlib.Core.List.{append-nil, append_assoc}
use panapi.Prelude.GoMap.{GoMap, lookup, insert}
use panapi.Golang.{Err, returns}
use panapi.Golang.Mutex.{body}
use panapi.Pan.{Pan, PanPath}
use panapi.Rpc.Interfaces.{Request, dispatch}
use panapi.Lua.Interpreter.{Interpreter}
use panapi.Lua.PathTables.{enter, clear_addr, get_pan_path}
use panapi.Lua.PathTables.Translation.{fresh_ids, entered_all, lookup-entered}
use panapi.Lua.PathTables.Renewal.{renewed, lookup-cleared, next-cleared}
use panapi.Lua.Selector.Renewed.{handed, initialize-eq, refresh-eq}
use panapi.Lua.Selector.{
  LuaSelector, address, lua_selector, set_preferences, path, path_down, close, periodic,
}
use panapi.Lua.Selector.Spared.{Work, call, tick, trace}
use panapi.Lua.Turns.{Variables, unset, Step, set_path, sets_paths, method, result, accesses}

module _ (pan : Pan) {L : Type 0} (api : Interpreter pan L) where
  -- what a piece of work does to the selector, with the variables that it leaves
  abbrev pub Does : Work pan L → LuaSelector pan L → Variables pan → LuaSelector pan L → Type 0
  Does (call q) s x s' = dispatch pan (lua_selector pan api) q s ≡ returns (result pan api q x, s')
  Does (tick seconds) s x s' = s' ≡ periodic pan api seconds s
  Does (trace f) s x s' = s' ≡ record s { lua = f s.lua }

  -- the loop of `set_paths` where the map of the address is there, before what follows it
  body-set_path :
      (raddr : String) (ps : List (PanPath pan)) (inner : GoMap ℕ) (rest : List (Step pan api))
      (x : Variables pan) (s : LuaSelector pan L)
      → lookup raddr s.tables.lpaths ≡ some inner
      → body (map (set_path pan api raddr) ps ++ rest) (x, s)
        ≡ body rest (
          record x { lpaths = x.lpaths ++ fresh_ids s.tables.next ps },
          record s { tables = entered_all raddr ps inner s.tables },
        )
  unfolding body fresh_ids entered_all
  body-set_path raddr [] inner rest x s e = rw (append-nil x.lpaths) refl
  body-set_path raddr (p ∷ ps) inner rest x s e = rw e (
      body-set_path raddr ps (insert p.fingerprint s.tables.next inner) rest
        (record x { lpaths = x.lpaths ++ s.tables.next ∷ [] })
        (record s { tables = enter pan raddr p inner s.tables })
        (lookup-entered raddr p inner s.tables)
      ∙ rw (append_assoc x.lpaths) refl)

  -- with new tables, the rest of `Initialize` or `Refresh`
  body-sets_paths :
      (r : pan.UdpAddr) (ps : List (PanPath pan)) (rest : List (Step pan api))
      (s : LuaSelector pan L)
      → body (sets_paths pan api r ps ++ rest) (unset pan, s)
        ≡ body rest (
          record (unset pan) { lpaths = handed api ps s },
          record s { tables = renewed r ps s.tables },
        )
  unfolding body
  body-sets_paths r ps rest s =
      body-set_path (pan.addr_string r) ps [] rest (unset pan)
        (record s { tables = clear_addr pan r s.tables }) (lookup-cleared r s.tables)
      ∙ rw (next-cleared r s.tables) refl

  -- `Path` returns at once when the script fails
  path-Does :
      (l r : pan.UdpAddr) (s : LuaSelector pan L) (err : Err) (lua : L)
      → api.call_by_param
          (api.raw_get_string "panapi" "Path" s.lua)
          1
          (address pan api l ∷ address pan api r ∷ [])
          s.lua
        ≡ (err, lua)
      → (v : Variables pan × LuaSelector pan L) × (body
            (method pan api (Request.path l r))
            (unset pan, s)
          ≡ returns v)
        × Does (call (Request.path l r)) s v.0 v.1
  unfolding body method dispatch lua_selector path
  path-Does l r s none lua called = (
    (
      record (unset pan) {
        function = api.raw_get_string "panapi" "Path" s.lua;
        lt = api.to_table lua;
        picked = get_pan_path pan s.tables (api.to_table lua);
      },
      record s { lua = api.pop 1 lua },
    ),
    rw called refl,
    rw called refl,
  )
  path-Does l r s (some e) lua called = (
    (
      record (unset pan) { function = api.raw_get_string "panapi" "Path" s.lua; err = some e },
      record s { lua = lua },
    ),
    rw called refl,
    rw called refl,
  )

  pub accesses-Does :
      (w : Work pan L) (s : LuaSelector pan L)
      → (r : Variables pan × LuaSelector pan L) × (body (accesses pan api w) (unset pan, s)
          ≡ returns r)
        × Does w s r.0 r.1
  unfolding body accesses method dispatch lua_selector set_preferences path_down close periodic
  accesses-Does (call (Request.initialize prefs l r ps)) s =
      (_, body-sets_paths r ps _ s, rw (initialize-eq api prefs l r ps s) refl)
  accesses-Does (call (Request.refresh l r ps)) s =
      (_, body-sets_paths r ps _ s, rw (refresh-eq api l r ps s) refl)
  accesses-Does (call (Request.set_preferences prefs l r)) s = (_, refl, refl)
  accesses-Does (call (Request.path l r)) s = path-Does l r s _ _ refl
  accesses-Does (call (Request.path_down l r fp pi)) s = (_, refl, refl)
  accesses-Does (call (Request.close l r)) s = (_, refl, refl)
  accesses-Does (tick seconds) s = (_, refl, refl)
  accesses-Does (trace f) s = (_, refl, refl)
