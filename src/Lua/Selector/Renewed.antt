-- ===== src/Lua/Selector/Renewed.antt =====
-- `Initialize` and `Refresh` of `LuaSelector` return: the tables are renewed, then the script is
-- called.
use panapi.Prelude.{ℕ, Option, List, [], ◌∷◌, ◌≡◌, refl}
use panapi.Golang.{Err, returns}
use panapi.Pan.{Pan, PanPath}
use panapi.Taps.Preferences.{ConnectionPreferences}
use panapi.Lua.Tables.{new_lua_preferences, lua_table_slice_to_table}
use panapi.Lua.Interpreter.{Interpreter}
use panapi.Lua.PathTables.Translation.{fresh_ids}
use panapi.Lua.PathTables.Renewal.{renewed, renew-eq}
use panapi.Lua.Selector.{LuaSelector, script, address, initialize, refresh}

module _ {pan : Pan} {L : Type 0} (api : Interpreter pan L) where
  -- the tables that the script is handed, in order
  abbrev pub handed : List (PanPath pan) → LuaSelector pan L → List ℕ
  handed ps s = fresh_ids s.tables.next ps

  abbrev with_renewed : pan.UdpAddr → List (PanPath pan) → LuaSelector pan L → LuaSelector pan L
  with_renewed r ps s = record s { tables = renewed r ps s.tables }

  abbrev pub initialized :
      Option ConnectionPreferences
      → pan.UdpAddr
      → pan.UdpAddr
      → List (PanPath pan)
      → LuaSelector pan L
      → Err × LuaSelector pan L
  initialized prefs l r ps s =
      script pan api "Initialize" 0
        (new_lua_preferences pan prefs
          ∷ address pan api l
          ∷ address pan api r
          ∷ lua_table_slice_to_table pan (handed ps s)
          ∷ [])
        (with_renewed r ps s)

  abbrev pub refreshed :
      pan.UdpAddr → pan.UdpAddr → List (PanPath pan) → LuaSelector pan L → Err × LuaSelector pan L
  refreshed l r ps s =
      script pan api "Refresh" 0
        (address pan api l ∷ address pan api r ∷ lua_table_slice_to_table pan (handed ps s) ∷ [])
        (with_renewed r ps s)

  pub initialize-eq :
      (prefs : Option ConnectionPreferences) (l r : pan.UdpAddr) (ps : List (PanPath pan))
      (s : LuaSelector pan L)
      → initialize pan api prefs l r ps s ≡ returns (initialized prefs l r ps s)
  unfolding initialize
  initialize-eq prefs l r ps s = rw renew-eq refl

  pub refresh-eq :
      (l r : pan.UdpAddr) (ps : List (PanPath pan)) (s : LuaSelector pan L)
      → refresh pan api l r ps s ≡ returns (refreshed l r ps s)
  unfolding refresh
  refresh-eq l r ps s = rw renew-eq refl
