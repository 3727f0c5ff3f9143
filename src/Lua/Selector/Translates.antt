-- ===== src/Lua/Selector/Translates.antt =====
-- The tables that a script is handed, and the paths that its answers stand for.
use panapi.Prelude.{
  ℕ, zero, suc, String, Option, none, some, List, [], ◌∷◌, map, ◌≡◌, ◌≢◌, refl, get_elem?,
}
use panapi.Golang.{Err, returns}
use panapi.Pan.{Pan, PanPath}
use panapi.Taps.Preferences.{ConnectionPreferences}
use panapi.Lua.Tables.{new_lua_preferences, lua_table_slice_to_table}
use panapi.Lua.Interpreter.{Interpreter}
use panapi.Lua.PathTables.{PathTables, get_pan_path, tables_at}
use panapi.Lua.PathTables.Invariant.{IsOwned, InValues}
use panapi.Lua.PathTables.Renewal.{
  renewed, renewed-IsOwned, renewed-resolve, renewed-keeps, renewed_twice, Distinct,
}
use panapi.Lua.Selector.{LuaSelector, script, address, initialize, refresh, path}
use panapi.Lua.Selector.Renewed.{handed, initialized, initialize-eq, refresh-eq}

module _ {pan : Pan} {L : Type 0} (api : Interpreter pan L) where
  abbrev pub resolve : PathTables pan → ℕ → Option (PanPath pan)
  resolve t n = get_pan_path pan t (some n)

  -- `Initialize` calls the script's function with the preferences, the addresses and new tables.
  -- These stand, in order, for the paths that it was given, and the books stay in order.
  pub initialize_translates :
      (prefs : Option ConnectionPreferences) (l r : pan.UdpAddr) (ps : List (PanPath pan))
      (s : LuaSelector pan L)
      → IsOwned s.tables
      → (t : PathTables pan) × (initialize pan api prefs l r ps s
          ≡ returns (
              script pan api "Initialize" 0
                (new_lua_preferences pan prefs
                  ∷ address pan api l
                  ∷ address pan api r
                  ∷ lua_table_slice_to_table pan (handed api ps s)
                  ∷ [])
                (record s { tables = t })))
        × (map (resolve t) (handed api ps s) ≡ map some ps)
        × IsOwned t
  unfolding get_pan_path
  initialize_translates prefs l r ps s h = (
    renewed r ps s.tables,
    initialize-eq api prefs l r ps s,
    renewed-resolve r ps s.tables,
    renewed-IsOwned r ps s.tables h,
  )

  -- `Refresh` calls the script's function with the addresses and new tables, which stand, in order,
  -- for the paths that it was given. A table of another remote address stays with that address, and
  -- still stands for its path.
  pub refresh_translates :
      (l r : pan.UdpAddr) (ps : List (PanPath pan)) (s : LuaSelector pan L) (other : String) (n : ℕ)
      → IsOwned s.tables
      → pan.addr_string r ≢ other
      → InValues n (tables_at s.tables.lpaths other)
      → (t : PathTables pan) × (refresh pan api l r ps s
          ≡ returns (
              script pan api "Refresh" 0
                (address pan api l
                  ∷ address pan api r
                  ∷ lua_table_slice_to_table pan (handed api ps s)
                  ∷ [])
                (record s { tables = t })))
        × (map (resolve t) (handed api ps s) ≡ map some ps)
        × IsOwned t
        × (resolve t n ≡ resolve s.tables n)
        × InValues n (tables_at t.lpaths other)
  unfolding get_pan_path
  refresh_translates l r ps s other n h ne x =
      let (same, still) = renewed-keeps r ps s.tables other n h ne x in
      (
        renewed r ps s.tables,
        refresh-eq api l r ps s,
        renewed-resolve r ps s.tables,
        renewed-IsOwned r ps s.tables h,
        same,
        still,
      )

  resolved_at :
      (t : PathTables pan) (ids : List ℕ) (ps : List (PanPath pan)) (i n : ℕ)
      → map (resolve t) ids ≡ map some ps
      → get_elem? ids i ≡ some n
      → resolve t n ≡ get_elem? ps i
  resolved_at t [] ps i n e at = cc
  resolved_at t (m ∷ ids) [] i n e at = cc
  resolved_at t (m ∷ ids) (p ∷ ps) zero n e at = cc
  resolved_at t (m ∷ ids) (p ∷ ps) (suc i) n e at = resolved_at t ids ps i n (cc) at

  -- If the script's `Path` succeeds and answers with the `i`-th of the tables that stand for a list
  -- of paths, then `Path` gives the `i`-th path of that list, and takes the answer off the stack.
  pub path_picks :
      (l r : pan.UdpAddr) (s : LuaSelector pan L) (lua : L) (ids : List ℕ) (ps : List (PanPath pan))
      (i n : ℕ)
      → map (resolve s.tables) ids ≡ map some ps
      → get_elem? ids i ≡ some n
      → api.call_by_param
          (api.raw_get_string "panapi" "Path" s.lua)
          1
          (address pan api l ∷ address pan api r ∷ [])
          s.lua
        ≡ (none, lua)
      → api.to_table lua ≡ some n
      → path pan api l r s ≡ ((get_elem? ps i, none), record s { lua = api.pop 1 lua })
  unfolding path
  path_picks l r s lua ids ps i n e at called top =
      rw (called, top, ← resolved_at s.tables ids ps i n e at) refl

  -- The books are kept by remote address alone. Where two connections from different local
  -- addresses have one remote address, and the fingerprints of the first one's paths differ, the
  -- second `Initialize` leaves none of the first one's tables standing for a path.
  pub same_remote_forgets :
      (prefs prefs' : Option ConnectionPreferences) (l l' r : pan.UdpAddr)
      (ps qs : List (PanPath pan)) (s : LuaSelector pan L)
      → IsOwned s.tables
      → Distinct ps
      → (e e' : Err) × (s' s'' : LuaSelector pan L) × (initialize pan api prefs l r ps s
          ≡ returns (e, s'))
        × (initialize pan api prefs' l' r qs s' ≡ returns (e', s''))
        × (map (resolve s''.tables) (handed api ps s) ≡ map (λ _. none) (handed api ps s))
  unfolding get_pan_path
  same_remote_forgets prefs prefs' l l' r ps qs s h d =
      let first = initialized api prefs l r ps s in
      let second = initialized api prefs' l' r qs first.1 in
      (
        first.0,
        second.0,
        first.1,
        second.1,
        initialize-eq api prefs l r ps s,
        initialize-eq api prefs' l' r qs first.1,
        renewed_twice r ps qs s.tables h d,
      )
