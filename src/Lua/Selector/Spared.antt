-- ===== src/Lua/Selector/Spared.antt =====
-- What the daemon's other work leaves of the tables of a remote address.
use panapi.Prelude.{ℕ, String, none, some, List, [], ◌∷◌, map, ◌≡◌, ◌≢◌, refl, ◌∙◌, subst}
use panapi.Golang.{Err, Run, returns, ◌>>=◌}
use panapi.Pan.{Pan, PanPath}
use panapi.Rpc.Interfaces.{Request, Reply, error, dispatch}
use panapi.Lua.Interpreter.{Interpreter}
use panapi.Lua.PathTables.{PathTables, tables_at}
use panapi.Lua.PathTables.Invariant.{IsOwned}
use panapi.Lua.PathTables.Renewal.{AllIn, renewed, renewed-IsOwned, renewed-keeps}
use panapi.Lua.Selector.{
  LuaSelector, lua_selector, set_preferences, path, path_result, script, address, path_down, close,
  periodic,
}
use panapi.Lua.Selector.Renewed.{initialized, refreshed, initialize-eq, refresh-eq}

-- what the daemon does while it holds the interpreter: it serves a call of its selector, runs
-- `Periodic`, or hands an event to the statistics, which reach nothing but the interpreter, and return
pub data Work (pan : Pan) (L : Type 0) : Type 0 where
  call : Request pan → Work pan L
  tick : ℕ → Work pan L
  trace : (L → L) → Work pan L

module _ {pan : Pan} where
  -- a call that leaves the tables of the remote address alone: any but the two that renew them
  abbrev pub Spares : String → Request pan → Type 0
  Spares raddr (Request.initialize _ _ r _) = pan.addr_string r ≢ raddr
  Spares raddr (Request.refresh _ r _) = pan.addr_string r ≢ raddr
  Spares raddr _ = Unit

  abbrev pub SparesAll : {L : Type 0} → String → List (Work pan L) → Type 0
  SparesAll raddr [] = Unit
  SparesAll raddr (call q ∷ qs) = Spares raddr q × SparesAll raddr qs
  SparesAll raddr (tick _ ∷ qs) = SparesAll raddr qs
  SparesAll raddr (trace _ ∷ qs) = SparesAll raddr qs

  -- The tables are with the address, and stand, in order, for the paths.
  pub record Standing (raddr : String) (ids : List ℕ) (ps : List (PanPath pan)) (t : PathTables pan)
      : Type 0 where
    pub owned : IsOwned t
    pub there : AllIn ids (tables_at t.lpaths raddr)
    pub resolved : map t.ppaths ids ≡ map some ps

  all_kept :
      (r : pan.UdpAddr) (qs : List (PanPath pan)) (raddr : String) (ids : List ℕ)
      (t : PathTables pan)
      → IsOwned t
      → pan.addr_string r ≢ raddr
      → AllIn ids (tables_at t.lpaths raddr)
      → (map (renewed r qs t).ppaths ids ≡ map t.ppaths ids)
        × AllIn ids (tables_at (renewed r qs t).lpaths raddr)
  all_kept r qs raddr [] t h ne x = (refl, tt)
  all_kept r qs raddr (n ∷ ids) t h ne x =
      let (same, still) = renewed-keeps r qs t raddr n h ne x.0 in
      let (rest, all) = all_kept r qs raddr ids t h ne x.1 in (cc (same, rest), (still, all))

  renewed-Standing :
      (r : pan.UdpAddr) (qs : List (PanPath pan)) (raddr : String) (ids : List ℕ)
      (ps : List (PanPath pan)) (t : PathTables pan)
      → pan.addr_string r ≢ raddr
      → Standing raddr ids ps t
      → Standing raddr ids ps (renewed r qs t)
  renewed-Standing r qs raddr ids ps t ne h =
      let (same, all) = all_kept r qs raddr ids t h.owned ne h.there in
      record { owned = renewed-IsOwned r qs t h.owned; there = all; resolved = same ∙ h.resolved }

module _ {pan : Pan} {L : Type 0} (api : Interpreter pan L) where
  -- the daemon's work, one piece after the other; the replies go elsewhere
  unfoldable pub serve_others : List (Work pan L) → LuaSelector pan L → Run (LuaSelector pan L)
  serve_others [] s = returns s
  serve_others (call q ∷ qs) s =
      dispatch pan (lua_selector pan api) q s >>= λ r. serve_others qs r.1
  serve_others (tick seconds ∷ qs) s = serve_others qs (periodic pan api seconds s)
  serve_others (trace f ∷ qs) s = serve_others qs (record s { lua = f s.lua })

  path_result-tables : (r : Err × LuaSelector pan L) → (path_result pan api r).1.tables ≡ r.1.tables
  path_result-tables (none, s) = refl
  path_result-tables (some e, s) = refl

  -- what a call does to the tables
  abbrev tables_after : Request pan → PathTables pan → PathTables pan
  tables_after (Request.initialize prefs l r qs) t = renewed r qs t
  tables_after (Request.refresh l r qs) t = renewed r qs t
  tables_after _ t = t

  -- every call returns
  dispatched :
      (q : Request pan) (s : LuaSelector pan L)
      → (r : Reply pan × LuaSelector pan L) × (dispatch pan (lua_selector pan api) q s ≡ returns r)
        × (r.1.tables ≡ tables_after q s.tables)
  unfolding dispatch lua_selector set_preferences path path_down close
  dispatched (Request.initialize prefs l r qs) s = (
    (error (initialized api prefs l r qs s).0, (initialized api prefs l r qs s).1),
    rw (initialize-eq api prefs l r qs s) refl,
    refl,
  )
  dispatched (Request.refresh l r qs) s = (
    (error (refreshed api l r qs s).0, (refreshed api l r qs s).1),
    rw (refresh-eq api l r qs s) refl,
    refl,
  )
  dispatched (Request.set_preferences prefs l r) s = (_, refl, refl)
  dispatched (Request.path l r) s = (
    _,
    refl,
    path_result-tables (script pan api "Path" 1 (address pan api l ∷ address pan api r ∷ []) s),
  )
  dispatched (Request.path_down l r fp pi) s = (_, refl, refl)
  dispatched (Request.close l r) s = (_, refl, refl)

  tables_after-IsOwned :
      (q : Request pan) (t : PathTables pan) → IsOwned t → IsOwned (tables_after q t)
  tables_after-IsOwned (Request.initialize prefs l r qs) t h = renewed-IsOwned r qs t h
  tables_after-IsOwned (Request.refresh l r qs) t h = renewed-IsOwned r qs t h
  tables_after-IsOwned (Request.set_preferences prefs l r) t h = h
  tables_after-IsOwned (Request.path l r) t h = h
  tables_after-IsOwned (Request.path_down l r fp pi) t h = h
  tables_after-IsOwned (Request.close l r) t h = h

  tables_after-Standing :
      (raddr : String) (ids : List ℕ) (ps : List (PanPath pan)) (q : Request pan)
      (t : PathTables pan)
      → Spares raddr q
      → Standing raddr ids ps t
      → Standing raddr ids ps (tables_after q t)
  tables_after-Standing raddr ids ps (Request.initialize prefs l r qs) t ne h =
      renewed-Standing r qs raddr ids ps t ne h
  tables_after-Standing raddr ids ps (Request.refresh l r qs) t ne h =
      renewed-Standing r qs raddr ids ps t ne h
  tables_after-Standing raddr ids ps (Request.set_preferences prefs l r) t ne h = h
  tables_after-Standing raddr ids ps (Request.path l r) t ne h = h
  tables_after-Standing raddr ids ps (Request.path_down l r fp pi) t ne h = h
  tables_after-Standing raddr ids ps (Request.close l r) t ne h = h

  -- whatever was served, the books are in order
  pub serve_others-IsOwned :
      (qs : List (Work pan L)) (s s' : LuaSelector pan L)
      → serve_others qs s ≡ returns s'
      → IsOwned s.tables
      → IsOwned s'.tables
  unfolding serve_others periodic
  serve_others-IsOwned [] s s' e h =
      let same : s ≡ s' = (cc e) in subst (λ s. IsOwned s.tables) same h
  serve_others-IsOwned (call q ∷ qs) s s' e h =
      let (r, runs, tables) = dispatched q s in
      serve_others-IsOwned qs r.1 s' (rw runs at e) (rw tables (tables_after-IsOwned q s.tables h))
  serve_others-IsOwned (tick seconds ∷ qs) s s' e h =
      serve_others-IsOwned qs (periodic pan api seconds s) s' e h
  serve_others-IsOwned (trace f ∷ qs) s s' e h =
      serve_others-IsOwned qs (record s { lua = f s.lua }) s' e h

  -- and the tables of an address that all calls spare stay with it
  pub serve_others-Standing :
      (raddr : String) (ids : List ℕ) (ps : List (PanPath pan)) (qs : List (Work pan L))
      (s s' : LuaSelector pan L)
      → serve_others qs s ≡ returns s'
      → SparesAll raddr qs
      → Standing raddr ids ps s.tables
      → Standing raddr ids ps s'.tables
  unfolding serve_others periodic
  serve_others-Standing raddr ids ps [] s s' e ne h =
      let same : s ≡ s' = (cc e) in subst (λ s. Standing raddr ids ps s.tables) same h
  serve_others-Standing raddr ids ps (call q ∷ qs) s s' e ne h =
      let (r, runs, tables) = dispatched q s in
      serve_others-Standing raddr ids ps qs r.1 s' (rw runs at e) ne.1
        (rw tables (tables_after-Standing raddr ids ps q s.tables ne.0 h))
  serve_others-Standing raddr ids ps (tick seconds ∷ qs) s s' e ne h =
      serve_others-Standing raddr ids ps qs (periodic pan api seconds s) s' e ne h
  serve_others-Standing raddr ids ps (trace f ∷ qs) s s' e ne h =
      serve_others-Standing raddr ids ps qs (record s { lua = f s.lua }) s' e ne h
