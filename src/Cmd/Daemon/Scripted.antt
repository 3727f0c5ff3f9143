-- ===== src/Cmd/Daemon/Scripted.antt =====
-- The daemon that runs a script, and an application's path from its `Initialize` to the answer.
use panapi.Prelude.{
  ℕ, zero, suc, String, none, some, List, [], ◌∷◌, map, ◌≡◌, ◌≢◌, refl, sym, subst, ap, ◌∙◌, arith,
  eq_iff, get_elem?,
}
use panapi.Golang.{returns}
use panapi.Pan.{Pan, PanPath}
use panapi.Rpc.PathMsg.{without_forwarding}
use panapi.Rpc.SelectorServer.{SelectorMsg}
use panapi.Rpc.SelectorClient
use panapi.Rpc.SelectorClient.{SelectorClient, entry}
use panapi.Rpc.SelectorClient.Index.{last_with}
use panapi.Rpc.Loopback.{loopback, running}
use panapi.Rpc.Loopback.EndToEnd.{initialize_end_to_end, path_end_to_end}
use panapi.Lua.Interpreter.{Interpreter}
use panapi.Lua.PathTables.{get_pan_path}
use panapi.Lua.PathTables.Invariant.{new_state-IsOwned, IsOwned}
use panapi.Lua.PathTables.Renewal.{
  Absent, Distinct, renewed, renewed-AllIn, renewed-resolve, renewed-IsOwned,
}
use panapi.Lua.Selector.{LuaSelector, lua_selector, new_selector, initialize, path, address}
use panapi.Lua.Selector.Renewed.{handed, initialized, initialize-eq}
use panapi.Lua.Selector.Translates.{path_picks}
use panapi.Lua.Selector.Spared.{
  Work, SparesAll, Standing, serve_others, serve_others-IsOwned, serve_others-Standing,
}

module _ {pan : Pan} where
  abbrev pub stripped : List (PanPath pan) → List (PanPath pan)
  stripped ps = map (without_forwarding pan) ps

  Absent-stripped : (fp : String) (ps : List (PanPath pan)) → Absent fp ps → Absent fp (stripped ps)
  Absent-stripped fp [] h = tt
  Absent-stripped fp (p ∷ ps) h = (h.0, Absent-stripped fp ps h.1)

  Distinct-stripped : (ps : List (PanPath pan)) → Distinct ps → Distinct (stripped ps)
  Distinct-stripped [] h = tt
  Distinct-stripped (p ∷ ps) h = (Absent-stripped p.fingerprint ps h.0, Distinct-stripped ps h.1)

  get_elem?-stripped :
      (ps : List (PanPath pan)) (i : ℕ) (p : PanPath pan)
      → get_elem? ps i ≡ some p
      → get_elem? (stripped ps) i ≡ some (without_forwarding pan p)
  get_elem?-stripped [] i p h = cc h
  get_elem?-stripped (q ∷ ps) zero p h = cc h
  get_elem?-stripped (q ∷ ps) (suc i) p h = get_elem?-stripped ps i p h

  last_with-Absent : (fp : String) (ps : List (PanPath pan)) → Absent fp ps → last_with fp ps ≡ none
  unfolding last_with
  last_with-Absent fp [] h = refl
  last_with-Absent fp (p ∷ ps) h = ground (arith, last_with-Absent fp ps h.1)

  Absent-get_elem? :
      (fp : String) (ps : List (PanPath pan)) (i : ℕ) (p : PanPath pan)
      → Absent fp ps
      → get_elem? ps i ≡ some p
      → p.fingerprint ≢ fp
  Absent-get_elem? fp [] i p h at = λ e. cc at
  Absent-get_elem? fp (q ∷ ps) zero p h at = λ e. ground (arith, eq_iff q.fingerprint fp)
  Absent-get_elem? fp (q ∷ ps) (suc i) p h at = Absent-get_elem? fp ps i p h.1 at

  -- a list of distinct fingerprints has each path under its own
  last_with-Distinct :
      (ps : List (PanPath pan)) (i : ℕ) (p : PanPath pan)
      → Distinct ps
      → get_elem? ps i ≡ some p
      → last_with p.fingerprint ps ≡ some p
  unfolding last_with
  last_with-Distinct [] i p h at = cc at
  last_with-Distinct (q ∷ ps) zero p h at =
      let same : q ≡ p = (cc at) in
      ground
        (arith, same, last_with-Absent q.fingerprint ps h.0, eq_iff q.fingerprint p.fingerprint)
  last_with-Distinct (q ∷ ps) (suc i) p h at = ground (arith, last_with-Distinct ps i p h.1 at)

module _ (pan : Pan) {L : Type 0} (api : Interpreter pan L)
    (wire : SelectorMsg pan → SelectorMsg pan)
    (wired : (m : SelectorMsg pan) → m.fingerprint ≢ some "" → wire m ≡ m) where
  pub fresh-IsOwned : (start : L) → IsOwned (new_selector pan api start).tables
  unfolding new_selector
  fresh-IsOwned start = new_state-IsOwned

  -- what `Initialize` or `Refresh` leaves in the books of a daemon
  pub renewed-Standing :
      (r : pan.UdpAddr) (ps : List (PanPath pan)) (d : LuaSelector pan L)
      → IsOwned d.tables
      → Distinct ps
      → Standing
          (pan.addr_string r)
          (handed api (stripped ps) d)
          (stripped ps)
          (renewed r (stripped ps) d.tables)
  renewed-Standing r ps d h differ = record {
    owned = renewed-IsOwned r (stripped ps) d.tables h;
    there = renewed-AllIn r (stripped ps) d.tables (Distinct-stripped ps differ);
    resolved = renewed-resolve r (stripped ps) d.tables;
  }

  accepted-Standing :
      (c : SelectorClient pan) (l r : pan.UdpAddr) (ps : List (PanPath pan))
      (d d1 : LuaSelector pan L)
      → IsOwned d.tables
      → Distinct ps
      → initialize pan api c.connection_preferences l r (stripped ps) d ≡ returns (none, d1)
      → Standing (pan.addr_string r) (handed api (stripped ps) d) (stripped ps) d1.tables
  accepted-Standing c l r ps d d1 h differ accepts =
      let made = sym (initialize-eq api c.connection_preferences l r (stripped ps) d) ∙ accepts in
      let same : (initialized api c.connection_preferences l r (stripped ps) d).1 ≡ d1 =
        (cc made) in
      subst
        (λ d1. Standing (pan.addr_string r) (handed api (stripped ps) d) (stripped ps) d1.tables)
        same (renewed-Standing r ps d h differ)

  -- the answer of the daemon's selector
  answer_resolved :
      (l r : pan.UdpAddr) (d : LuaSelector pan L) (lua : L) (ids : List ℕ) (ps : List (PanPath pan))
      (i n : ℕ) (p : PanPath pan)
      → Standing (pan.addr_string r) ids (map (without_forwarding pan) ps) d.tables
      → api.call_by_param
          (api.raw_get_string "panapi" "Path" d.lua)
          1
          (address pan api l ∷ address pan api r ∷ [])
          d.lua
        ≡ (none, lua)
      → api.to_table lua ≡ some n
      → get_elem? ids i ≡ some n
      → get_elem? ps i ≡ some p
      → path pan api l r d
        ≡ ((some (without_forwarding pan p), none), record d { lua = api.pop 1 lua })
  unfolding get_pan_path
  answer_resolved l r d lua ids ps i n p h called top chosen given =
      path_picks api l r d lua ids (map (without_forwarding pan) ps) i n h.resolved chosen called
        top
      ∙ rw (get_elem?-stripped ps i p given) refl

  -- and of a client that has the paths
  pub answered :
      (c : SelectorClient pan) (l r : pan.UdpAddr) (d : LuaSelector pan L) (lua : L) (ids : List ℕ)
      (ps : List (PanPath pan)) (i n : ℕ) (p : PanPath pan)
      → c.local ≡ some l
      → c.remote ≡ some r
      → ((fp : String) (q : PanPath pan) → last_with fp ps ≡ some q → entry fp c.paths ≡ some q)
      → Distinct ps
      → Standing (pan.addr_string r) ids (stripped ps) d.tables
      → api.call_by_param
          (api.raw_get_string "panapi" "Path" d.lua)
          1
          (address pan api l ∷ address pan api r ∷ [])
          d.lua
        ≡ (none, lua)
      → api.to_table lua ≡ some n
      → get_elem? ids i ≡ some n
      → get_elem? ps i ≡ some p
      → p.fingerprint ≢ ""
      → SelectorClient.path pan (loopback pan (lua_selector pan api) wire) c (running d)
        ≡ returns (some p, running (record d { lua = api.pop 1 lua }))
  unfolding lua_selector
  answered c l r d lua ids ps i n p local remote own differ standing called top chosen given named =
      let picks = answer_resolved l r d lua ids ps i n p standing called top chosen given in
      rw (own p.fingerprint p (last_with-Distinct ps i p differ given)) at (
        path_end_to_end pan (lua_selector pan api) wire wired l r c
          (some (without_forwarding pan p)) d (record d { lua = api.pop 1 lua }) local remote
          (λ e. named (cc e)) (ap returns picks))

  -- The script decides. Over a wire that keeps every message whose fingerprint is not the empty
  -- text, a client tells a daemon that has loaded a script, and has done any work before, of paths
  -- with different fingerprints, and the script accepts them. Then the daemon does any work but
  -- `Initialize` and `Refresh` for the same remote address. If the script's `Path` now succeeds and answers
  -- with the `i`-th of the tables that it was handed for the client's paths, and the `i`-th of these
  -- paths has a fingerprint that is not empty, then the client answers with that very path, its
  -- forwarding part included.
  pub script_decides :
      (start loaded lua : L) (before others : List (Work pan L)) (d d1 d2 : LuaSelector pan L)
      (c : SelectorClient pan) (l r : pan.UdpAddr) (ps : List (PanPath pan)) (i n : ℕ)
      (p : PanPath pan)
      → serve_others api before (record (new_selector pan api start) { lua = loaded }) ≡ returns d
      → Distinct ps
      → initialize pan api c.connection_preferences l r (map (without_forwarding pan) ps) d
        ≡ returns (none, d1)
      → serve_others api others d1 ≡ returns d2
      → SparesAll (pan.addr_string r) others
      → api.call_by_param
          (api.raw_get_string "panapi" "Path" d2.lua)
          1
          (address pan api l ∷ address pan api r ∷ [])
          d2.lua
        ≡ (none, lua)
      → api.to_table lua ≡ some n
      → get_elem? (handed api (map (without_forwarding pan) ps) d) i ≡ some n
      → get_elem? ps i ≡ some p
      → p.fingerprint ≢ ""
      → (c' : SelectorClient pan) × (SelectorClient.initialize pan
            (loopback pan (lua_selector pan api) wire)
            l
            r
            ps
            c
            (running d)
          ≡ returns (c', running d1))
        × (SelectorClient.path pan (loopback pan (lua_selector pan api) wire) c' (running d2)
            ≡ returns (some p, running (record d2 { lua = api.pop 1 lua })))
  unfolding lua_selector
  script_decides start loaded lua before others d d1 d2 c l r ps i n p served differ accepts goes
        spared called top chosen given named =
      let qs = stripped ps in
      let owned =
        serve_others-IsOwned api before (record (new_selector pan api start) { lua = loaded }) d
          served (fresh-IsOwned start) in
      let standing =
        serve_others-Standing api (pan.addr_string r) (handed api qs d) qs others d1 d2 goes spared
          (accepted-Standing c l r ps d d1 owned differ accepts) in
      let (c', runs, local, remote, _, entries) =
        initialize_end_to_end pan (lua_selector pan api) wire wired l r ps c d d1 accepts in
      (
        c',
        runs,
        answered c' l r d2 lua (handed api qs d) ps i n p local remote
            (λ fp q at. entries fp ∙ rw at refl) differ standing called top chosen given named,
      )
