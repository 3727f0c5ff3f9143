-- ===== src/Cmd/Daemon/Refreshed.antt =====
-- The daemon that runs a script, and an application's path from a `Refresh` to the answer.
use panapi.Prelude.{ℕ, none, some, List, ◌∷◌, [], ◌≡◌, ◌≢◌, refl, sym, subst, ◌∙◌, get_elem?}
use panapi.Golang.{returns}
use panapi.Pan.{Pan, PanPath}
use panapi.Rpc.SelectorServer.{SelectorMsg}
use panapi.Rpc.SelectorClient
use panapi.Rpc.SelectorClient.{SelectorClient}
use panapi.Rpc.Loopback.{loopback, running}
use panapi.Rpc.Loopback.EndToEnd.{refresh_end_to_end}
use panapi.Lua.Interpreter.{Interpreter}
use panapi.Lua.PathTables.Invariant.{IsOwned}
use panapi.Lua.PathTables.Renewal.{Distinct}
use panapi.Lua.Selector.{LuaSelector, lua_selector, new_selector, refresh, address}
use panapi.Lua.Selector.Renewed.{handed, refreshed, refresh-eq}
use panapi.Lua.Selector.Spared.{
  Work, SparesAll, Standing, serve_others, serve_others-IsOwned, serve_others-Standing,
}
use panapi.Cmd.Daemon.Scripted.{stripped, fresh-IsOwned, renewed-Standing, answered}

module _ (pan : Pan) {L : Type 0} (api : Interpreter pan L)
    (wire : SelectorMsg pan → SelectorMsg pan)
    (wired : (m : SelectorMsg pan) → m.fingerprint ≢ some "" → wire m ≡ m) where
  refreshed-Standing :
      (l r : pan.UdpAddr) (ps : List (PanPath pan)) (d d1 : LuaSelector pan L)
      → IsOwned d.tables
      → Distinct ps
      → refresh pan api l r (stripped ps) d ≡ returns (none, d1)
      → Standing (pan.addr_string r) (handed api (stripped ps) d) (stripped ps) d1.tables
  refreshed-Standing l r ps d d1 h differ accepts =
      let made = sym (refresh-eq api l r (stripped ps) d) ∙ accepts in
      let same : (refreshed api l r (stripped ps) d).1 ≡ d1 = (cc made) in
      subst
        (λ d1. Standing (pan.addr_string r) (handed api (stripped ps) d) (stripped ps) d1.tables)
        same (renewed-Standing pan api wire wired r ps d h differ)

  -- New paths reach the script, and its choice comes back. Over a wire that keeps every message whose
  -- fingerprint is not the empty text, a client that knows its addresses refreshes its paths, of
  -- different fingerprints, at a daemon that has loaded a script and has done any work before, and
  -- the script accepts them. Then the daemon does any work but `Initialize` and `Refresh` for the same
  -- remote address. If the script's `Path` now succeeds and answers with the `i`-th of the tables
  -- that it was handed for the new paths, and the `i`-th of these has a fingerprint that is not
  -- empty, then the client answers with that very path, its forwarding part included, whatever paths
  -- it had before.
  pub refresh_decides :
      (start loaded lua : L) (before others : List (Work pan L)) (d d1 d2 : LuaSelector pan L)
      (c : SelectorClient pan) (l r : pan.UdpAddr) (ps : List (PanPath pan)) (i n : ℕ)
      (p : PanPath pan)
      → serve_others api before (record (new_selector pan api start) { lua = loaded }) ≡ returns d
      → c.local ≡ some l
      → c.remote ≡ some r
      → Distinct ps
      → refresh pan api l r (stripped ps) d ≡ returns (none, d1)
      → serve_others api others d1 ≡ returns d2
      → SparesAll (pan.addr_string r) others
      → api.call_by_param
          (api.raw_get_string "panapi" "Path" d2.lua)
          1
          (address pan api l ∷ address pan api r ∷ [])
          d2.lua
        ≡ (none, lua)
      → api.to_table lua ≡ some n
      → get_elem? (handed api (stripped ps) d) i ≡ some n
      → get_elem? ps i ≡ some p
      → p.fingerprint ≢ ""
      → (c' : SelectorClient pan) × (SelectorClient.refresh pan
            (loopback pan (lua_selector pan api) wire)
            ps
            c
            (running d)
          ≡ returns (c', running d1))
        × (SelectorClient.path pan (loopback pan (lua_selector pan api) wire) c' (running d2)
            ≡ returns (some p, running (record d2 { lua = api.pop 1 lua })))
  unfolding lua_selector
  refresh_decides start loaded lua before others d d1 d2 c l r ps i n p served local remote differ
        accepts goes spared called top chosen given named =
      let qs = stripped ps in
      let owned =
        serve_others-IsOwned api before (record (new_selector pan api start) { lua = loaded }) d
          served (fresh-IsOwned pan api wire wired start) in
      let standing =
        serve_others-Standing api (pan.addr_string r) (handed api qs d) qs others d1 d2 goes spared
          (refreshed-Standing l r ps d d1 owned differ accepts) in
      let (c', runs, local', remote', entries) =
        refresh_end_to_end pan (lua_selector pan api) wire wired l r ps c d d1 local remote
          accepts in
      (
        c',
        runs,
        answered pan api wire wired c' l r d2 lua (handed api qs d) ps i n p local' remote'
            (λ fp q at. entries fp ∙ rw at refl) differ standing called top chosen given named,
      )
