-- ===== src/Rpc/Loopback/EndToEnd.antt =====
-- What an application's calls do in the daemon, and what comes back.
use panapi.Prelude.{◌≢◌, String, Option, none, some, List, [], ◌∷◌, map, ◌≡◌, refl}
use panapi.Golang.{returns, exits}
use panapi.Pan.{Pan, PanPath}
use panapi.Taps.Preferences.{ConnectionPreferences}
use panapi.Rpc.PathMsg.{pan_path, new_path_from, without_forwarding}
use panapi.Rpc.Interfaces.{ServerSelector}
use panapi.Rpc.SelectorServer
use panapi.Rpc.SelectorServer.{SelectorMsg, blank}
use panapi.Rpc.SelectorClient
use panapi.Rpc.SelectorClient.{SelectorClient, Connection, entry, new_selector_client}
use panapi.Rpc.SelectorClient.Index.{last_with, or_else, entry-enter_paths}
use panapi.Rpc.Loopback.{World, loopback, running}

module _ (pan : Pan) {T : Type 0} (selector : ServerSelector pan T)
    (wire : SelectorMsg pan → SelectorMsg pan)
    (wired : (m : SelectorMsg pan) → m.fingerprint ≢ some "" → wire m ≡ m) where
  abbrev conn : Connection pan (World T)
  conn = loopback pan selector wire

  map-pan_path :
      (ps : List (PanPath pan))
      → map (pan_path pan) (map (new_path_from pan) ps) ≡ map (without_forwarding pan) ps
  unfolding pan_path new_path_from
  map-pan_path [] = refl
  map-pan_path (p ∷ ps) = cc (map-pan_path ps)

  -- the client after an `Initialize`
  abbrev initialized :
      pan.UdpAddr → pan.UdpAddr → List (PanPath pan) → SelectorClient pan → SelectorClient pan
  initialized l r ps s = record s {
    local = some l;
    remote = some r;
    paths = SelectorClient.enter_paths ps s.paths;
  }

  -- Over a wire that keeps every message whose fingerprint is not the empty text: if the daemon's
  -- selector accepts it, a client's `Initialize` runs the selector's once, on the addresses, the
  -- preferences that the client holds and the paths without their forwarding part; the client keeps the addresses and its preferences, and the last path of each fingerprint.
  pub initialize_end_to_end :
      (l r : pan.UdpAddr) (ps : List (PanPath pan)) (s : SelectorClient pan) (t t' : T)
      → selector.initialize s.connection_preferences l r (map (without_forwarding pan) ps) t
        ≡ returns (none, t')
      → (s' : SelectorClient pan) × (SelectorClient.initialize pan conn l r ps s (running t)
          ≡ returns (s', running t'))
        × (s'.local ≡ some l)
        × (s'.remote ≡ some r)
        × (s'.connection_preferences ≡ s.connection_preferences)
        × ((fp : String) → entry fp s'.paths ≡ or_else (last_with fp ps) (entry fp s.paths))
  unfolding loopback SelectorClient.initialize SelectorServer.initialize
  initialize_end_to_end l r ps s t t' e = (
    initialized l r ps s,
    (let there =
          wired
            (record (blank pan) {
              local = some l;
              remote = some r;
              paths = map (new_path_from pan) ps;
              preferences = s.connection_preferences;
            })
            (λ x. cc x) in
        simp (there, map-pan_path, e)),
    refl,
    refl,
    refl,
    λ fp. entry-enter_paths fp ps s.paths,
  )

  -- Over a wire that keeps every message whose fingerprint is not the empty text: if the daemon's
  -- selector accepts it, the `Refresh` of a client that knows its addresses runs the selector's once,
  -- on the paths without their forwarding part, and enters them in the client's table.
  pub refresh_end_to_end :
      (l r : pan.UdpAddr) (ps : List (PanPath pan)) (s : SelectorClient pan) (t t' : T)
      → s.local ≡ some l
      → s.remote ≡ some r
      → selector.refresh l r (map (without_forwarding pan) ps) t ≡ returns (none, t')
      → (s' : SelectorClient pan) × (SelectorClient.refresh pan conn ps s (running t)
          ≡ returns (s', running t'))
        × (s'.local ≡ some l)
        × (s'.remote ≡ some r)
        × ((fp : String) → entry fp s'.paths ≡ or_else (last_with fp ps) (entry fp s.paths))
  unfolding loopback SelectorClient.refresh SelectorServer.refresh
  refresh_end_to_end l r ps s t t' el er e = (
    record s { paths = SelectorClient.enter_paths ps s.paths },
    (let there =
          wired
            (record (blank pan) {
              local = some l;
              remote = some r;
              paths = map (new_path_from pan) ps;
            })
            (λ x. cc x) in
        simp (el, er, there, map-pan_path, e)),
    el,
    er,
    λ fp. entry-enter_paths fp ps s.paths,
  )

  -- Over a wire that keeps every message whose fingerprint is not the empty text: preferences that
  -- are set before the addresses are known reach nobody at first, and the next `Initialize`, if the
  -- daemon's selector accepts it, hands them to that selector.
  pub early_preferences_delivered :
      (prefs : Option ConnectionPreferences) (l r : pan.UdpAddr) (ps : List (PanPath pan))
      (t t' : T)
      → selector.initialize prefs l r (map (without_forwarding pan) ps) t ≡ returns (none, t')
      → let (err, s, w) =
          SelectorClient.set_preferences pan conn prefs (new_selector_client pan) (running t) in
        (err ≡ none)
        × (w ≡ running t)
        × ((s' : SelectorClient pan) × (SelectorClient.initialize pan conn l r ps s w
              ≡ returns (s', running t')))
  unfolding SelectorClient.set_preferences new_selector_client
  early_preferences_delivered prefs l r ps t t' e =
      let held : SelectorClient pan =
        record (unfold new_selector_client in new_selector_client pan) {
          connection_preferences = prefs;
        } in
      let (s', runs, _, _, _, _) = initialize_end_to_end l r ps held t t' e in
      (refl, refl, (s', runs))

  -- the message of a `Path` between two addresses
  abbrev asks : pan.UdpAddr → pan.UdpAddr → SelectorMsg pan
  asks l r = record (blank pan) { local = some l; remote = some r }

  abbrev pub fingerprint_of : Option (PanPath pan) → Option String
  fingerprint_of none = none
  fingerprint_of (some p) = some p.fingerprint

  -- Over a wire that keeps every message whose fingerprint is not the empty text, the path of a
  -- connected client that knows its addresses: if the daemon's selector picks a path with a
  -- fingerprint, the client answers with its own entry of that fingerprint, whatever else the daemon's path holds;
  -- if it picks none, the client answers none.
  pub path_end_to_end :
      (l r : pan.UdpAddr) (s : SelectorClient pan) (o : Option (PanPath pan)) (t t' : T)
      → s.local ≡ some l
      → s.remote ≡ some r
      → fingerprint_of o ≢ some ""
      → selector.path l r t ≡ returns ((o, none), t')
      → SelectorClient.path pan conn s (running t)
        ≡ returns (elim o [ none ↦ none | some p ↦ entry p.fingerprint s.paths ], running t')
  unfolding loopback SelectorClient.path SelectorServer.path
  path_end_to_end l r s none t t' el er named e =
      (let there = wired (asks l r) (λ x. cc x) in
        let back = wired (blank pan) (λ x. cc x) in simp (el, er, there, e, back))
  path_end_to_end l r s (some p) t t' el er named e =
      (let there = wired (asks l r) (λ x. cc x) in
        let back = wired (record (blank pan) { fingerprint = some p.fingerprint }) named in
        simp (el, er, there, e, back))

  -- Over a wire that keeps every message whose fingerprint is not the empty text, a connected client
  -- that was never given a remote address and asks for a path ends its process.
  pub path_before_initialize_exits :
      (s : SelectorClient pan) (t : T)
      → s.remote ≡ none
      → SelectorClient.path pan conn s (running t) ≡ exits
  unfolding loopback SelectorClient.path SelectorServer.path
  path_before_initialize_exits s t er =
      (let there = wired (record (blank pan) { local = s.local }) (λ x. cc x) in simp (er, there))
