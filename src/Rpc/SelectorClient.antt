-- ===== src/Rpc/SelectorClient.antt =====
-- `SelectorClient` of rpc/selector.go: the path selector of an application, which asks the daemon.
-- The connection to the daemon is a state of type `W` with a call and a hang-up. `log.Fatalln` ends
-- the application. `pan` hands over no nil paths, so a list of paths is one of records; the table
-- `paths` may hold nil, which `PathDown` writes.
pub mod Index
pub mod Trace
use panapi.Prelude.{
  String, Option, none, some, List, [], ◌∷◌, map, Bool, ◌||◌, is_nil, if◌then◌else◌,
}
use panapi.Prelude.GoMap.{GoMap, lookup, insert}
use panapi.Golang.{Err, Run, returns, exits, ◌>>=◌}
use panapi.Pan.{Pan, PathInterface, PanPath}
use panapi.Taps.Preferences.{ConnectionPreferences}
use panapi.Rpc.PathMsg.{PathMsg, new_path_from}
use panapi.Rpc.SelectorServer.{SelectorMsg, blank}

pub record SelectorClient (pan : Pan) : Type 0 where
  pub connection_preferences : Option ConnectionPreferences
  pub paths : GoMap (Option (PanPath pan))
  pub local : Option pan.UdpAddr
  pub remote : Option pan.UdpAddr

-- `Client.Call`, which fills in a blank reply, and `Client.Close` of the connection to the daemon
pub record Connection (pan : Pan) (W : Type 0) : Type 0 where
  pub call : String → SelectorMsg pan → W → (Err × SelectorMsg pan) × W
  pub hang_up : W → Err × W

-- `NewSelectorClient`
unfoldable pub new_selector_client : (pan : Pan) → SelectorClient pan
new_selector_client pan = record {
  connection_preferences = none;
  paths = [];
  local = none;
  remote = none;
}

-- the loop of `Initialize` and `Refresh` over the paths: each is entered in the table
unfoldable pub enter_paths :
    {pan : Pan} → List (PanPath pan) → GoMap (Option (PanPath pan)) → GoMap (Option (PanPath pan))
enter_paths [] table = table
enter_paths (p ∷ ps) table = enter_paths ps (insert p.fingerprint (some p) table)

-- `s.paths[fp]`: a missing entry is nil, and so is an entry that holds nil
unfoldable pub entry : {pan : Pan} → String → GoMap (Option (PanPath pan)) → Option (PanPath pan)
entry fp table = elim (lookup fp table) [ none ↦ none | some p ↦ p ]

-- the path that a reply names, if it names one
abbrev pub named : {pan : Pan} → Option String → GoMap (Option (PanPath pan)) → Option (PanPath pan)
named none table = none
named (some fp) table = entry fp table

module _ (pan : Pan) {W : Type 0} (conn : Connection pan W) where
  -- `if err != nil { s.l.Fatalln(err) }`
  abbrev or_fatal {ℓ} : {A : Type ℓ} → Err → A → Run A
  or_fatal none a = returns a
  or_fatal (some _) a = exits

  unfoldable pub initialize :
      pan.UdpAddr
      → pan.UdpAddr
      → List (PanPath pan)
      → SelectorClient pan
      → W
      → Run (SelectorClient pan × W)
  initialize local remote paths s w =
      let s' : SelectorClient pan = record s {
        remote = some remote;
        local = some local;
        paths = enter_paths paths s.paths;
      } in
      let (reply, w') =
        conn.call "SelectorServer.Initialize"
          (record (blank pan) {
            local = s'.local;
            remote = s'.remote;
            paths = map (new_path_from pan) paths;
            preferences = s'.connection_preferences;
          })
          w in
      or_fatal reply.0 (s', w')

  unfoldable pub set_preferences :
      Option ConnectionPreferences → SelectorClient pan → W → Err × SelectorClient pan × W
  set_preferences prefs s w =
      let s' : SelectorClient pan = record s { connection_preferences = prefs } in
      if is_nil s.local || is_nil s.remote
      then (none, s', w)
      else (let (reply, w') =
            conn.call "SelectorServer.SetPreferences"
              (record (blank pan) {
                local = s'.local;
                remote = s'.remote;
                preferences = s'.connection_preferences;
              })
              w in
          (reply.0, s', w'))

  unfoldable pub path : SelectorClient pan → W → Run (Option (PanPath pan) × W)
  path s w =
      let (reply, w') =
        conn.call "SelectorServer.Path" (record (blank pan) { local = s.local; remote = s.remote })
          w in
      or_fatal reply.0 (named reply.1.fingerprint s.paths, w')

  unfoldable pub path_down :
      String → PathInterface pan → SelectorClient pan → W → Run (SelectorClient pan × W)
  path_down fp pi s w =
      let s' : SelectorClient pan = record s { paths = insert fp none s.paths } in
      let (reply, w') =
        conn.call "SelectorServer.PathDown"
          (record (blank pan) {
            local = s.local;
            remote = s.remote;
            fingerprint = some fp;
            path_interface = some pi;
          })
          w in
      or_fatal reply.0 (s', w')

  unfoldable pub refresh :
      List (PanPath pan) → SelectorClient pan → W → Run (SelectorClient pan × W)
  refresh paths s w =
      let s' : SelectorClient pan = record s { paths = enter_paths paths s.paths } in
      let (reply, w') =
        conn.call "SelectorServer.Refresh"
          (record (blank pan) {
            local = s.local;
            remote = s.remote;
            paths = map (new_path_from pan) paths;
          })
          w in
      or_fatal reply.0 (s', w')

  -- The connection is closed in either case; the error of the call comes first.
  unfoldable pub close : SelectorClient pan → W → Err × W
  close s w =
      let (reply, w') =
        conn.call "SelectorServer.Close" (record (blank pan) { local = s.local; remote = s.remote })
          w in
      let (hung, w'') = conn.hang_up w' in
      elim reply.0 [ some e ↦ (some e, w'') | none ↦ (hung, w'') ]
