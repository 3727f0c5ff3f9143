-- ===== src/Rpc/ServerSelector.antt =====
-- `serverSelector` of rpc/selector.go: one `taps.Selector` for each connection, kept under the
-- text of its two addresses. The map holds each selector's state; a selector is reached only
-- through the map, so no two entries share one.
pub mod Isolation
pub mod Pointers
use panapi.Prelude.{String, str_append, Option, none, some, List}
use panapi.Prelude.GoMap.{GoMap, lookup, insert, delete}
use panapi.Golang.{Err, returns}
use panapi.Pan.{Pan, PathInterface, PanPath}
use panapi.Taps.Preferences.{ConnectionPreferences}
use panapi.Rpc.Interfaces.{Selector, ServerSelector}

-- `local.String() + remote.String()`
unfoldable pub addr_key : (pan : Pan) → pan.UdpAddr → pan.UdpAddr → String
addr_key pan local remote = str_append (pan.addr_string local) (pan.addr_string remote)

module _ (pan : Pan) {S : Type 0} (sel : Selector pan S) (fn : pan.UdpAddr → pan.UdpAddr → S) where
  open pan use {UdpAddr}

  unfoldable pub get_selector : UdpAddr → UdpAddr → GoMap S → S × GoMap S
  get_selector local remote selectors = elim (lookup (addr_key pan local remote) selectors) [
    | none ↦ (fn local remote, insert (addr_key pan local remote) (fn local remote) selectors)
    | some selector ↦ (selector, selectors)
  ]

  -- a method call on the selector, which changes it in place
  abbrev pub update : UdpAddr → UdpAddr → S → GoMap S → GoMap S
  update local remote s selectors = insert (addr_key pan local remote) s selectors

  -- the preferences are not passed on
  unfoldable pub initialize :
      Option ConnectionPreferences
      → UdpAddr
      → UdpAddr
      → List (PanPath pan)
      → GoMap S
      → Err × GoMap S
  initialize prefs local remote paths m =
      let (s, m') = get_selector local remote m in
      (none, update local remote (sel.initialize local remote paths s) m')

  unfoldable pub set_preferences :
      Option ConnectionPreferences → UdpAddr → UdpAddr → GoMap S → Err × GoMap S
  set_preferences prefs local remote m =
      let (s, m') = get_selector local remote m in
      let (e, s') = sel.set_preferences prefs s in (e, update local remote s' m')

  unfoldable pub path : UdpAddr → UdpAddr → GoMap S → (Option (PanPath pan) × Err) × GoMap S
  path local remote m =
      let (s, m') = get_selector local remote m in
      let (p, s') = sel.path s in ((p, none), update local remote s' m')

  unfoldable pub path_down :
      UdpAddr → UdpAddr → String → PathInterface pan → GoMap S → Err × GoMap S
  path_down local remote fp pi m =
      let (s, m') = get_selector local remote m in
      (none, update local remote (sel.path_down fp pi s) m')

  unfoldable pub refresh : UdpAddr → UdpAddr → List (PanPath pan) → GoMap S → Err × GoMap S
  refresh local remote paths m =
      let (s, m') = get_selector local remote m in
      (none, update local remote (sel.refresh paths s) m')

  unfoldable pub close : UdpAddr → UdpAddr → GoMap S → Err × GoMap S
  close local remote m =
      let (s, m') = get_selector local remote m in
      let (e, s') = sel.close s in
      (e, delete (addr_key pan local remote) (update local remote s' m'))

  -- `serverSelector` as a `ServerSelector`: its own code does not panic
  unfoldable pub server_selector : ServerSelector pan (GoMap S)
  unfolding initialize set_preferences path path_down refresh close
  server_selector = record {
    initialize = λ prefs l r ps m. returns (initialize prefs l r ps m);
    set_preferences = λ prefs l r m. returns (set_preferences prefs l r m);
    path = λ l r m. returns (path l r m);
    path_down = λ l r fp pi m. returns (path_down l r fp pi m);
    refresh = λ l r ps m. returns (refresh l r ps m);
    close = λ l r m. returns (close l r m);
  }
