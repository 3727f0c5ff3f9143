-- ===== src/Taps/DefaultSelector.antt =====
-- `DefaultSelector` of taps/selector.go: the default selector of package pan, whose methods are
-- parameters, with a `SetPreferences` that changes nothing.
use panapi.Prelude.{String, Option, none, List}
use panapi.Golang.{Err}
use panapi.Pan.{Pan, PathInterface, PanPath}
use panapi.Rpc.Interfaces.{Selector}

-- `pan.Selector`
pub record PanSelector (pan : Pan) (S : Type 0) : Type 0 where
  pub initialize : pan.UdpAddr → pan.UdpAddr → List (PanPath pan) → S → S
  pub path : S → Option (PanPath pan) × S
  pub path_down : String → PathInterface pan → S → S
  pub refresh : List (PanPath pan) → S → S
  pub close : S → Err × S

unfoldable pub default_selector : {pan : Pan} {S : Type 0} → PanSelector pan S → Selector pan S
default_selector base = record {
  initialize = base.initialize;
  path = base.path;
  path_down = base.path_down;
  refresh = base.refresh;
  close = base.close;
  set_preferences = λ prefs s. (none, s);
}
