-- ===== src/Rpc/Interfaces.antt =====
-- The interfaces `taps.Selector` (one connection's path selector) and `rpc.ServerSelector` (the
-- daemon's, for all connections), as records of operations on a state.
use panapi.Prelude.{String, Option, List}
use panapi.Golang.{Err, Run, returns, ◌>>=◌}
use panapi.Pan.{Pan, PathInterface, PanPath}
use panapi.Taps.Preferences.{ConnectionPreferences}

module _ (pan : Pan) where
  open pan use {UdpAddr}

  -- `taps.Selector`: `pan.Selector` with `SetPreferences`
  pub record Selector (S : Type 0) : Type 0 where
    pub initialize : UdpAddr → UdpAddr → List (PanPath pan) → S → S
    pub path : S → Option (PanPath pan) × S
    pub path_down : String → PathInterface pan → S → S
    pub refresh : List (PanPath pan) → S → S
    pub close : S → Err × S
    pub set_preferences : Option ConnectionPreferences → S → Err × S

  -- `rpc.ServerSelector`; a method may panic
  pub record ServerSelector (T : Type 0) : Type 0 where
    pub initialize :
        Option ConnectionPreferences → UdpAddr → UdpAddr → List (PanPath pan) → T → Run (Err × T)
    pub set_preferences : Option ConnectionPreferences → UdpAddr → UdpAddr → T → Run (Err × T)
    pub path : UdpAddr → UdpAddr → T → Run ((Option (PanPath pan) × Err) × T)
    pub path_down : UdpAddr → UdpAddr → String → PathInterface pan → T → Run (Err × T)
    pub refresh : UdpAddr → UdpAddr → List (PanPath pan) → T → Run (Err × T)
    pub close : UdpAddr → UdpAddr → T → Run (Err × T)

  -- one call of a `ServerSelector`, with its arguments
  pub data Request : Type 0 where
    initialize : Option ConnectionPreferences → UdpAddr → UdpAddr → List (PanPath pan) → Request
    set_preferences : Option ConnectionPreferences → UdpAddr → UdpAddr → Request
    path : UdpAddr → UdpAddr → Request
    path_down : UdpAddr → UdpAddr → String → PathInterface pan → Request
    refresh : UdpAddr → UdpAddr → List (PanPath pan) → Request
    close : UdpAddr → UdpAddr → Request

  -- what a call returns
  pub data Reply : Type 0 where
    error : Err → Reply
    answer : Option (PanPath pan) → Err → Reply

  abbrev as_error : {T : Type 0} → Run (Err × T) → Run (Reply × T)
  as_error m = do (e, t) ← m; returns (error e, t)

  abbrev as_answer : {T : Type 0} → Run ((Option (PanPath pan) × Err) × T) → Run (Reply × T)
  as_answer m = do ((p, e), t) ← m; returns (answer p e, t)

  -- the dynamic dispatch of a call to an implementation
  unfoldable pub dispatch : {T : Type 0} → ServerSelector T → Request → T → Run (Reply × T)
  dispatch i (Request.initialize prefs l r ps) t = as_error (i.initialize prefs l r ps t)
  dispatch i (Request.set_preferences prefs l r) t = as_error (i.set_preferences prefs l r t)
  dispatch i (Request.path l r) t = as_answer (i.path l r t)
  dispatch i (Request.path_down l r fp pi) t = as_error (i.path_down l r fp pi t)
  dispatch i (Request.refresh l r ps) t = as_error (i.refresh l r ps t)
  dispatch i (Request.close l r) t = as_error (i.close l r t)
