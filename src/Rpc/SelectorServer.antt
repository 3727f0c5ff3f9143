-- ===== src/Rpc/SelectorServer.antt =====
-- `SelectorServer` of rpc/selector.go: the handlers that net/rpc calls in the daemon. A handler
-- gets the message and the blank reply, and returns its error with the reply that it filled in.
-- Nothing recovers from a nil dereference in a handler: it ends the daemon. The elements of
-- `Paths` are never nil, since gob refuses to carry a nil element.
pub mod NilArgs
use panapi.Prelude.{String, Option, none, some, List, [], map, Bool, ◌||◌, is_nil, if◌then◌else◌}
use panapi.Golang.{Error, Err, Run, returns, deref, ◌>>=◌}
use panapi.Golang
use panapi.Pan.{Pan, PathInterface}
use panapi.Taps.Preferences.{ConnectionPreferences}
use panapi.Rpc.PathMsg.{PathMsg, pan_path}
use panapi.Rpc.Interfaces.{ServerSelector}

pub record SelectorMsg (pan : Pan) : Type 0 where
  pub local : Option pan.UdpAddr
  pub remote : Option pan.UdpAddr
  pub fingerprint : Option String
  pub path_interface : Option (PathInterface pan)
  pub preferences : Option ConnectionPreferences
  pub paths : List (PathMsg pan)

-- `SelectorMsg{}`
abbrev pub blank : (pan : Pan) → SelectorMsg pan
blank pan = record {
  local = none;
  remote = none;
  fingerprint = none;
  path_interface = none;
  preferences = none;
  paths = [];
}

abbrev pub err_deref : Error
err_deref = Error.new "Can not dereference Nil value"

module _ (pan : Pan) {T : Type 0} (selector : ServerSelector pan T) where
  -- what a handler does: its error, the reply and the selector's new state
  abbrev pub Handled : Type 0
  Handled = Run (Err × SelectorMsg pan × T)

  abbrev refused : SelectorMsg pan → T → Handled
  refused resp t = returns (some err_deref, resp, t)

  abbrev done : SelectorMsg pan → Run (Err × T) → Handled
  done resp m = do (e, t) ← m; returns (e, resp, t)

  unfoldable pub initialize : SelectorMsg pan → SelectorMsg pan → T → Handled
  initialize args resp t =
      let paths = map (pan_path pan) args.paths in
      if is_nil args.local || is_nil args.remote then refused resp t else do
        local ← deref args.local
        remote ← deref args.remote
        done resp (selector.initialize args.preferences local remote paths t)

  unfoldable pub set_preferences : SelectorMsg pan → SelectorMsg pan → T → Handled
  set_preferences args resp t =
      if is_nil args.local || is_nil args.remote then refused resp t else do
        local ← deref args.local
        remote ← deref args.remote
        done resp (selector.set_preferences args.preferences local remote t)

  -- the fingerprint is filled in beside an error too
  unfoldable pub path : SelectorMsg pan → SelectorMsg pan → T → Handled
  path args resp t = if is_nil args.remote then refused resp t else do
    local ← deref args.local
    remote ← deref args.remote
    (answer, t') ← selector.path local remote t
    elim answer.0 [
      | none ↦ returns (answer.1, resp, t')
      | some p ↦ returns (answer.1, record resp { fingerprint = some p.fingerprint }, t')
    ]

  unfoldable pub path_down : SelectorMsg pan → SelectorMsg pan → T → Handled
  path_down args resp t =
      if is_nil args.remote || is_nil args.fingerprint || is_nil args.path_interface
      then refused resp t
      else do
        local ← deref args.local
        remote ← deref args.remote
        fp ← deref args.fingerprint
        pi ← deref args.path_interface
        done resp (selector.path_down local remote fp pi t)

  unfoldable pub refresh : SelectorMsg pan → SelectorMsg pan → T → Handled
  refresh args resp t =
      let paths = map (pan_path pan) args.paths in
      if is_nil args.remote then refused resp t else do
        local ← deref args.local
        remote ← deref args.remote
        done resp (selector.refresh local remote paths t)

  unfoldable pub close : SelectorMsg pan → SelectorMsg pan → T → Handled
  close args resp t = if is_nil args.remote then refused resp t else do
    local ← deref args.local
    remote ← deref args.remote
    done resp (selector.close local remote t)
