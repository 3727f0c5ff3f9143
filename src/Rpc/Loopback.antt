-- ===== src/Rpc/Loopback.antt =====
-- The client of rpc/selector.go joined to the handlers by net/rpc (`Client.Call` of rpc/rpc.go and
-- the server that `NewServer` registers). `wire` is what gob makes of a message: a parameter. An
-- error travels as its text, and the reply of a failed call stays blank. A handler that panics ends
-- the daemon: the call in flight fails with `io.ErrUnexpectedEOF`, every later one with
-- `rpc.ErrShutdown`, and the client can still close its end once.
pub mod EndToEnd
use panapi.Prelude.{String, Option, none, some, Bool, true, false, str_eq, if◌then◌else◌}
use panapi.Golang.{Error, Err, Run, returns, panics, exits}
use panapi.Pan.{Pan}
use panapi.Rpc.Interfaces.{ServerSelector}
use panapi.Rpc.SelectorServer
use panapi.Rpc.SelectorServer.{SelectorMsg, blank, Handled}
use panapi.Rpc.SelectorClient.{Connection}

-- `daemon` is `none` once the daemon has ended, `connected` false once the client has closed its end
pub record World (T : Type 0) : Type 0 where
  pub daemon : Option T
  pub connected : Bool

abbrev pub over_wire : Error → Error
over_wire (Error.new text) = Error.foreign text
over_wire (Error.foreign text) = Error.foreign text

abbrev pub err_shutdown : Error
err_shutdown = Error.foreign "connection is shut down"

-- `io.ErrUnexpectedEOF`
abbrev pub err_unexpected_eof : Error
err_unexpected_eof = Error.foreign "unexpected EOF"

module _ (pan : Pan) {T : Type 0} (selector : ServerSelector pan T)
    (wire : SelectorMsg pan → SelectorMsg pan) where
  -- the method that net/rpc finds under a name
  unfoldable pub find_method :
      String → Option (SelectorMsg pan → SelectorMsg pan → T → Handled pan selector)
  find_method name =
      if str_eq name "SelectorServer.Initialize"
      then some (SelectorServer.initialize pan selector)
      else if str_eq name "SelectorServer.SetPreferences"
      then some (SelectorServer.set_preferences pan selector)
      else if str_eq name "SelectorServer.Path"
      then some (SelectorServer.path pan selector)
      else if str_eq name "SelectorServer.PathDown"
      then some (SelectorServer.path_down pan selector)
      else if str_eq name "SelectorServer.Refresh"
      then some (SelectorServer.refresh pan selector)
      else if str_eq name "SelectorServer.Close"
      then some (SelectorServer.close pan selector)
      else none

  abbrev pub outcome : Handled pan selector → World T → (Err × SelectorMsg pan) × World T
  outcome (returns (none, resp, t)) w = ((none, wire resp), record w { daemon = some t })
  outcome (returns (some e, resp, t)) w =
      ((some (over_wire e), blank pan), record w { daemon = some t })
  outcome panics w = ((some err_unexpected_eof, blank pan), record w { daemon = none })
  outcome exits w = ((some err_unexpected_eof, blank pan), record w { daemon = none })

  abbrev pub deliver :
      Option (SelectorMsg pan → SelectorMsg pan → T → Handled pan selector)
      → SelectorMsg pan
      → Option T
      → World T
      → (Err × SelectorMsg pan) × World T
  deliver handler args none w = ((some err_shutdown, blank pan), w)
  deliver none args (some t) w = ((some (Error.foreign "rpc: can't find method"), blank pan), w)
  deliver (some handler) args (some t) w = outcome (handler (wire args) (blank pan) t) w

  unfoldable pub call : String → SelectorMsg pan → World T → (Err × SelectorMsg pan) × World T
  unfolding find_method
  call name args w =
      if w.connected
      then deliver (find_method name) args w.daemon w
      else ((some err_shutdown, blank pan), w)

  unfoldable pub hang_up : World T → Err × World T
  hang_up w = if w.connected then (none, record w { connected = false }) else (some err_shutdown, w)

  unfoldable pub loopback : Connection pan (World T)
  unfolding call hang_up
  loopback = record { call = call; hang_up = hang_up }

-- a daemon that runs, and a client that is connected to it
abbrev pub running : {T : Type 0} → T → World T
running t = record { daemon = some t; connected = true }
