-- ===== src/Rpc/SelectorServer/NilArgs.antt =====
-- Which messages the handlers refuse, and which end the daemon.
use panapi.Prelude.{none, some, ◌≡◌, ◌≢◌, arith}
use panapi.Golang.{returns, panics}
use panapi.Pan.{Pan}
use panapi.Rpc.Interfaces.{ServerSelector}
use panapi.Rpc.SelectorServer.{
  SelectorMsg, Handled, err_deref, initialize, set_preferences, path, path_down, refresh, close,
}

module _ (pan : Pan) {T : Type 0} (i : ServerSelector pan T) (args resp : SelectorMsg pan)
    (t : T) where
  abbrev pub refusal : Handled pan i
  refusal = returns (some err_deref, resp, t)

  -- Every handler refuses a message without the remote address: it returns `ErrDeref`, and leaves
  -- the reply and the selector alone.
  pub no_remote_refused :
      args.remote ≡ none
      → (initialize pan i args resp t ≡ refusal)
        × (set_preferences pan i args resp t ≡ refusal)
        × (path pan i args resp t ≡ refusal)
        × (path_down pan i args resp t ≡ refusal)
        × (refresh pan i args resp t ≡ refusal)
        × (close pan i args resp t ≡ refusal)
  unfolding initialize set_preferences path path_down refresh close
  no_remote_refused h = ground arith

  -- A message with the remote address, a fingerprint and an interface, but without the local
  -- address, is refused by `Initialize` and `SetPreferences`; the other four handlers dereference
  -- nil and end the daemon.
  pub no_local_panics :
      args.local ≡ none
      → args.remote ≢ none
      → args.fingerprint ≢ none
      → args.path_interface ≢ none
      → (initialize pan i args resp t ≡ refusal)
        × (set_preferences pan i args resp t ≡ refusal)
        × (path pan i args resp t ≡ panics)
        × (path_down pan i args resp t ≡ panics)
        × (refresh pan i args resp t ≡ panics)
        × (close pan i args resp t ≡ panics)
  unfolding initialize set_preferences path path_down refresh close
  no_local_panics hl hr hf hi = ground arith
