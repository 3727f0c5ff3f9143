-- ===== src/Convenience.antt =====
-- pkg/convenience/: what an application calls to reach the daemon. The TLS configuration of the
-- package is not modelled.
use panapi.Prelude.{Option, none, some, ◌⊎◌, inl, inr}
use panapi.Golang.{Error, Err}
use panapi.Pan.{Pan}
use panapi.Rpc.SelectorClient.{SelectorClient, new_selector_client}
use panapi.Rpc.Setup.{Registry, Client, new_client}

-- the selectors of an application: one that asks the daemon over a client's connection, or pan's
pub data AppSelector (pan : Pan) (Conn : Type 0) : Type 0 where
  selector_client : Client Conn → SelectorClient pan → AppSelector pan Conn
  default_selector : AppSelector pan Conn

-- `rpc.TracerClient`, which has no state but its client
pub record TracerClient (Conn : Type 0) : Type 0 where
  pub rpc : Client Conn

-- `dial` is `net.Dial` of the daemon's address, which gives an error or a connection.
module _ {Conn W : Type 0} (registry : Registry W) (dial : W → (Error ⊎ Conn) × W) where
  unfoldable pub new_rpc_client : W → (Error ⊎ Client Conn) × W
  unfolding new_client
  new_rpc_client w =
      let (dialled, w') = dial w in
      elim dialled [ inl e ↦ (inl e, w') | inr conn ↦ new_client registry conn w' ]

  -- `RPCClientHelper`, given what `NewRPCClient` returned
  abbrev pub helped :
      (pan : Pan)
      → (Error ⊎ Client Conn) × W
      → ((Option (AppSelector pan Conn) × Option (TracerClient Conn)) × Err) × W
  helped pan (inl e, w) = (((none, none), some e), w)
  helped pan (inr c, w) = (
    (
      (some (AppSelector.selector_client c (new_selector_client pan)), some (record { rpc = c })),
      none,
    ),
    w,
  )

  unfoldable pub rpc_client_helper :
      (pan : Pan) → W → ((Option (AppSelector pan Conn) × Option (TracerClient Conn)) × Err) × W
  unfolding new_rpc_client new_selector_client
  rpc_client_helper pan w = helped pan (new_rpc_client w)
