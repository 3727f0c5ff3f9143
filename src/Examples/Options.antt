-- ===== src/Examples/Options.antt =====
-- The three `main`s of examples/, from the flags to the call of `runServer` or `runClient`, which
-- the result stands for. The TLS configuration, which is always the dummy one, is left out; so are
-- log lines.
use panapi.Prelude.{
  ℕ, String, Option, none, some, Bool, true, false, ◌||◌, str_eq, is_nil, if◌then◌else◌, ◌⊎◌,
}
use panapi.Golang.{Error, Err, Run, returns, exits, ◌>>=◌}
use panapi.Pan.{Pan}
use panapi.Taps.Enums.{
  default_profile, scavenger, low_latency_interactive, low_latency_non_interactive,
  capacity_seeking,
}
use panapi.Taps.Stringer.{capacity_profile_string}
use panapi.Rpc.Setup.{Registry}
use panapi.Convenience.{AppSelector, TracerClient, rpc_client_helper}

-- the flags; those that a program does not have are not read
pub record Options : Type 0 where
  pub remote : String
  pub local : String
  pub net : String
  pub transport : String
  pub profile : String
  pub daemontracer : Bool
  pub daemonselector : Bool

-- the protocol, with the selector and the tracer of its configuration
pub data AppProtocol (pan : Pan) (Conn : Type 0) : Type 0 where
  tcp : AppProtocol pan Conn
  inet_quic : AppProtocol pan Conn
  scion_quic : Option (AppSelector pan Conn) → Option (TracerClient Conn) → AppProtocol pan Conn

-- the call at the end of `main`; `A` is what `runClient` is given besides
pub data Task (pan : Pan) (Conn A : Type 0) : Type 0 where
  run_server : String → AppProtocol pan Conn → Task pan Conn A
  run_client : String → AppProtocol pan Conn → A → Task pan Conn A

-- `len(s) > 0`
abbrev pub given : String → Bool
given s = if str_eq s "" then false else true

abbrev pub not : Bool → Bool
not true = false
not false = true

-- equality of two flags
abbrev pub same : Bool → Bool → Bool
same true b = b
same false b = not b

-- an unknown profile is the default
unfoldable pub pingpong_profile : String → ℕ
unfolding capacity_profile_string
pingpong_profile p =
    if str_eq p (capacity_profile_string scavenger)
    then scavenger
    else if str_eq p (capacity_profile_string low_latency_interactive)
    then low_latency_interactive
    else default_profile

-- an unknown profile ends the program
unfoldable pub seeker_profile : String → Run ℕ
seeker_profile p =
    if str_eq p "CapacitySeeking"
    then returns capacity_seeking
    else if str_eq p "Scavenger"
    then returns scavenger
    else if str_eq p "LowLatency"
    then returns low_latency_non_interactive
    else if str_eq p "Default" || str_eq p ""
    then returns default_profile
    else exits

module _ (pan : Pan) {Conn W : Type 0} (registry : Registry W) (dial : W → (Error ⊎ Conn) × W) where
  abbrev Helped : Type 0
  Helped = ((Option (AppSelector pan Conn) × Option (TracerClient Conn)) × Err) × W

  abbrev pub plain : Helped → AppProtocol pan Conn × W
  plain (((selector, tracer), err), w) = (AppProtocol.scion_quic selector tracer, w)

  -- QUIC over SCION in pingpong and concurrent: a client asks the daemon, and an error is logged
  unfoldable pub plain_scion : Bool → W → AppProtocol pan Conn × W
  unfolding rpc_client_helper
  plain_scion client w =
      if client
      then plain (rpc_client_helper registry dial pan w)
      else (AppProtocol.scion_quic none none, w)

  abbrev pub flagged : Options → Helped → AppProtocol pan Conn × W
  flagged o (((selector, tracer), err), w) =
      let tracer' = if not o.daemontracer || not (is_nil err) then none else tracer in
      let selector' =
        if not o.daemonselector || not (is_nil err)
        then some AppSelector.default_selector
        else selector in
      (AppProtocol.scion_quic selector' tracer', w)

  -- and in capacityseeker, where flags say what the daemon is asked for
  unfoldable pub flagged_scion : Options → Bool → W → AppProtocol pan Conn × W
  unfolding rpc_client_helper
  flagged_scion o client w =
      if client
      then flagged o (rpc_client_helper registry dial pan w)
      else (AppProtocol.scion_quic none none, w)

  -- the tests of the flags `transport` and `net`
  unfoldable pub protocol :
      (Bool → W → AppProtocol pan Conn × W) → Options → W → Run (AppProtocol pan Conn × W)
  protocol scion o w =
      if str_eq o.transport "TCP"
      then if str_eq o.net "SCION" then exits else returns (AppProtocol.tcp, w)
      else if str_eq o.transport "QUIC"
      then if str_eq o.net "IP"
        then returns (AppProtocol.inet_quic, w)
        else if str_eq o.net "SCION"
        then returns (scion (given o.remote) w)
        else exits
      else exits

  -- exactly one of the two addresses is to be given
  unfoldable pub checked :
      (Bool → W → AppProtocol pan Conn × W) → Options → W → Run (AppProtocol pan Conn × W)
  unfolding protocol
  checked scion o w = if same (given o.local) (given o.remote) then exits else protocol scion o w

  abbrev task : {A : Type 0} → Options → A → AppProtocol pan Conn → Task pan Conn A
  task o a proto =
      if given o.local then Task.run_server o.local proto else Task.run_client o.remote proto a

  unfoldable pub concurrent_main : Options → W → Run (Task pan Conn Unit × W)
  unfolding checked plain_scion
  concurrent_main o w = do (proto, w') ← checked plain_scion o w; returns (task o tt proto, w')

  unfoldable pub pingpong_main : Options → W → Run (Task pan Conn ℕ × W)
  unfolding checked plain_scion pingpong_profile
  pingpong_main o w = do
    (proto, w') ← checked plain_scion o w
    returns (task o (pingpong_profile o.profile) proto, w')

  -- `runClient` is also given the number of bytes
  unfoldable pub seeker_main : Options → ℕ → W → Run (Task pan Conn (ℕ × ℕ) × W)
  unfolding checked flagged_scion seeker_profile
  seeker_main o bytes w = do
    (proto, w') ← checked (flagged_scion o) o w
    profile ← seeker_profile o.profile
    returns (task o (bytes, profile) proto, w')
