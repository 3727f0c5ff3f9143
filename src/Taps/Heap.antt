-- ===== src/Taps/Heap.antt =====
-- The structs of taps/ that are shared by pointer, on an explicit heap (taps/preconnection.go,
-- taps/endpoint.go, taps/security.go, taps/transport_preferences.go). A pointer is the number of a
-- cell, nil is `none`, and `next` is the first cell that is free. `Proto` stands for the protocols
-- that an endpoint may have, of which an endpoint holds a reference that copies share, and `Key` for
-- the key material that the interfaces of a key pair and of a pre-shared key lead to.
pub mod Cells
pub mod Clones
use panapi.Prelude.{ℕ, ◌+◌, String, Bool, Option, none, some, List, [], update}
use panapi.Prelude.GoMap.{GoMap, copy_map}
use panapi.Taps.Preferences.{ConnectionPreferences}
use panapi.Taps.Properties.{copy_connection_preferences}

pub record Endpoint (Proto : Type 0) : Type 0 where
  pub address : String
  pub protocol : Option Proto

-- both are interfaces, and so references
pub record KeyPair : Type 0 where
  pub private_key : Option ℕ
  pub public_key : Option ℕ

-- `tls.CipherSuite`
pub record CipherSuite : Type 0 where
  pub id : ℕ
  pub name : String
  pub supported_versions : List ℕ
  pub insecure : Bool

pub record SecurityParameters : Type 0 where
  pub identity : String
  pub key_pair : KeyPair
  pub supported_group : ℕ
  pub cipher_suite : Option ℕ
  pub signature_algorithm : ℕ
  pub max_cached_sessions : ℕ
  pub cached_session_lifetime : ℕ
  pub psk : Option ℕ

-- the map of interfaces is a pointer too
pub record TransportPreferences : Type 0 where
  pub reliability : ℕ
  pub preserve_order : ℕ
  pub congestion_control : ℕ
  pub interface : Option ℕ
  pub multipath : ℕ

pub record Preconnection : Type 0 where
  pub local_endpoint : Option ℕ
  pub remote_endpoint : Option ℕ
  pub transport_preferences : TransportPreferences
  pub security_parameters : SecurityParameters
  pub connection_preferences : Option ℕ

pub record Heap (Proto Key : Type 0) : Type 0 where
  pub endpoints : ℕ → Endpoint Proto
  pub maps : ℕ → GoMap ℕ
  pub preferences : ℕ → ConnectionPreferences
  pub suites : ℕ → CipherSuite
  pub keys : ℕ → Key
  pub preconnections : ℕ → Preconnection
  pub next : ℕ

-- `Endpoint.Copy`
unfoldable pub copy_endpoint : {Proto : Type 0} → Endpoint Proto → Endpoint Proto
copy_endpoint e = record { address = e.address; protocol = e.protocol }

-- `SecurityParameters.Copy`
unfoldable pub copy_security : SecurityParameters → SecurityParameters
copy_security sp = record {
  identity = sp.identity;
  key_pair = sp.key_pair;
  supported_group = sp.supported_group;
  cipher_suite = sp.cipher_suite;
  signature_algorithm = sp.signature_algorithm;
  max_cached_sessions = sp.max_cached_sessions;
  cached_session_lifetime = sp.cached_session_lifetime;
  psk = sp.psk;
}

module _ {Proto Key : Type 0} where
  -- a new endpoint with the content of another, unless the pointer is nil
  unfoldable pub clone_endpoint : Option ℕ → Heap Proto Key → Option ℕ × Heap Proto Key
  unfolding copy_endpoint
  clone_endpoint none h = (none, h)
  clone_endpoint (some a) h = (
    some h.next,
    record h {
      endpoints = update h.endpoints h.next (copy_endpoint (h.endpoints a));
      next = h.next + 1;
    },
  )

  unfoldable pub clone_preferences : Option ℕ → Heap Proto Key → Option ℕ × Heap Proto Key
  unfolding copy_connection_preferences
  clone_preferences none h = (none, h)
  clone_preferences (some a) h = (
    some h.next,
    record h {
      preferences = update h.preferences h.next (copy_connection_preferences (h.preferences a));
      next = h.next + 1;
    },
  )

  -- the map that a pointer reads: a nil map reads like an empty one
  abbrev pub read_map : Heap Proto Key → Option ℕ → GoMap ℕ
  read_map h none = []
  read_map h (some a) = h.maps a

  -- `TransportPreferences.Copy`, which makes a map in any case
  unfoldable pub copy_transport :
      TransportPreferences → Heap Proto Key → TransportPreferences × Heap Proto Key
  copy_transport tp h = (
    record {
      reliability = tp.reliability;
      preserve_order = tp.preserve_order;
      congestion_control = tp.congestion_control;
      interface = some h.next;
      multipath = tp.multipath;
    },
    record h {
      maps = update h.maps h.next (copy_map (read_map h tp.interface));
      next = h.next + 1;
    },
  )

  -- `Preconnection.Copy`
  unfoldable pub copy : ℕ → Heap Proto Key → ℕ × Heap Proto Key
  unfolding clone_endpoint clone_preferences copy_transport copy_security
  copy p h =
      let pre = h.preconnections p in
      let (local, h1) = clone_endpoint pre.local_endpoint h in
      let (remote, h2) = clone_endpoint pre.remote_endpoint h1 in
      let (cp, h3) = clone_preferences pre.connection_preferences h2 in
      let (tp, h4) = copy_transport pre.transport_preferences h3 in
      let new : Preconnection = record {
        local_endpoint = local;
        remote_endpoint = remote;
        transport_preferences = tp;
        security_parameters = copy_security pre.security_parameters;
        connection_preferences = cp;
      } in
      (
        h4.next,
        record h4 { preconnections = update h4.preconnections h4.next new; next = h4.next + 1 },
      )
