-- ===== src/Taps/Properties.antt =====
-- taps/selection_properties.go, taps/transport_preferences.go, taps/transport_properties.go and the
-- rest of taps/connection_preferences.go, as values: `Copy` and the defaults.
pub mod Copies
use panapi.Prelude.{ℕ, String, Bool, true, false, []}
use panapi.Prelude.GoMap.{GoMap, copy_map}
use panapi.Taps.Preferences.{ConnectionPreferences}
use panapi.Taps.Enums.{unset, ignore, require, prefer, dynamic, bidirectional}

-- a `Preference` is a number; a nil map reads like an empty one
pub record SelectionProperties : Type 0 where
  pub reliability : ℕ
  pub preserve_msg_boundaries : ℕ
  pub per_msg_reliability : ℕ
  pub preserve_order : ℕ
  pub zero_rtt_msg : ℕ
  pub multistreaming : ℕ
  pub full_checksum_send : ℕ
  pub full_checksum_recv : ℕ
  pub congestion_control : ℕ
  pub keep_alive : ℕ
  pub interface : GoMap ℕ
  pub pv_d : GoMap ℕ
  pub multipath : ℕ
  pub use_temporary_local_address : ℕ
  pub advertises_alt_addr : Bool
  pub direction : ℕ
  pub soft_error_notify : ℕ
  pub active_read_before_send : ℕ

unfoldable pub new_selection_properties : SelectionProperties
new_selection_properties = record {
  reliability = require;
  preserve_msg_boundaries = ignore;
  per_msg_reliability = ignore;
  preserve_order = require;
  zero_rtt_msg = ignore;
  multistreaming = prefer;
  full_checksum_send = require;
  full_checksum_recv = require;
  congestion_control = require;
  keep_alive = ignore;
  interface = [];
  pv_d = [];
  multipath = dynamic;
  use_temporary_local_address = unset;
  advertises_alt_addr = false;
  direction = bidirectional;
  soft_error_notify = ignore;
  active_read_before_send = ignore;
}

-- `SelectionProperties.Copy`
unfoldable pub copy_selection : SelectionProperties → SelectionProperties
copy_selection sp =
    let new_interface = copy_map sp.interface in
    let new_pv_d = copy_map sp.pv_d in
    record {
      reliability = sp.reliability;
      preserve_msg_boundaries = sp.preserve_msg_boundaries;
      per_msg_reliability = sp.per_msg_reliability;
      preserve_order = sp.preserve_order;
      zero_rtt_msg = sp.zero_rtt_msg;
      multistreaming = sp.multistreaming;
      full_checksum_send = sp.full_checksum_send;
      full_checksum_recv = sp.full_checksum_recv;
      congestion_control = sp.congestion_control;
      keep_alive = sp.keep_alive;
      interface = new_interface;
      pv_d = new_pv_d;
      multipath = sp.multipath;
      use_temporary_local_address = sp.use_temporary_local_address;
      advertises_alt_addr = sp.advertises_alt_addr;
      direction = sp.direction;
      soft_error_notify = sp.soft_error_notify;
      active_read_before_send = sp.active_read_before_send;
    }

pub record TransportProperties : Type 0 where
  pub reliability : Bool
  pub preserve_order : Bool
  pub congestion_control : Bool
  pub interface : String
  pub multipath : ℕ

-- `TransportProperties.Copy`
unfoldable pub copy_transport_properties : TransportProperties → TransportProperties
copy_transport_properties tp = record {
  reliability = tp.reliability;
  preserve_order = tp.preserve_order;
  congestion_control = tp.congestion_control;
  interface = tp.interface;
  multipath = tp.multipath;
}

-- `ConnectionPreferences.Copy`
unfoldable pub copy_connection_preferences : ConnectionPreferences → ConnectionPreferences
copy_connection_preferences cp = record {
  conn_timeout = cp.conn_timeout;
  conn_capacity_profile = cp.conn_capacity_profile;
  multipath_policy = cp.multipath_policy;
  isolate_session = cp.isolate_session;
}
