-- ===== src/Taps/Defaults.antt =====
-- The values that taps/ makes ready: `NewTransportPreferences`, `NewDisabledSecurityParameters`, and
-- the errors of taps/error.go, which nothing in the repository returns.
use panapi.Prelude.{◌+◌, String, none, some, [], update}
use panapi.Golang.{Error}
use panapi.Taps.Enums.{require, dynamic}
use panapi.Taps.Heap.{SecurityParameters, TransportPreferences, Heap}

-- the map of interfaces is made anew
unfoldable pub new_transport_preferences :
    {Proto Key : Type 0} → Heap Proto Key → TransportPreferences × Heap Proto Key
new_transport_preferences h = (
  record {
    reliability = require;
    preserve_order = require;
    congestion_control = require;
    interface = some h.next;
    multipath = dynamic;
  },
  record h { maps = update h.maps h.next []; next = h.next + 1 },
)

unfoldable pub new_disabled_security_parameters : SecurityParameters
new_disabled_security_parameters = record {
  identity = "";
  key_pair = record { private_key = none; public_key = none };
  supported_group = 0;
  cipher_suite = none;
  signature_algorithm = 0;
  max_cached_sessions = 0;
  cached_session_lifetime = 0;
  psk = none;
}

abbrev pub stopped_error : Error
stopped_error = Error.new "Listener has stopped"

abbrev pub send_error : Error
send_error = Error.new "Could not send"

abbrev pub receive_error : Error
receive_error = Error.new "Could not receive"

abbrev pub not_yet_implemented_error : Error
not_yet_implemented_error = Error.new "Not yet implemented"

abbrev pub expired_error : Error
expired_error = Error.new "The message could not be sent before its lifetime"

abbrev pub partial_message_error : Error
partial_message_error = Error.new "Message not yet fully delivered"

unfoldable pub new_establishment_error : String → Error
new_establishment_error reason = Error.new reason
