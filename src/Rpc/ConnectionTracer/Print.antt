-- ===== src/Rpc/ConnectionTracer/Print.antt =====
-- `String` of `ConnectionTracerMsg` in rpc/connection_tracer.go. What package fmt prints for `%+v` of
-- a value is a parameter, for each type of a field.
use panapi.Prelude.{ℕ, String, str_append, Option, none, some, List, [], ◌∷◌, ◌≢◌, arith}
use panapi.Pan.{Pan}
use panapi.Rpc.ConnectionTracer.{Quic, TransportParameters, ConnectionTracerMsg}

-- an `interface{}`: nil, or a value, here as `%+v` prints it; a nil pointer in it is a value
abbrev pub Interface : Type 0
Interface = Option String

pub record Format (pan : Pan) (quic : Quic pan) : Type 0 where
  pub conn_id : Option quic.ConnectionId → String
  pub addr : Option pan.UdpAddr → String
  pub text : Option String → String
  pub parameters : Option TransportParameters → String
  pub header : Option quic.Header → String
  pub extended_header : Option quic.ExtendedHeader → String
  pub ack_frame : Option quic.AckFrame → String
  pub frames : List quic.Frame → String
  pub versions : List ℕ → String
  -- of the named types that are numbers, by the type's name
  pub number : String → ℕ → String

unfoldable pub non_nil_string : String → Interface → String
non_nil_string name none = ""
non_nil_string name (some i) = str_append name (str_append ": " (str_append i "\n"))

-- `s += non_nil_string(...)`, line after line
unfoldable pub add_fields : String → List (String × Interface) → String
add_fields s [] = s
add_fields s ((name, i) ∷ fields) = add_fields (str_append s (non_nil_string name i)) fields

module _ (pan : Pan) (quic : Quic pan) (fmt : Format pan quic) where
  -- what each line of `String` hands over, made an `interface{}`
  abbrev pub fields_of : ConnectionTracerMsg pan quic → List (String × Interface)
  fields_of m =
      ("OdcID", some (fmt.conn_id m.odc_id))
      ∷ ("Perspective", some (fmt.number "Perspective" m.perspective))
      ∷ ("ID", some (fmt.number "int" m.id))
      ∷ ("TracingID", some (fmt.number "uint64" m.tracing_id))
      ∷ ("Local", some (fmt.addr m.local))
      ∷ ("Remote", some (fmt.addr m.remote))
      ∷ ("Chosen", some (fmt.number "VersionNumber" m.chosen))
      ∷ ("Versions", some (fmt.versions m.versions))
      ∷ ("ClientVersions", some (fmt.versions m.client_versions))
      ∷ ("ServerVersions", some (fmt.versions m.server_versions))
      ∷ ("ErrorMsg", some (fmt.text m.error_msg))
      ∷ ("Parameters", some (fmt.parameters m.parameters))
      ∷ ("ByteCount", some (fmt.number "ByteCount" m.byte_count))
      ∷ ("Cwnd", some (fmt.number "ByteCount" m.cwnd))
      ∷ ("Packets", some (fmt.number "int" m.packets))
      ∷ ("Header", some (fmt.header m.header))
      ∷ ("ExtendedHeader", some (fmt.extended_header m.extended_header))
      ∷ ("Frames", some (fmt.frames m.frames))
      ∷ ("AckFrame", some (fmt.ack_frame m.ack_frame))
      ∷ ("PacketType", some (fmt.number "PacketType" m.packet_type))
      ∷ ("DropReason", some (fmt.number "PacketDropReason" m.drop_reason))
      ∷ ("TimerType", some (fmt.number "TimerType" m.timer_type))
      ∷ ("CongestionState", some (fmt.number "CongestionState" m.congestion_state))
      ∷ []

  -- `String`
  unfoldable pub string : ConnectionTracerMsg pan quic → String
  unfolding add_fields
  string m = add_fields "" (fields_of m)

  abbrev Present : List (String × Interface) → Type 0
  Present [] = Unit
  Present ((_, i) ∷ fields) = (i ≢ none) × Present fields

  -- No field is ever left out, since an interface that holds a nil pointer is not nil.
  pub fields_of-Present : (m : ConnectionTracerMsg pan quic) → Present (fields_of m)
  fields_of-Present m = ground arith
