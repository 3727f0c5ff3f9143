-- ===== src/Rpc/ConnectionTracer.antt =====
-- The types of rpc/connection_tracer.go: the message, and the calls of `ServerConnectionTracer`.
-- The enumerations and counters of quic-go's package `logging` are numbers.
pub mod Client
pub mod Server
pub mod Events
pub mod Delivery
pub mod Print
use panapi.Prelude.{ℕ, String, Bool, false, Option, none, some, List, []}
use panapi.Golang.{Error, Err, Run}
use panapi.Pan.{Pan}

-- What the program uses of quic-go, which lies outside the repository.
pub record Quic (pan : Pan) : Type 1 where
  pub ConnectionId : Type 0
  pub Header : Type 0
  pub ExtendedHeader : Type 0
  pub Frame : Type 0
  pub AckFrame : Type 0
  -- `String` of a connection id, a version and an encryption level
  pub conn_id_string : ConnectionId → String
  pub version_string : ℕ → String
  pub level_string : ℕ → String
  -- `time.Duration.Seconds`
  pub seconds : ℕ → pan.Float

-- `RTTStats`: durations in nanoseconds
pub record RttStats : Type 0 where
  pub latest_rtt : ℕ
  pub max_ack_delay : ℕ
  pub mean_deviation : ℕ
  pub min_rtt : ℕ
  pub pto : ℕ
  pub smoothed_rtt : ℕ

-- `NewRTTStats`; the argument holds what the getters of `logging.RTTStats` give
unfoldable pub new_rtt_stats : RttStats → RttStats
new_rtt_stats stats = record {
  latest_rtt = stats.latest_rtt;
  max_ack_delay = stats.max_ack_delay;
  mean_deviation = stats.mean_deviation;
  min_rtt = stats.min_rtt;
  pto = stats.pto;
  smoothed_rtt = stats.smoothed_rtt;
}

-- `logging.TransportParameters`: what the program reads of it; a connection id, an address or a
-- token that is only printed is its text
pub record TransportParameters : Type 0 where
  pub initial_max_stream_data_bidi_local : ℕ
  pub initial_max_stream_data_bidi_remote : ℕ
  pub initial_max_stream_data_uni : ℕ
  pub initial_max_data : ℕ
  pub max_ack_delay : ℕ
  pub ack_delay_exponent : ℕ
  pub disable_active_migration : Bool
  pub max_udp_payload_size : ℕ
  pub max_uni_stream_num : ℕ
  pub max_bidi_stream_num : ℕ
  pub max_idle_timeout : ℕ
  pub preferred_address : Option String
  pub original_destination_connection_id : String
  pub initial_source_connection_id : String
  pub retry_source_connection_id : String
  pub stateless_reset_token : String
  pub active_connection_id_limit : ℕ
  pub max_datagram_frame_size : ℕ

-- `Error()` of an error
abbrev pub error_text : Error → String
error_text (Error.new text) = text
error_text (Error.foreign text) = text

module _ (pan : Pan) (quic : Quic pan) where
  pub record ConnectionTracerMsg : Type 0 where
    pub local : Option pan.UdpAddr
    pub remote : Option pan.UdpAddr
    pub odc_id : Option quic.ConnectionId
    pub src_conn_id : Option quic.ConnectionId
    pub dest_conn_id : Option quic.ConnectionId
    pub chosen : ℕ
    pub versions : List ℕ
    pub client_versions : List ℕ
    pub server_versions : List ℕ
    pub error_msg : Option String
    pub key : Option String
    pub value : Option String
    pub parameters : Option TransportParameters
    pub byte_count : ℕ
    pub cwnd : ℕ
    pub packets : ℕ
    pub id : ℕ
    pub header : Option quic.Header
    pub extended_header : Option quic.ExtendedHeader
    pub frames : List quic.Frame
    pub ack_frame : Option quic.AckFrame
    pub packet_type : ℕ
    pub drop_reason : ℕ
    pub loss_reason : ℕ
    pub encryption_level : ℕ
    pub packet_number : ℕ
    pub congestion_state : ℕ
    pub pto_count : ℕ
    pub tracing_id : ℕ
    pub perspective : ℕ
    pub bool : Bool
    pub generation : ℕ
    pub timer_type : ℕ
    pub time : Option pan.Time
    pub rtt_stats : Option RttStats

  -- `ConnectionTracerMsg{}`
  abbrev pub blank : ConnectionTracerMsg
  blank = record {
    local = none;
    remote = none;
    odc_id = none;
    src_conn_id = none;
    dest_conn_id = none;
    chosen = 0;
    versions = [];
    client_versions = [];
    server_versions = [];
    error_msg = none;
    key = none;
    value = none;
    parameters = none;
    byte_count = 0;
    cwnd = 0;
    packets = 0;
    id = 0;
    header = none;
    extended_header = none;
    frames = [];
    ack_frame = none;
    packet_type = 0;
    drop_reason = 0;
    loss_reason = 0;
    encryption_level = 0;
    packet_number = 0;
    congestion_state = 0;
    pto_count = 0;
    tracing_id = 0;
    perspective = 0;
    bool = false;
    generation = 0;
    timer_type = 0;
    time = none;
    rtt_stats = none;
  }

  -- A call of a `ServerConnectionTracer`, with its arguments: the two addresses come first.
  pub data TracerCall : Type 0 where
    tracer_for_connection : ℕ → ℕ → quic.ConnectionId → TracerCall
    started_connection :
        Option pan.UdpAddr → Option pan.UdpAddr → quic.ConnectionId → quic.ConnectionId → TracerCall
    negotiated_version : Option pan.UdpAddr → Option pan.UdpAddr → ℕ → List ℕ → List ℕ → TracerCall
    closed_connection : Option pan.UdpAddr → Option pan.UdpAddr → Option Error → TracerCall
    sent_transport_parameters :
        Option pan.UdpAddr → Option pan.UdpAddr → Option TransportParameters → TracerCall
    received_transport_parameters :
        Option pan.UdpAddr → Option pan.UdpAddr → Option TransportParameters → TracerCall
    restored_transport_parameters :
        Option pan.UdpAddr → Option pan.UdpAddr → Option TransportParameters → TracerCall
    sent_packet :
        Option pan.UdpAddr
        → Option pan.UdpAddr
        → Option quic.ExtendedHeader
        → ℕ
        → Option quic.AckFrame
        → List quic.Frame
        → TracerCall
    received_version_negotiation_packet :
        Option pan.UdpAddr → Option pan.UdpAddr → Option quic.Header → List ℕ → TracerCall
    received_retry : Option pan.UdpAddr → Option pan.UdpAddr → Option quic.Header → TracerCall
    received_packet :
        Option pan.UdpAddr
        → Option pan.UdpAddr
        → Option quic.ExtendedHeader
        → ℕ
        → List quic.Frame
        → TracerCall
    buffered_packet : Option pan.UdpAddr → Option pan.UdpAddr → ℕ → TracerCall
    dropped_packet : Option pan.UdpAddr → Option pan.UdpAddr → ℕ → ℕ → ℕ → TracerCall
    updated_metrics :
        Option pan.UdpAddr → Option pan.UdpAddr → Option RttStats → ℕ → ℕ → ℕ → TracerCall
    acknowledged_packet : Option pan.UdpAddr → Option pan.UdpAddr → ℕ → ℕ → TracerCall
    lost_packet : Option pan.UdpAddr → Option pan.UdpAddr → ℕ → ℕ → ℕ → TracerCall
    updated_congestion_state : Option pan.UdpAddr → Option pan.UdpAddr → ℕ → TracerCall
    updated_pto_count : Option pan.UdpAddr → Option pan.UdpAddr → ℕ → TracerCall
    updated_key_from_tls : Option pan.UdpAddr → Option pan.UdpAddr → ℕ → ℕ → TracerCall
    updated_key : Option pan.UdpAddr → Option pan.UdpAddr → ℕ → Bool → TracerCall
    dropped_encryption_level : Option pan.UdpAddr → Option pan.UdpAddr → ℕ → TracerCall
    dropped_key : Option pan.UdpAddr → Option pan.UdpAddr → ℕ → TracerCall
    set_loss_timer : Option pan.UdpAddr → Option pan.UdpAddr → ℕ → ℕ → pan.Time → TracerCall
    loss_timer_expired : Option pan.UdpAddr → Option pan.UdpAddr → ℕ → ℕ → TracerCall
    loss_timer_canceled : Option pan.UdpAddr → Option pan.UdpAddr → TracerCall
    close : Option pan.UdpAddr → Option pan.UdpAddr → TracerCall
    debug : Option pan.UdpAddr → Option pan.UdpAddr → String → String → TracerCall

  -- An implementation of `ServerConnectionTracer`: what it does at a call; a method may panic.
  abbrev pub ServerConnectionTracer : Type 0 → Type 0
  ServerConnectionTracer T = TracerCall → T → Run (Err × T)
