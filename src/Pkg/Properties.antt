-- ===== src/Pkg/Properties.antt =====
-- What the protocols check of a preconnection's properties: `Satisfy` in pkg/inet/tcp,
-- pkg/inet/quic, pkg/scion/quic and pkg/udp.
use panapi.Prelude.{none, some, Bool, true, false, ◌||◌, ◌==◌, if◌then◌else◌}
use panapi.Golang.{Error, Err}
use panapi.Taps.Enums.{require, prohibit, disabled, passive}
use panapi.Taps.Properties.{SelectionProperties, TransportProperties, copy_selection}
use panapi.Taps.Heap.{TransportPreferences}

abbrev unsatisfied : Bool → Err
unsatisfied wrong = if wrong then some (Error.new "Can't satisfy all constraints") else none

abbrev pub prohibits : TransportPreferences → Bool
prohibits sp =
    (sp.reliability == prohibit)
    || (sp.preserve_order == prohibit)
    || (sp.congestion_control == prohibit)

-- `Satisfy` of TCP and of QUIC without SCION
unfoldable pub satisfy : TransportPreferences → TransportProperties × Err
satisfy sp = (
  record {
    reliability = true;
    preserve_order = true;
    congestion_control = true;
    interface = "";
    multipath = disabled;
  },
  unsatisfied (prohibits sp),
)

-- `Satisfy` of QUIC over SCION
unfoldable pub satisfy_scion : TransportPreferences → TransportProperties × Err
satisfy_scion sp = (
  record {
    reliability = true;
    preserve_order = true;
    congestion_control = true;
    interface = "";
    multipath = passive;
  },
  unsatisfied (prohibits sp),
)

-- `Satisfy` of UDP, which takes selection properties
unfoldable pub satisfy_udp : SelectionProperties → TransportProperties × Err
unfolding copy_selection
satisfy_udp original =
    let sp = copy_selection original in
    (
      record {
        reliability = false;
        preserve_order = false;
        congestion_control = false;
        interface = "";
        multipath = disabled;
      },
      unsatisfied (
          (sp.reliability == require)
          || (sp.preserve_msg_boundaries == require)
          || (sp.per_msg_reliability == require)
          || (sp.preserve_order == require)
          || (sp.zero_rtt_msg == prohibit)
          || (sp.multistreaming == require)
          || (sp.full_checksum_send == require)
          || (sp.full_checksum_recv == require)
          || (sp.congestion_control == require)
          || (sp.keep_alive == require)),
    )
