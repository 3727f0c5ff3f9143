-- ===== src/Taps/Enums.antt =====
-- taps/enum.go: the enumerations. Each is a Go `uint8`, so any number below 256 can stand in one;
-- `iota` counts the constants from 0.
use panapi.Prelude.{ℕ}

-- Preference
abbrev pub unset : ℕ
unset = 0

abbrev pub ignore : ℕ
ignore = 1

abbrev pub require : ℕ
require = 2

abbrev pub prefer : ℕ
prefer = 3

abbrev pub avoid : ℕ
avoid = 4

abbrev pub prohibit : ℕ
prohibit = 5

-- MultipathPreference
abbrev pub dynamic : ℕ
dynamic = 0

abbrev pub disabled : ℕ
disabled = 1

abbrev pub active : ℕ
active = 2

abbrev pub passive : ℕ
passive = 3

-- MultipathPolicy
abbrev pub handover : ℕ
handover = 0

abbrev pub interactive : ℕ
interactive = 1

abbrev pub aggregate : ℕ
aggregate = 2

-- Directionality
abbrev pub bidirectional : ℕ
bidirectional = 0

abbrev pub unidirectional_send : ℕ
unidirectional_send = 1

abbrev pub unidirectional_receive : ℕ
unidirectional_receive = 2

-- CapacityProfile
abbrev pub default_profile : ℕ
default_profile = 0

abbrev pub scavenger : ℕ
scavenger = 1

abbrev pub low_latency_interactive : ℕ
low_latency_interactive = 2

abbrev pub low_latency_non_interactive : ℕ
low_latency_non_interactive = 3

abbrev pub constant_rate_streaming : ℕ
constant_rate_streaming = 4

abbrev pub capacity_seeking : ℕ
capacity_seeking = 5

-- StreamScheduler
abbrev pub sctp_ss_fcfs : ℕ
sctp_ss_fcfs = 0

abbrev pub sctp_ss_rr : ℕ
sctp_ss_rr = 1

abbrev pub sctp_ss_rr_pkt : ℕ
sctp_ss_rr_pkt = 2

abbrev pub sctp_ss_prio : ℕ
sctp_ss_prio = 3

abbrev pub sctp_ss_fc : ℕ
sctp_ss_fc = 4

abbrev pub sctp_ss_wfq : ℕ
sctp_ss_wfq = 5

-- ConnectionState
abbrev pub establishing : ℕ
establishing = 0

abbrev pub established : ℕ
established = 1

abbrev pub closing : ℕ
closing = 2

abbrev pub closed : ℕ
closed = 3
