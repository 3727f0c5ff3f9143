-- ===== src/Taps/Stringer.antt =====
-- taps/enum_string.go: the names of the enumerations' constants, cut out of one text for each.
pub mod Names
pub mod Checks
use Prim.Native.Nat.{◌/◌, ◌%◌}
use Prim.Native.String.{slice}
use panapi.Prelude.{
  ℕ, zero, suc, ◌+◌, ◌-◌, String, str_append, List, [], ◌∷◌, Option, none, some, length, get_elem?,
  ltb, leb, if◌then◌else◌,
}

-- `strconv.FormatInt(n, 10)`; `n + 1` rounds are enough, as each drops a digit
decimal_digits : ℕ → ℕ → String
decimal_digits zero n = ""
decimal_digits (suc fuel) n =
    let more =
      str_append (decimal_digits fuel (n / 10)) (slice "0123456789" (n % 10) (n % 10 + 1)) in
    if ltb n 10 then slice "0123456789" n (n + 1) else more

unfoldable pub format_int : ℕ → String
unfolding decimal_digits
format_int n = decimal_digits (n + 1) n

-- `name[index[i]:index[i+1]]`, where both positions exist
abbrev pub cut : String → Option ℕ → Option ℕ → String
cut name (some from) (some to) = slice name from to
cut name _ _ = ""

-- the body of each `String` method
unfoldable pub stringer : String → String → List ℕ → ℕ → String
unfolding format_int
stringer type_name name index i =
    if leb (length index - 1) i
    then str_append type_name (str_append "(" (str_append (format_int i) ")"))
    else cut name (get_elem? index i) (get_elem? index (i + 1))

unfoldable pub preference_string : ℕ → String
unfolding stringer
preference_string =
    stringer "Preference" "unsetIgnoreRequirePreferAvoidProhibit"
      (0 ∷ 5 ∷ 11 ∷ 18 ∷ 24 ∷ 29 ∷ 37 ∷ [])

unfoldable pub multipath_preference_string : ℕ → String
unfolding stringer
multipath_preference_string =
    stringer "MultipathPreference" "dynamicDisabledActivePassive" (0 ∷ 7 ∷ 15 ∷ 21 ∷ 28 ∷ [])

unfoldable pub multipath_policy_string : ℕ → String
unfolding stringer
multipath_policy_string =
    stringer "MultipathPolicy" "HandoverInteractiveAggregate" (0 ∷ 8 ∷ 19 ∷ 28 ∷ [])

unfoldable pub directionality_string : ℕ → String
unfolding stringer
directionality_string =
    stringer "Directionality" "BidirectionalUnidirectionalSendUnidirectionalReceive"
      (0 ∷ 13 ∷ 31 ∷ 52 ∷ [])

unfoldable pub capacity_profile_string : ℕ → String
unfolding stringer
capacity_profile_string =
    stringer "CapacityProfile"
      "DefaultScavengerLowLatencyInteractiveLowLatencyNonInteractiveConstantRateStreamingCapacitySeeking"
      (0 ∷ 7 ∷ 16 ∷ 37 ∷ 61 ∷ 82 ∷ 97 ∷ [])

unfoldable pub stream_scheduler_string : ℕ → String
unfolding stringer
stream_scheduler_string =
    stringer "StreamScheduler"
      "SCTP_SS_FCFSSCTP_SS_RRSCTP_SS_RR_PKTSCTP_SS_PRIOSCTP_SS_FCSCTP_SS_WFQ"
      (0 ∷ 12 ∷ 22 ∷ 36 ∷ 48 ∷ 58 ∷ 69 ∷ [])

unfoldable pub connection_state_string : ℕ → String
unfolding stringer
connection_state_string =
    stringer "ConnectionState" "EstablishingEstablishedClosingClosed" (0 ∷ 12 ∷ 23 ∷ 30 ∷ 36 ∷ [])
