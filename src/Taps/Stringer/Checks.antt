-- ===== src/Taps/Stringer/Checks.antt =====
-- The functions `_` of taps/enum_string.go, which the compiler refuses when the constants of
-- taps/enum.go no longer have the numbers that the tables of names were made for.
use panapi.Prelude.{ℕ, ◌-◌, ◌≡◌, refl, Bool, true, false, ◌&&◌, List, [], ◌∷◌, map, ltb, leb, arith}
use panapi.Taps.Enums.{
  unset, ignore, require, prefer, avoid, prohibit, dynamic, disabled, active, passive, handover,
  interactive, aggregate, bidirectional, unidirectional_send, unidirectional_receive,
  default_profile, scavenger, low_latency_interactive, low_latency_non_interactive,
  constant_rate_streaming, capacity_seeking, sctp_ss_fcfs, sctp_ss_rr, sctp_ss_rr_pkt, sctp_ss_prio,
  sctp_ss_fc, sctp_ss_wfq, establishing, established, closing, closed,
}
use panapi.Taps.Stringer.Names.{
  Enumeration, preference, multipath_preference, multipath_policy, directionality, capacity_profile,
  stream_scheduler, connection_state, constants, string_of,
}

-- `x[constant-number]` for each pair, with `var x [1]struct{}`: the index, a constant of an unsigned
-- type, must be a number, and in range
unfoldable pub compiles : List ℕ → List ℕ → Bool
compiles [] [] = true
compiles (c ∷ cs) (k ∷ ks) = (leb k c && ltb (c - k) 1) && compiles cs ks
compiles _ _ = false

-- the numbers in each `_`
abbrev preference_numbers : List ℕ
preference_numbers = 0 ∷ 1 ∷ 2 ∷ 3 ∷ 4 ∷ 5 ∷ []

abbrev multipath_preference_numbers : List ℕ
multipath_preference_numbers = 0 ∷ 1 ∷ 2 ∷ 3 ∷ []

abbrev multipath_policy_numbers : List ℕ
multipath_policy_numbers = 0 ∷ 1 ∷ 2 ∷ []

abbrev directionality_numbers : List ℕ
directionality_numbers = 0 ∷ 1 ∷ 2 ∷ []

abbrev capacity_profile_numbers : List ℕ
capacity_profile_numbers = 0 ∷ 1 ∷ 2 ∷ 3 ∷ 4 ∷ 5 ∷ []

abbrev stream_scheduler_numbers : List ℕ
stream_scheduler_numbers = 0 ∷ 1 ∷ 2 ∷ 3 ∷ 4 ∷ 5 ∷ []

abbrev connection_state_numbers : List ℕ
connection_state_numbers = 0 ∷ 1 ∷ 2 ∷ 3 ∷ []

abbrev pub numbers : Enumeration → List ℕ
numbers preference = preference_numbers
numbers multipath_preference = multipath_preference_numbers
numbers multipath_policy = multipath_policy_numbers
numbers directionality = directionality_numbers
numbers capacity_profile = capacity_profile_numbers
numbers stream_scheduler = stream_scheduler_numbers
numbers connection_state = connection_state_numbers

-- the constants as they are declared
abbrev pub declared : Enumeration → List ℕ
declared preference = unset ∷ ignore ∷ require ∷ prefer ∷ avoid ∷ prohibit ∷ []
declared multipath_preference = dynamic ∷ disabled ∷ active ∷ passive ∷ []
declared multipath_policy = handover ∷ interactive ∷ aggregate ∷ []
declared directionality = bidirectional ∷ unidirectional_send ∷ unidirectional_receive ∷ []
declared capacity_profile =
    default_profile ∷ scavenger ∷ low_latency_interactive ∷ low_latency_non_interactive
    ∷ constant_rate_streaming ∷ capacity_seeking ∷ []
declared stream_scheduler =
    sctp_ss_fcfs ∷ sctp_ss_rr ∷ sctp_ss_rr_pkt ∷ sctp_ss_prio ∷ sctp_ss_fc ∷ sctp_ss_wfq ∷ []
declared connection_state = establishing ∷ established ∷ closing ∷ closed ∷ []

compiles-eq : (cs ks : List ℕ) → compiles cs ks ≡ true → cs ≡ ks
unfolding compiles
compiles-eq [] [] h = refl
compiles-eq [] (k ∷ ks) h = cc h
compiles-eq (c ∷ cs) [] h = cc h
compiles-eq (c ∷ cs) (k ∷ ks) h = ground (arith, compiles-eq cs ks)

names-numbers : (e : Enumeration) → map (string_of e) (numbers e) ≡ constants e
unfolding string_of
names-numbers preference = refl
names-numbers _ = refl

declared-compiles : (e : Enumeration) → compiles (declared e) (numbers e) ≡ true
unfolding compiles
declared-compiles preference = refl
declared-compiles _ = refl

-- The file compiles with the constants as they are declared. Whatever numbers the constants of a
-- type had, if the file compiled with them, each constant would print as the name that it is
-- declared with.
pub compiled_prints :
    (e : Enumeration) (values : List ℕ)
    → compiles values (numbers e) ≡ true
    → (compiles (declared e) (numbers e) ≡ true) × (map (string_of e) values ≡ constants e)
compiled_prints e values h =
    (declared-compiles e, rw (compiles-eq values (numbers e) h) (names-numbers e))
