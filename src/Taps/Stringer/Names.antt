-- ===== src/Taps/Stringer/Names.antt =====
-- The names are right, and tell any two values of an enumeration apart.
use native.Mathlib.Nat.{add-zero, add-suc, suc-add, zero-add}
use panapi.Prelude.{
  ℕ, zero, suc, ◌+◌, ◌≤◌, ◌<◌, ◌≡◌, refl, String, str_append, Bool, true, false, List, [], ◌∷◌,
  Option, none, some, inl, inr, Option-cases, ◌&&◌, str_eq, eq_iff, arith, ◌==◌, if◌then◌else◌,
  length, get_elem?,
}
use panapi.Taps.Stringer.{
  format_int, preference_string, multipath_preference_string, multipath_policy_string,
  directionality_string, capacity_profile_string, stream_scheduler_string, connection_state_string,
}

-- the seven types of taps/enum.go
pub data Enumeration : Type 0 where
  preference multipath_preference multipath_policy directionality : Enumeration
  capacity_profile stream_scheduler connection_state : Enumeration

unfoldable pub string_of : Enumeration → ℕ → String
unfolding preference_string multipath_preference_string multipath_policy_string
    directionality_string capacity_profile_string stream_scheduler_string connection_state_string
string_of preference = preference_string
string_of multipath_preference = multipath_preference_string
string_of multipath_policy = multipath_policy_string
string_of directionality = directionality_string
string_of capacity_profile = capacity_profile_string
string_of stream_scheduler = stream_scheduler_string
string_of connection_state = connection_state_string

abbrev pub type_name : Enumeration → String
type_name preference = "Preference"
type_name multipath_preference = "MultipathPreference"
type_name multipath_policy = "MultipathPolicy"
type_name directionality = "Directionality"
type_name capacity_profile = "CapacityProfile"
type_name stream_scheduler = "StreamScheduler"
type_name connection_state = "ConnectionState"

-- the constants of each type, in the order in which taps/enum.go declares them
abbrev pub constants : Enumeration → List String
constants preference = "unset" ∷ "Ignore" ∷ "Require" ∷ "Prefer" ∷ "Avoid" ∷ "Prohibit" ∷ []
constants multipath_preference = "dynamic" ∷ "Disabled" ∷ "Active" ∷ "Passive" ∷ []
constants multipath_policy = "Handover" ∷ "Interactive" ∷ "Aggregate" ∷ []
constants directionality = "Bidirectional" ∷ "UnidirectionalSend" ∷ "UnidirectionalReceive" ∷ []
constants capacity_profile =
    "Default" ∷ "Scavenger" ∷ "LowLatencyInteractive" ∷ "LowLatencyNonInteractive"
    ∷ "ConstantRateStreaming" ∷ "CapacitySeeking" ∷ []
constants stream_scheduler =
    "SCTP_SS_FCFS" ∷ "SCTP_SS_RR" ∷ "SCTP_SS_RR_PKT" ∷ "SCTP_SS_PRIO" ∷ "SCTP_SS_FC" ∷ "SCTP_SS_WFQ"
    ∷ []
constants connection_state = "Establishing" ∷ "Established" ∷ "Closing" ∷ "Closed" ∷ []

-- a test on each value from 0 up to, and without, a bound
passes : (ℕ → Bool) → ℕ → Bool
passes test zero = true
passes test (suc bound) = let rest = passes test bound in if test bound then rest else false

passes_each : (test : ℕ → Bool) (bound i : ℕ) → i < bound → passes test bound ≡ true → test i ≡ true
unfolding passes
passes_each test zero i below all = absurd (omega arith)
passes_each test (suc bound) i below all = ground (arith, passes_each test bound i)

-- the largest value below `n` with this name
find_below : (ℕ → String) → ℕ → String → ℕ
find_below name zero s = 0
find_below name (suc n) s = let rest = find_below name n s in if str_eq (name n) s then n else rest

-- reading each name back gives its value
abbrev reads_back : (ℕ → String) → ℕ → Bool
reads_back name i = find_below name 256 (name i) == i

string_of_table : (e : Enumeration) → passes (reads_back (string_of e)) 256 ≡ true
unfolding passes find_below string_of
string_of_table preference = refl
string_of_table _ = refl

==-sound : (a b : ℕ) → (a == b) ≡ true → a ≡ b
==-sound a b h = ground arith

find_below-string_of :
    (e : Enumeration) (i : ℕ) → i < 256 → find_below (string_of e) 256 (string_of e i) ≡ i
find_below-string_of e i h =
    ==-sound _ i (passes_each (reads_back (string_of e)) 256 i h (string_of_table e))

-- Two values of one enumeration that print alike are equal.
pub string_of_injective :
    (e : Enumeration) (i j : ℕ) → i < 256 → j < 256 → string_of e i ≡ string_of e j → i ≡ j
string_of_injective e i j hi hj h = cc (find_below-string_of e i hi, find_below-string_of e j hj)

-- the names from position `k` on are those of the list
agrees : (ℕ → String) → ℕ → List String → Bool
agrees name k [] = true
agrees name k (c ∷ cs) = str_eq (name k) c && agrees name (suc k) cs

agrees_sound :
    (name : ℕ → String) (k i : ℕ) (cs : List String) (c : String)
    → agrees name k cs ≡ true
    → get_elem? cs i ≡ some c
    → name (k + i) ≡ c
unfolding agrees
agrees_sound name k i [] c h e = cc
agrees_sound name k zero (x ∷ cs) c h e = rw add-zero (ground (arith, eq_iff (name k) x))
agrees_sound name k (suc i) (x ∷ cs) c h e =
    rw (add-suc, ← suc-add) (agrees_sound name (suc k) i cs c (ground arith) e)

string_of-agrees : (e : Enumeration) → agrees (string_of e) 0 (constants e) ≡ true
unfolding agrees string_of
string_of-agrees preference = refl
string_of-agrees _ = refl

-- what the `String` methods print for a value that is no constant
abbrev pub unnamed : Enumeration → ℕ → String
unnamed e i = str_append (type_name e) (str_append "(" (str_append (format_int i) ")"))

string_of-unnamed :
    (e : Enumeration) (i : ℕ) → length (constants e) ≤ i → string_of e i ≡ unnamed e i
unfolding string_of
string_of-unnamed preference i h = ground arith
string_of-unnamed _ i h = ground arith

get_elem?-eq-none : (cs : List String) (i : ℕ) → get_elem? cs i ≡ none → length cs ≤ i
get_elem?-eq-none [] i h = omega arith
get_elem?-eq-none (c ∷ cs) zero h = cc
get_elem?-eq-none (c ∷ cs) (suc i) h = omega (arith, get_elem?-eq-none cs i h)

abbrev pub printed : Enumeration → ℕ → Option String → String
printed e i (some c) = c
printed e i none = unnamed e i

-- Each constant prints as the name it is declared with, at its position in the declaration, and a
-- value past the last constant prints as the type's name with the number in parentheses.
pub string_of_lem :
    (e : Enumeration) (i : ℕ) → string_of e i ≡ printed e i (get_elem? (constants e) i)
string_of_lem e i = elim (Option-cases (get_elem? (constants e) i)) [
  | inl past ↦ rw past (string_of-unnamed e i (get_elem?-eq-none (constants e) i past))
  | inr (c, at) ↦
      rw at
        (rw zero-add at (agrees_sound (string_of e) 0 i (constants e) c (string_of-agrees e) at))
]
