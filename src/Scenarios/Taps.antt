-- ===== src/Scenarios/Taps.antt =====
-- Properties and preconnections.
use panapi.Prelude.{Option, ℕ, none, some, true, List, [], ◌∷◌, map, ◌≡◌, refl, arith, get_elem?}
use panapi.Taps.Enums.{require, prohibit, disabled}
use panapi.Taps.Stringer.Checks.{compiles, numbers, declared, compiled_prints}
use panapi.Taps.Stringer.Names.{
  multipath_preference, preference, string_of, constants, printed, string_of_lem,
  string_of_injective,
}
use panapi.Taps.Heap.{CipherSuite, Heap, copy}
use panapi.Taps.Preconnection.Views.{Write, endpoint, suite, view, secrets, write, write_all}
use panapi.Taps.Preconnection.Isolation.{copy_isolated}
use panapi.Scenarios.Setting.{strict, aes}

string_of_lem_example :
    string_of preference 5 ≡ printed preference 5 (get_elem? (constants preference) 5)
string_of_lem_example = string_of_lem preference 5

compiled_prints_example :
    (compiles (declared multipath_preference) (numbers multipath_preference) ≡ true)
    × (map (string_of multipath_preference) (0 ∷ 1 ∷ 2 ∷ 3 ∷ []) ≡ constants multipath_preference)
unfolding compiles
compiled_prints_example = compiled_prints multipath_preference (0 ∷ 1 ∷ 2 ∷ 3 ∷ []) refl

string_of_injective_example : ◌≡◌ {A = ℕ} 5 5
string_of_injective_example = string_of_injective preference 5 5 (omega arith) (omega arith) refl

-- a preconnection at 3, to an endpoint at 0, with a map at 1 and preferences at 2
abbrev memory_between : Option ℕ → Option ℕ → Heap ℕ ℕ
memory_between local remote = record {
  endpoints = λ a. record { address = "10.0.0.1:80"; protocol = some 0 };
  maps = λ a. ("eth0", prohibit) ∷ [];
  preferences = λ a. strict;
  suites = λ a. aes;
  keys = λ a. a;
  preconnections = λ a. record {
    local_endpoint = local;
    remote_endpoint = remote;
    transport_preferences = record {
      reliability = require;
      preserve_order = require;
      congestion_control = require;
      interface = some 1;
      multipath = disabled;
    };
    security_parameters = record {
      identity = "panapi";
      key_pair = record { private_key = none; public_key = none };
      supported_group = 0;
      cipher_suite = some 3;
      signature_algorithm = 0;
      max_cached_sessions = 0;
      cached_session_lifetime = 0;
      psk = none;
    };
    connection_preferences = some 2;
  };
  next = 4;
}

abbrev memory : Heap ℕ ℕ
memory = memory_between (some 0) none

abbrev broken : CipherSuite
broken = record {
  id = 5;
  name = "TLS_RSA_WITH_RC4_128_SHA";
  supported_versions = [];
  insecure = true;
}

abbrev moved : List (Write ℕ ℕ)
moved = endpoint 0 (record { address = "10.0.0.2:80"; protocol = none }) ∷ suite 3 broken ∷ []

copy_isolated_example :
    (view (copy 3 memory).0 (write_all moved (copy 3 memory).1) ≡ view 3 memory)
    × (secrets (copy 3 memory).0 (write_all moved (copy 3 memory).1)
        ≡ record { suite = some broken; private_key = none; public_key = none; psk = none })
unfolding write_all write
copy_isolated_example =
    copy_isolated 3 memory moved
      (record {
        local = omega arith;
        remote = tt;
        interface = omega arith;
        preferences = omega arith;
      })
      (omega arith, (omega arith, tt))

abbrev pub joined : Heap ℕ ℕ
joined = memory_between (some 0) (some 0)
