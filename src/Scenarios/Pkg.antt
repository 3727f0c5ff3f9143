-- ===== src/Scenarios/Pkg.antt =====
-- Listening and dialling on a network of one host.
use panapi.Prelude.{ℕ, ◌+◌, String, Option, none, some, [], ◌≡◌, refl, inl, ◌==◌, if◌then◌else◌}
use panapi.Golang.{Err, returns}
use panapi.Taps.Enums.{require, prohibit, disabled}
use panapi.Taps.Heap.{Heap}
use panapi.Pkg.Properties.{satisfy}
use panapi.Pkg.Tcp.{Net, endpoint_at, set_remote}
use panapi.Pkg.Tcp
use panapi.Pkg.Quic.{Library, Listener, accept, preconnection}
use panapi.Pkg.Inet
use panapi.Pkg.Scion.{Scion}
use panapi.Pkg.Refusals.{prohibited_dialled}
use panapi.Pkg.Accepting.{accepted_shared}
use panapi.Scenarios.Setting.{strict, aes}

-- the network counts what is opened on it, and numbers it
abbrev pub net : Net ℕ ℕ ℕ
net = record {
  listen = λ address n. ((some n, none), n + 1);
  dial = λ address n. ((some n, none), n + 1);
  accept = λ l n. ((some n, none), n + 1);
  close = λ l n. (none, n);
  remote_addr = λ c. "10.0.0.9:4711";
}

abbrev pub library : Library ℕ ℕ ℕ ℕ
library = record {
  accept = λ l n. ((some n, none), n + 1);
  close = λ l n. (none, n);
  remote_addr = λ s. "10.0.0.9:4711";
  accept_stream = λ s n. ((some n, none), n + 1);
  open_stream = λ s n. ((some n, none), n + 1);
  close_stream = λ str n. (none, n);
  close_with_error = λ s code reason n. (none, n);
}

abbrev listen_addr : String → ℕ → ℕ → (Option ℕ × Err) × ℕ
listen_addr address config n = ((some n, none), n + 1)

abbrev pub scion : Scion ℕ ℕ ℕ ℕ ℕ String
scion = record {
  resolve_udp_addr = λ address n. ((address, none), n);
  listen_quic = λ addr config n. ((some n, none), n + 1);
  dial_quic = λ addr selector config n. ((some n, none), n + 1);
  set_preferences = λ s prefs n. returns (none, n);
}

abbrev pub memory_with : ℕ → Heap ℕ ℕ
memory_with reliability = record {
  endpoints = λ a. record { address = "10.0.0.1:80"; protocol = some 0 };
  maps = λ a. [];
  preferences = λ a. strict;
  suites = λ a. aes;
  keys = λ a. a;
  preconnections = λ a. record {
    local_endpoint = some 0;
    remote_endpoint = some 1;
    transport_preferences = record {
      reliability = reliability;
      preserve_order = require;
      congestion_control = require;
      interface = none;
      multipath = disabled;
    };
    security_parameters = record {
      identity = "panapi";
      key_pair = record { private_key = none; public_key = none };
      supported_group = 0;
      cipher_suite = none;
      signature_algorithm = 0;
      max_cached_sessions = 0;
      cached_session_lifetime = 0;
      psk = none;
    };
    connection_preferences = none;
  };
  next = 3;
}

prohibited_dialled_example :
    Inet.initiate library listen_addr listen_addr 0 2 (memory_with prohibit) 0
    ≡ returns
        ((some (record { stream = some 1; p = 2; session = 0 }), none), (memory_with prohibit, 2))
prohibited_dialled_example =
    (prohibited_dialled library listen_addr listen_addr 0 2 1 (memory_with prohibit) 0 1 2 0
      (some 1) (inl refl) refl refl refl).1

tcp_listens :
    Tcp.new_listener net 2 (memory_with require) 0
    ≡ returns ((some (record { p = none; l = some 0 }), none), (memory_with require, 1))
unfolding Tcp.new_listener satisfy
tcp_listens = refl

abbrev listening : Listener ℕ
listening = record { p = 2; l = some 0 }

-- two peers: the session that is numbered 1, and the others
abbrev two_peers : Library ℕ ℕ ℕ ℕ
two_peers = record library {
  remote_addr = λ s. if s == 1 then "10.0.0.9:4711" else "10.0.0.8:5000";
}

abbrev after_first : Heap ℕ ℕ
after_first = set_remote 2 "10.0.0.9:4711" (memory_with require)

abbrev after_second : Heap ℕ ℕ
after_second = set_remote 2 "10.0.0.8:5000" after_first

first_accepted :
    accept two_peers listening (memory_with require) 1
    ≡ returns ((some (record { stream = some 2; p = 2; session = 1 }), none), (after_first, 3))
unfolding accept
first_accepted = refl

second_accepted :
    accept two_peers listening after_first 3
    ≡ returns ((some (record { stream = some 4; p = 2; session = 3 }), none), (after_second, 5))
unfolding accept
second_accepted = refl

-- the first connection has the address of the second one's peer
accepted_shared_example :
    endpoint_at after_second (after_second.preconnections 2).remote_endpoint
    ≡ returns (record { address = "10.0.0.8:5000"; protocol = none })
unfolding preconnection
accepted_shared_example =
    accepted_shared two_peers listening (memory_with require) after_first after_first after_second 1
      3 3 5 (record { stream = some 2; p = 2; session = 1 })
      (record { stream = some 4; p = 2; session = 3 }) none none first_accepted second_accepted
