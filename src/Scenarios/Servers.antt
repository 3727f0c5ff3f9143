-- ===== src/Scenarios/Servers.antt =====
-- Runs of the example programs' servers, and of a client.
use panapi.Prelude.{ℕ, ◌+◌, none, some, [], ◌≡◌, refl}
use panapi.Golang.{Error, returns, panics}
use panapi.Taps.Heap.{Heap, copy}
use panapi.Taps.Preconnection.{Protocol, initiate}
use panapi.Pkg.Quic
use panapi.Pkg.Quic.{Library, opened}
use panapi.Examples.Clients.{empty, client_preconnection}
use panapi.Examples.Clients.Dialling.{scion_protocol, client_dials}
use panapi.Examples.Servers.{run_server}
use panapi.Examples.Servers.Accepts.{tcp_protocol, tcp_accepting, tcp_servers_panic}
use panapi.Scenarios.Setting.{strict, aes}
use panapi.Scenarios.Pkg.{net, library, scion}

abbrev memory : Heap Unit ℕ
memory = record {
  endpoints = λ a. record { address = ""; protocol = none };
  maps = λ a. [];
  preferences = λ a. strict;
  suites = λ a. aes;
  keys = λ a. a;
  preconnections = λ a. empty;
  next = 5;
}

tcp_servers_panic_example :
    run_server (tcp_protocol net) (tcp_accepting net) (λ c n. n) 3 "0.0.0.0:1337" tt (memory, 7)
    ≡ panics
tcp_servers_panic_example = (tcp_servers_panic net (λ c n. n) 2 "0.0.0.0:1337" memory 7 8 7 refl).0

abbrev protocol : Protocol ℕ ℕ ℕ (Quic.Listener ℕ) (Quic.Connection ℕ ℕ) ℕ
protocol = record {
  new_listener = λ proto p h n. returns ((some (record { p = p; l = some 0 }), none), (h, n));
  initiate = λ proto p h n. returns ((none, some (Error.foreign "no route")), (h, n));
  selector = λ proto. none;
  set_preferences = λ s cps n. returns (none, n);
}

abbrev dialler : Protocol Unit ℕ ℕ (Quic.Listener ℕ) (Quic.Connection ℕ ℕ) ℕ
dialler = scion_protocol library scion 0 (some 9)

client_dials_example :
    let (p, h) = client_preconnection dialler "1-ff00:0:110,[10.0.0.9]:1337" tt 3 memory in
    initiate dialler p h 7 ≡ opened library (copy p h).0 (copy p h).1 ((some 7, none), 8)
client_dials_example =
    client_dials library scion 0 9 "1-ff00:0:110,[10.0.0.9]:1337" 3 memory 7 7 7
      "1-ff00:0:110,[10.0.0.9]:1337" refl refl

-- a listener whose `Accept` fails
abbrev down : Library ℕ ℕ ℕ ℕ
down = record library { accept = λ l n. ((none, some (Error.foreign "server closed")), n + 1) }
