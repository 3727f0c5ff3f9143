-- ===== src/Scenarios/Workers.antt =====
-- Runs of the example programs' workers.
use panapi.Prelude.{
  ℕ, ◌+◌, String, Option, none, some, List, [], ◌∷◌, ◌++◌, length, ◌≡◌, refl, ap, arith, true,
}
use panapi.Golang.{Error, Err, Run, returns, panics, exits}
use panapi.Taps.Enums.{scavenger}
use panapi.Taps.Preferences.{ConnectionPreferences}
use panapi.Taps.Preconnection.{Protocol, set_preferences}
use panapi.Examples.Workers.{Line, server_worker, worker}
use panapi.Examples.Workers.Echo.{View, IsReliable, server_worker_echoes, worker_logs_nil}
use panapi.Examples.Clients.{State, switched, exchange, client_rounds}
use panapi.Examples.Clients.Profiles.{client_switches}
use panapi.Scenarios.Setting.{strict}
use panapi.Scenarios.Taps.{joined}

-- the lines that a peer is still to send, and those that it was sent
record Peer : Type 0 where
  inbox : List String
  outbox : List String

abbrev next : List String → Peer → (String × Err) × Peer
next [] n = (("", some (Error.foreign "EOF")), n)
next (s ∷ rest) n = ((s, none), record n { inbox = rest })

abbrev talk : Line ℕ Peer
talk = record {
  write = λ c s n. (none, record n { outbox = n.outbox ++ (s ∷ []) });
  read_string = λ c n. next n.inbox n;
  close = λ c n. (none, n);
  tick = λ n. ("noon", n);
}

abbrev peer_view : View Peer
peer_view = record { inbox = λ n. n.inbox; outbox = λ n. n.outbox }

talk-IsReliable : IsReliable talk 0 peer_view
talk-IsReliable = record {
  next_line = λ n s rest h. (record n { inbox = rest }, ap (λ i. next i n) h, refl, refl);
  no_line = λ n h. ((("", Error.foreign "EOF"), n), ap (λ i. next i n) h, refl);
  written = λ s n. (record n { outbox = n.outbox ++ (s ∷ []) }, refl, refl, refl);
  tick_silent = λ n. (refl, refl);
  close_silent = λ n. refl;
}

abbrev two_pings : Peer
two_pings = record { inbox = "a\n" ∷ "b\n" ∷ []; outbox = [] }

server_worker_echoes_example :
    (e : Error) × (n' : Peer) × (server_worker talk 0 3 two_pings ≡ (some e, n'))
    × (n'.outbox ≡ "a\n" ∷ "b\n" ∷ [])
server_worker_echoes_example =
    server_worker_echoes talk 0 peer_view talk-IsReliable 3 two_pings (omega arith)

worker_logs_nil_example :
    (n' : Peer) × (worker talk 0 3 two_pings ≡ (some none, n')) × (length n'.outbox ≡ 0 + 2 + 1)
worker_logs_nil_example = worker_logs_nil talk 0 peer_view talk-IsReliable 3 two_pings (omega arith)

-- a peer that echoes forever
abbrev echo : Line ℕ ℕ
echo = record {
  write = λ c s n. (none, n);
  read_string = λ c n. (("noon\n", none), n);
  close = λ c n. (none, n);
  tick = λ n. ("noon", n + 1);
}

-- a protocol with a selector that adds up the profiles that it is given
abbrev added : Option ConnectionPreferences → ℕ → ℕ
added none n = n
added (some cp) n = n + cp.conn_capacity_profile

abbrev protocol : Protocol ℕ ℕ ℕ ℕ ℕ ℕ
protocol = record {
  new_listener = λ proto p h n. returns ((some 0, none), (h, n));
  initiate = λ proto p h n. returns ((some 0, none), (h, n));
  selector = λ proto. some 0;
  set_preferences = λ s cps n. returns (none, added cps n);
}

abbrev start : State protocol
start = (record joined { preferences = λ a. record strict { conn_capacity_profile = 0 } }, 0)

abbrev reached : Run (Err × State protocol) → State protocol
reached (returns (err, s)) = s
reached panics = start
reached exits = start

abbrev after_twenty : Run (Err × State protocol)
unfolding client_rounds switched exchange set_preferences
after_twenty = client_rounds protocol echo (λ n. "noon") (λ s. none) 0 3 2 true 20 0 start

client_switches_example : ((reached after_twenty).0.preferences 2).conn_capacity_profile ≡ scavenger
unfolding client_rounds switched exchange set_preferences
client_switches_example =
    client_switches protocol echo (λ n. "noon") (λ s. none) 0 3 2 20 start (reached after_twenty)
      (omega arith) refl refl
