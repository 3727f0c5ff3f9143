-- ===== src/Scenarios/Rpc.antt =====
-- Runs of the selector's client, handlers and daemon.
use panapi.Prelude.{
  String, Option, Bool, true, false, ap, str_eq, ◌≢◌, none, some, List, [], ◌∷◌, ◌≡◌, refl,
}
use panapi.Prelude.GoMap.{lookup, insert}
use panapi.Golang.{returns, panics}
use panapi.Rpc.Interfaces.{Request, answer, error}
use panapi.Rpc.ServerSelector.{addr_key}
use panapi.Rpc.ServerSelector.Isolation.{replies_of, run_alone, isolation, joined_texts_share}
use panapi.Rpc.SelectorServer.{SelectorMsg, blank}
use panapi.Rpc.SelectorServer
use panapi.Rpc.SelectorServer.NilArgs.{no_local_panics}
use panapi.Rpc.SelectorClient.{SelectorClient, Connection, entry, new_selector_client, enter_paths}
use panapi.Rpc.SelectorClient
use panapi.Rpc.SelectorClient.Trace.{ClientCall, Offered, client_call, client_run, path-Offered}
use panapi.Rpc.Loopback.{loopback, running, call, find_method}
use panapi.Rpc.Loopback.EndToEnd.{initialize_end_to_end, path_end_to_end}
use panapi.Scenarios.Setting.{
  toy, north, south, interface, strict, first_path, fresh, daemon, counting,
}

abbrev interleaved : List (Request toy)
interleaved =
    Request.initialize none "a" "x" (north ∷ [])
    ∷ Request.initialize none "b" "y" (south ∷ [])
    ∷ Request.path "a" "x"
    ∷ Request.path "b" "y"
    ∷ []

isolation_example :
    replies_of toy first_path fresh "ax" (isolation toy first_path fresh "ax" interleaved []).0
    ≡ (run_alone toy first_path fresh "ax" interleaved none).0
unfolding lookup
isolation_example = (isolation toy first_path fresh "ax" interleaved []).3

abbrev complete : SelectorMsg toy
complete = record (blank toy) {
  local = some "a";
  remote = some "x";
  fingerprint = some "north";
  path_interface = some interface;
}

abbrev no_local : SelectorMsg toy
no_local = record complete { local = none }

no_local_panics_example : SelectorServer.path toy daemon no_local (blank toy) [] ≡ panics
no_local_panics_example =
    (no_local_panics toy daemon no_local (blank toy) [] refl (λ e. cc e) (λ e. cc e) (λ e. cc e)).2

abbrev wire : SelectorMsg toy → SelectorMsg toy
wire m = m

abbrev ready : SelectorClient toy
ready = record {
  connection_preferences = some strict;
  local = some "a";
  remote = some "x";
  paths = ("north", some north) ∷ [];
}

abbrev unused : SelectorClient toy
unused = record { connection_preferences = some strict; local = none; remote = none; paths = [] }

is_empty_name : Option String → Bool
is_empty_name none = false
is_empty_name (some name) = str_eq name ""

north_named : ◌≢◌ {A = Option String} (some "north") (some "")
unfolding is_empty_name
north_named e = let same : false ≡ true = ap is_empty_name e in cc same

path_end_to_end_example :
    SelectorClient.path toy (loopback toy counting wire) ready (running 5)
    ≡ returns (entry "north" ready.paths, running 6)
path_end_to_end_example =
    path_end_to_end toy counting wire (λ m h. refl) "a" "x" ready (some north) 5 6 refl refl
      north_named refl

initialize_end_to_end_example :
    (initialize_end_to_end toy counting wire
      (λ m h. refl)
      "a"
      "x"
      (north ∷ [])
      unused
      5
      6
      refl).0.remote
    ≡ some "x"
initialize_end_to_end_example =
    (initialize_end_to_end toy counting wire (λ m h. refl) "a" "x" (north ∷ []) unused 5 6 refl).3

abbrev calls : List (ClientCall toy)
calls = ClientCall.initialize "a" "x" (north ∷ []) ∷ ClientCall.refresh (south ∷ []) ∷ []

abbrev after_calls : SelectorClient toy
after_calls = record {
  connection_preferences = none;
  local = some "a";
  remote = some "x";
  paths = ("north", some north) ∷ ("south", some south) ∷ [];
}

calls_run :
    client_run (loopback toy counting wire) calls (new_selector_client toy) (running 5)
    ≡ returns (after_calls, running 7)
unfolding client_run client_call loopback call find_method new_selector_client enter_paths insert
    SelectorClient.initialize SelectorClient.refresh SelectorServer.initialize
    SelectorServer.refresh
calls_run = refl

answers_north :
    SelectorClient.path toy (loopback toy counting wire) after_calls (running 7)
    ≡ returns (some north, running 8)
unfolding loopback call find_method SelectorClient.path SelectorServer.path entry lookup
answers_north = refl

path-Offered_example : Offered north calls
path-Offered_example =
    (path-Offered (loopback toy counting wire) calls after_calls north (running 5) (running 7)
      (running 8) calls_run answers_north).0

joined_texts_share_example :
    replies_of toy first_path fresh "abx"
      (joined_texts_share toy first_path fresh "a" "bx" "ab" "x" (north ∷ []) [] refl).0
    ≡ error none ∷ answer (some north) none ∷ []
unfolding lookup addr_key
joined_texts_share_example =
    (joined_texts_share toy first_path fresh "a" "bx" "ab" "x" (north ∷ []) [] refl).3
