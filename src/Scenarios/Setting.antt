-- ===== src/Scenarios/Setting.antt =====
-- The concrete types and values of the runs.
use panapi.Prelude.{
  ℕ, ◌+◌, ◌-◌, String, Bool, true, false, Option, none, some, List, [], ◌∷◌, ◌≡◌, ◌≢◌, refl, arith,
  if◌then◌else◌, str_eq, eq_iff,
}
use panapi.Prelude.GoMap.{GoMap, lookup}
use panapi.Golang.{Error, Err, returns}
use panapi.Pan.{Pan, PanPath, PathInterface}
use panapi.Taps.Heap.{CipherSuite}
use panapi.Taps.Preferences.{ConnectionPreferences}
use panapi.Rpc.Interfaces.{Selector, ServerSelector}
use panapi.Rpc.ServerSelector.{server_selector}
use panapi.Rpc.ConnectionTracer.{Quic}
use panapi.Lua.Values.{LValue, HostFunction, host}
use panapi.Lua.Interpreter.{Interpreter, IsDocumented, function_of}

abbrev pub toy : Pan
toy = record {
  UdpAddr = String;
  addr_string = λ a. a;
  Ia = ℕ;
  ia_string = λ a. "1-ff00:0:110";
  Time = ℕ;
  time_string = λ t. "noon";
  duration_string = λ d. "1s";
  Float = ℕ;
  to_float = λ n. n;
  ForwardingPath = ℕ;
}

abbrev pub quic : Quic toy
quic = record {
  ConnectionId = ℕ;
  Header = ℕ;
  ExtendedHeader = ℕ;
  Frame = ℕ;
  AckFrame = ℕ;
  conn_id_string = λ a. "id";
  version_string = λ v. "v1";
  level_string = λ l. "1-RTT";
  seconds = λ d. d;
}

abbrev pub path_named : String → PanPath toy
path_named fp = record {
  source = 1;
  destination = 2;
  metadata = none;
  fingerprint = fp;
  expiry = 3;
  forwarding_path = some 4;
}

abbrev pub north : PanPath toy
north = path_named "north"

abbrev pub south : PanPath toy
south = path_named "south"

abbrev pub interface : PathInterface toy
interface = record { ia = 1; if_id = 7 }

abbrev pub aes : CipherSuite
aes = record {
  id = 4865;
  name = "TLS_AES_128_GCM_SHA256";
  supported_versions = 772 ∷ [];
  insecure = false;
}

abbrev pub strict : ConnectionPreferences
strict = record {
  conn_timeout = 10;
  conn_capacity_profile = 1;
  multipath_policy = 0;
  isolate_session = true;
}

abbrev head : List (PanPath toy) → Option (PanPath toy)
head [] = none
head (p ∷ _) = some p

-- a selector that takes the first path that it was offered
abbrev pub first_path : Selector toy (List (PanPath toy))
first_path = record {
  initialize = λ l r ps s. ps;
  path = λ s. (head s, s);
  path_down = λ fp pi s. [];
  refresh = λ ps s. ps;
  close = λ s. (none, s);
  set_preferences = λ prefs s. (none, s);
}

abbrev pub fresh : String → String → List (PanPath toy)
fresh l r = []

abbrev pub daemon : ServerSelector toy (GoMap (List (PanPath toy)))
daemon = server_selector toy first_path fresh

-- a daemon's selector that counts the calls, and always takes the northern path
abbrev pub counting : ServerSelector toy ℕ
counting = record {
  initialize = λ prefs l r ps n. returns (none, n + 1);
  set_preferences = λ prefs l r n. returns (none, n + 1);
  path = λ l r n. returns ((some north, none), n + 1);
  path_down = λ l r fp pi n. returns (none, n + 1);
  refresh = λ l r ps n. returns (none, n + 1);
  close = λ l r n. returns (none, n + 1);
}

-- an interpreter that counts the values on its stack, and keeps the modules that were registered
pub record Machine : Type 0 where
  pub modules : String → GoMap HostFunction
  pub values : ℕ

abbrev pub idle : Machine
idle = record { modules = λ name. []; values = 0 }

-- a machine with a script that has a module
abbrev pub scripted : String → GoMap HostFunction → Machine
scripted name functions = record {
  modules = λ n. if str_eq n name then functions else [];
  values = 0;
}

abbrev pub callable : LValue toy → Bool
callable (host HostFunction.ignore) = true
callable _ = false

abbrev pub called : Bool → ℕ → Machine → Err × Machine
called true n s = (none, record s { values = s.values + n })
called false n s = (some (Error.foreign "attempt to call a non-function object"), s)

abbrev pub machine : Interpreter toy Machine
machine = record {
  register_module = λ name functions s. record s {
    modules = λ n. if str_eq n name then functions else s.modules n;
  };
  raw_get_string = λ name key s. function_of (lookup key (s.modules name));
  call_by_param = λ f n args s. called (callable f) n s;
  to_table = λ s. some 0;
  pop = λ n s. record s { values = s.values - n };
  depth = λ s. s.values;
}

called_pushes :
    (b : Bool) (n : ℕ) (s : Machine)
    → (called b n s).0 ≡ none
    → (called b n s).1.values ≡ s.values + n
called_pushes true n s h = refl
called_pushes false n s h = cc

called_fails :
    (b : Bool) (n : ℕ) (s : Machine) → (called b n s).0 ≢ none → (called b n s).1.values ≡ s.values
called_fails true n s h = absurd (h refl)
called_fails false n s h = refl

pub called-keeps :
    (b : Bool) (n : ℕ) (s : Machine) (name key : String)
    → machine.raw_get_string name key (called b n s).1 ≡ machine.raw_get_string name key s
called-keeps true n s name key = refl
called-keeps false n s name key = refl

same_name : (name : String) → str_eq name name ≡ true
same_name name = ground (arith, eq_iff name name)

pub machine-IsDocumented : IsDocumented machine
machine-IsDocumented = record {
  call_pushes = λ f n args s h. called_pushes (callable f) n s h;
  failed_call_balanced = λ f n args s h. called_fails (callable f) n s h;
  pop_takes = λ n s h. refl;
  nil_call_fails = λ n args s h. cc h;
  registered = λ name functions key s h. rw (same_name name) refl;
}
