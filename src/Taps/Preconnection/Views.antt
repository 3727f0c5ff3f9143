-- ===== src/Taps/Preconnection/Views.antt =====
-- What can be read through a pointer to a preconnection, and the writes through pointers of taps/.
use panapi.Prelude.{ℕ, ◌<◌, String, Option, List, [], ◌∷◌, update}
use panapi.Prelude.GoMap.{GoMap, lookup}
use panapi.Taps.Preferences.{ConnectionPreferences}
use panapi.Taps.Heap.{Endpoint, CipherSuite, SecurityParameters, Preconnection, Heap, read_map}
use panapi.Taps.Heap.Cells.{read, Below, From}

-- what can be read through a preconnection, but for what the pointers in its security parameters
-- lead to
pub record View (Proto Key : Type 0) : Type 0 where
  pub local : Option (Endpoint Proto)
  pub remote : Option (Endpoint Proto)
  pub reliability : ℕ
  pub preserve_order : ℕ
  pub congestion_control : ℕ
  pub interface : String → Option ℕ
  pub multipath : ℕ
  pub security : SecurityParameters
  pub preferences : Option ConnectionPreferences

-- what the pointers in its security parameters lead to
pub record Secrets (Key : Type 0) : Type 0 where
  pub suite : Option CipherSuite
  pub private_key : Option Key
  pub public_key : Option Key
  pub psk : Option Key

-- a write through a pointer
pub data Write (Proto Key : Type 0) : Type 0 where
  endpoint : ℕ → Endpoint Proto → Write Proto Key
  map_cell : ℕ → GoMap ℕ → Write Proto Key
  preferences : ℕ → ConnectionPreferences → Write Proto Key
  suite : ℕ → CipherSuite → Write Proto Key
  key : ℕ → Key → Write Proto Key
  preconnection : ℕ → Preconnection → Write Proto Key

-- the pointers of a preconnection are to cells from `n` on
pub record IsNewer (n : ℕ) (pre : Preconnection) : Type 0 where
  pub local : From n pre.local_endpoint
  pub remote : From n pre.remote_endpoint
  pub interface : From n pre.transport_preferences.interface
  pub preferences : From n pre.connection_preferences

module _ {Proto Key : Type 0} where
  abbrev pub view_of : Preconnection → Heap Proto Key → View Proto Key
  view_of pre h = record {
    local = read h.endpoints pre.local_endpoint;
    remote = read h.endpoints pre.remote_endpoint;
    reliability = pre.transport_preferences.reliability;
    preserve_order = pre.transport_preferences.preserve_order;
    congestion_control = pre.transport_preferences.congestion_control;
    interface = λ i. lookup i (read_map h pre.transport_preferences.interface);
    multipath = pre.transport_preferences.multipath;
    security = pre.security_parameters;
    preferences = read h.preferences pre.connection_preferences;
  }

  abbrev pub view : ℕ → Heap Proto Key → View Proto Key
  view p h = view_of (h.preconnections p) h

  abbrev pub secrets_of : SecurityParameters → Heap Proto Key → Secrets Key
  secrets_of sp h = record {
    suite = read h.suites sp.cipher_suite;
    private_key = read h.keys sp.key_pair.private_key;
    public_key = read h.keys sp.key_pair.public_key;
    psk = read h.keys sp.psk;
  }

  abbrev pub secrets : ℕ → Heap Proto Key → Secrets Key
  secrets p h = secrets_of (h.preconnections p).security_parameters h

  abbrev pub target : Write Proto Key → ℕ
  target (endpoint a _) = a
  target (map_cell a _) = a
  target (preferences a _) = a
  target (suite a _) = a
  target (key a _) = a
  target (preconnection a _) = a

  unfoldable pub write : Write Proto Key → Heap Proto Key → Heap Proto Key
  write (endpoint a e) h = record h { endpoints = update h.endpoints a e }
  write (map_cell a m) h = record h { maps = update h.maps a m }
  write (preferences a cp) h = record h { preferences = update h.preferences a cp }
  write (suite a s) h = record h { suites = update h.suites a s }
  write (key a k) h = record h { keys = update h.keys a k }
  write (preconnection a pre) h = record h { preconnections = update h.preconnections a pre }

  unfoldable pub write_all : List (Write Proto Key) → Heap Proto Key → Heap Proto Key
  write_all [] h = h
  write_all (w ∷ ws) h = write_all ws (write w h)

  abbrev pub AllBelow : ℕ → List (Write Proto Key) → Type 0
  AllBelow n [] = Unit
  AllBelow n (w ∷ ws) = (target w < n) × AllBelow n ws

  -- the pointers of a preconnection are to cells in use
  pub record IsAllocated (p : ℕ) (h : Heap Proto Key) : Type 0 where
    pub local : Below h.next (h.preconnections p).local_endpoint
    pub remote : Below h.next (h.preconnections p).remote_endpoint
    pub interface : Below h.next (h.preconnections p).transport_preferences.interface
    pub preferences : Below h.next (h.preconnections p).connection_preferences
