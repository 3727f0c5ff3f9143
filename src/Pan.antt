-- ===== src/Pan.antt =====
-- What the program uses of the SCION library `pan`: the types of its addresses and paths, which
-- lie outside the repository. Types whose content the program never looks at are parameters.
use panapi.Prelude.{ℕ, String, Option, List}

pub record Pan : Type 1 where
  -- `pan.UDPAddr`, with the text that its `String` method gives
  pub UdpAddr : Type 0
  pub addr_string : UdpAddr → String
  -- `pan.IA`, with its `String`
  pub Ia : Type 0
  pub ia_string : Ia → String
  -- `time.Time`, with its `String`
  pub Time : Type 0
  pub time_string : Time → String
  -- `time.Duration`'s `String`, of a number of nanoseconds
  pub duration_string : ℕ → String
  -- floating-point numbers: those of a geographic position, and `float64(n)` of an integer, which
  -- rounds
  pub Float : Type 0
  pub to_float : ℕ → Float
  pub ForwardingPath : Type 0

module _ (pan : Pan) where
  open pan use {Ia, Time, Float, ForwardingPath}

  -- `pan.PathInterface`
  pub record PathInterface : Type 0 where
    pub ia : Ia
    pub if_id : ℕ

  pub record Geo : Type 0 where
    pub latitude : Float
    pub longitude : Float
    pub address : String

  -- `pan.PathMetadata`: the fields that the program reads
  pub record PathMetadata : Type 0 where
    pub mtu : ℕ
    pub interfaces : List PathInterface
    pub latency : List ℕ
    pub bandwidth : List ℕ
    pub link_type : List ℕ
    pub internal_hops : List ℕ
    pub notes : List String
    pub geo : List Geo

  -- `pan.Path`; `pan.PathFingerprint` is a string type, and `none` is the nil pointer or nil map
  pub record PanPath : Type 0 where
    pub source : Ia
    pub destination : Ia
    pub metadata : Option PathMetadata
    pub fingerprint : String
    pub expiry : Time
    pub forwarding_path : Option ForwardingPath
