-- ===== src/Rpc/PathMsg.antt =====
-- rpc/path.go: the form of a path that goes over the wire.
use panapi.Prelude.{String, Option, none, ◌≡◌, refl}
use panapi.Pan.{Pan, PathMetadata, PanPath}

module _ (pan : Pan) where
  open pan use {Ia, Time}

  -- `rpc.Path`
  pub record PathMsg : Type 0 where
    pub source : Ia
    pub destination : Ia
    pub metadata : Option (PathMetadata pan)
    pub fingerprint : String
    pub expiry : Time

  -- `PanPath` leaves the forwarding path at its zero value
  unfoldable pub pan_path : PathMsg → PanPath pan
  pan_path p = record {
    source = p.source;
    destination = p.destination;
    metadata = p.metadata;
    fingerprint = p.fingerprint;
    expiry = p.expiry;
    forwarding_path = none;
  }

  unfoldable pub new_path_from : PanPath pan → PathMsg
  new_path_from p = record {
    source = p.source;
    destination = p.destination;
    metadata = p.metadata;
    fingerprint = p.fingerprint;
    expiry = p.expiry;
  }

  -- the part of a path that the daemon sees
  abbrev pub without_forwarding : PanPath pan → PanPath pan
  without_forwarding p = record p { forwarding_path = none }

  pub pan_path-new_path_from : (p : PanPath pan) → pan_path (new_path_from p) ≡ without_forwarding p
  unfolding pan_path new_path_from
  pan_path-new_path_from p = refl
