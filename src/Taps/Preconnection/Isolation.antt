-- ===== src/Taps/Preconnection/Isolation.antt =====
-- The copy of a preconnection has cells of its own for its endpoints, its map and its connection
-- preferences, and shares with the original what the security parameters point to.
use panapi.Prelude.{
  ℕ, ◌<◌, ◌≤◌, String, Option, none, some, List, [], ◌∷◌, ◌≡◌, refl, ◌∙◌, ap, arith, update,
}
use panapi.Prelude.GoMap.{GoMap, lookup, lookup-copy_map, copy_map}
use panapi.Taps.Heap.{
  Preconnection, Heap, read_map, copy, clone_endpoint, clone_preferences, copy_transport,
  copy_security,
}
use panapi.Taps.Heap.Cells.{read, From, from-later, update-apart, update-same}
use panapi.Taps.Heap.Clones.{
  Keeps-trans, clone_endpoint-Keeps, clone_preferences-Keeps, clone_endpoint-reads,
  clone_preferences-reads, clone_endpoint-from, clone_endpoint-below, clone_preferences-from,
}
use panapi.Taps.Preconnection.Views.{
  Write, endpoint, map_cell, preferences, suite, key, preconnection, secrets, secrets_of, IsNewer,
  view_of, view, target, write, write_all, AllBelow, IsAllocated,
}

module _ {Proto Key : Type 0} where
  abbrev copied : ℕ → Heap Proto Key → Preconnection
  copied p h =
      let pre = h.preconnections p in
      let r1 = clone_endpoint pre.local_endpoint h in
      let r2 = clone_endpoint pre.remote_endpoint r1.1 in
      let r3 = clone_preferences pre.connection_preferences r2.1 in
      record {
        local_endpoint = r1.0;
        remote_endpoint = r2.0;
        transport_preferences = (copy_transport pre.transport_preferences r3.1).0;
        security_parameters = copy_security pre.security_parameters;
        connection_preferences = r3.0;
      }

  abbrev last_heap : ℕ → Heap Proto Key → Heap Proto Key
  last_heap p h =
      let pre = h.preconnections p in
      let r1 = clone_endpoint pre.local_endpoint h in
      let r2 = clone_endpoint pre.remote_endpoint r1.1 in
      let r3 = clone_preferences pre.connection_preferences r2.1 in
      (copy_transport pre.transport_preferences r3.1).1

  copied-stored :
      (p : ℕ) (h : Heap Proto Key) → (copy p h).1.preconnections (copy p h).0 ≡ copied p h
  unfolding copy
  copied-stored p h = update-same (last_heap p h).preconnections (last_heap p h).next (copied p h)

  view-copied :
      (p : ℕ) (h : Heap Proto Key) → IsAllocated p h → view_of (copied p h) (copy p h).1 ≡ view p h
  unfolding copy copy_security copy_transport
  view-copied p h ok =
      let pre = h.preconnections p in
      let r1 = clone_endpoint pre.local_endpoint h in
      let r2 = clone_endpoint pre.remote_endpoint r1.1 in
      let r3 = clone_preferences pre.connection_preferences r2.1 in
      let k1 = clone_endpoint-Keeps pre.local_endpoint h in
      let k2 = clone_endpoint-Keeps pre.remote_endpoint r1.1 in
      let k3 = clone_preferences-Keeps pre.connection_preferences r2.1 in
      let k12 = Keeps-trans _ _ _ k1 k2 in
      let k23 = Keeps-trans _ _ _ k2 k3 in
      let k13 = Keeps-trans _ _ _ k12 k3 in
      let at_local : read r3.1.endpoints r1.0 ≡ read h.endpoints pre.local_endpoint =
        k23.endpoints r1.0 (clone_endpoint-below pre.local_endpoint h)
        ∙ clone_endpoint-reads pre.local_endpoint h in
      let at_remote : read r3.1.endpoints r2.0 ≡ read h.endpoints pre.remote_endpoint =
        k3.endpoints r2.0 (clone_endpoint-below pre.remote_endpoint r1.1)
        ∙ clone_endpoint-reads pre.remote_endpoint r1.1
        ∙ k1.endpoints pre.remote_endpoint ok.remote in
      let at_preferences : read r3.1.preferences r3.0
          ≡ read h.preferences pre.connection_preferences =
        clone_preferences-reads pre.connection_preferences r2.1
        ∙ k12.preferences pre.connection_preferences ok.preferences in
      let at_map : (key : String)
          → lookup key (
              update r3.1.maps r3.1.next
                (copy_map (read_map r3.1 pre.transport_preferences.interface)) r3.1.next)
            ≡ lookup key (read_map h pre.transport_preferences.interface) =
        λ key.
          ap (lookup key) (update-same r3.1.maps r3.1.next _)
          ∙ lookup-copy_map key _
          ∙ ap (lookup key) (k13.maps pre.transport_preferences.interface ok.interface) in
      λ i. record {
        local = at_local i;
        remote = at_remote i;
        reliability = pre.transport_preferences.reliability;
        preserve_order = pre.transport_preferences.preserve_order;
        congestion_control = pre.transport_preferences.congestion_control;
        interface = λ key. at_map key i;
        multipath = pre.transport_preferences.multipath;
        security = pre.security_parameters;
        preferences = at_preferences i;
      }

  copied-IsNewer : (p : ℕ) (h : Heap Proto Key) → IsNewer h.next (copied p h)
  unfolding copy_transport
  copied-IsNewer p h =
      let pre = h.preconnections p in
      let r1 = clone_endpoint pre.local_endpoint h in
      let r2 = clone_endpoint pre.remote_endpoint r1.1 in
      let k1 = clone_endpoint-Keeps pre.local_endpoint h in
      let k12 = Keeps-trans _ _ _ k1 (clone_endpoint-Keeps pre.remote_endpoint r1.1) in
      let k13 = Keeps-trans _ _ _ k12 (clone_preferences-Keeps pre.connection_preferences r2.1) in
      record {
        local = clone_endpoint-from pre.local_endpoint h;
        remote = from-later r2.0 k1.grows (clone_endpoint-from pre.remote_endpoint r1.1);
        interface = k13.grows;
        preferences =
            from-later _ k12.grows (clone_preferences-from pre.connection_preferences r2.1);
      }

  copy-newer : (p : ℕ) (h : Heap Proto Key) → h.next ≤ (copy p h).0
  unfolding copy copy_transport
  copy-newer p h =
      let pre = h.preconnections p in
      let r1 = clone_endpoint pre.local_endpoint h in
      let r2 = clone_endpoint pre.remote_endpoint r1.1 in
      let k1 = clone_endpoint-Keeps pre.local_endpoint h in
      let k12 = Keeps-trans _ _ _ k1 (clone_endpoint-Keeps pre.remote_endpoint r1.1) in
      let k13 = Keeps-trans _ _ _ k12 (clone_preferences-Keeps pre.connection_preferences r2.1) in
      (let grown = k13.grows in omega arith)

  map-apart :
      (h : Heap Proto Key) (n t : ℕ) (m : GoMap ℕ) (a : Option ℕ)
      → t < n
      → From n a
      → read_map (record h { maps = update h.maps t m }) a ≡ read_map h a
  map-apart h n t m none lt b = refl
  map-apart h n t m (some a) lt b = ground arith

  view-write :
      (n : ℕ) (pre : Preconnection) (w : Write Proto Key) (h : Heap Proto Key)
      → IsNewer n pre
      → target w < n
      → view_of pre (write w h) ≡ view_of pre h
  unfolding write
  view-write n pre (endpoint a e) h newer below = λ i. record (view_of pre h) {
    local = update-apart h.endpoints e pre.local_endpoint below newer.local i;
    remote = update-apart h.endpoints e pre.remote_endpoint below newer.remote i;
  }
  view-write n pre (map_cell a m) h newer below = λ i. record (view_of pre h) {
    interface = λ key.
        lookup key (map-apart h n a m pre.transport_preferences.interface below newer.interface i);
  }
  view-write n pre (preferences a cp) h newer below = λ i. record (view_of pre h) {
    preferences =
        update-apart h.preferences cp pre.connection_preferences below newer.preferences i;
  }
  view-write n pre (suite a s) h newer below = refl
  view-write n pre (key a k) h newer below = refl
  view-write n pre (preconnection a x) h newer below = refl

  cell-write :
      (n q : ℕ) (w : Write Proto Key) (h : Heap Proto Key)
      → n ≤ q
      → target w < n
      → (write w h).preconnections q ≡ h.preconnections q
  unfolding write
  cell-write n q (endpoint a e) h from below = refl
  cell-write n q (map_cell a m) h from below = refl
  cell-write n q (preferences a cp) h from below = refl
  cell-write n q (suite a s) h from below = refl
  cell-write n q (key a k) h from below = refl
  cell-write n q (preconnection a x) h from below = ground arith

  view-write_all :
      (n q : ℕ) (pre : Preconnection) (ws : List (Write Proto Key)) (h : Heap Proto Key)
      → n ≤ q
      → IsNewer n pre
      → h.preconnections q ≡ pre
      → AllBelow n ws
      → view q (write_all ws h) ≡ view_of pre h
  unfolding write_all
  view-write_all n q pre [] h from newer same all = ap (λ x. view_of x h) same
  view-write_all n q pre (w ∷ ws) h from newer same (below, all) =
      view-write_all n q pre ws (write w h) from newer (cell-write n q w h from below ∙ same) all
      ∙ view-write n pre w h newer below

  cell-write_all :
      (n q : ℕ) (ws : List (Write Proto Key)) (h : Heap Proto Key)
      → n ≤ q
      → AllBelow n ws
      → (write_all ws h).preconnections q ≡ h.preconnections q
  unfolding write_all
  cell-write_all n q [] h from all = refl
  cell-write_all n q (w ∷ ws) h from (below, all) =
      cell-write_all n q ws (write w h) from all ∙ cell-write n q w h from below

  copied-secrets :
      (p : ℕ) (h later : Heap Proto Key)
      → secrets_of (copied p h).security_parameters later
        ≡ secrets_of (h.preconnections p).security_parameters later
  unfolding copy_security
  copied-secrets p h later = refl

  -- Whatever is written afterwards through pointers to the cells that were in use, the copy of a
  -- preconnection whose pointers are to cells in use reads as the original read when it was copied,
  -- in its endpoints, with the same protocols, its map, its connection preferences and the fields of
  -- its security parameters. What those point to is shared: the cipher suite and the keys of the copy
  -- are what the original's pointers lead to after the writes.
  pub copy_isolated :
      (p : ℕ) (h : Heap Proto Key) (ws : List (Write Proto Key))
      → IsAllocated p h
      → AllBelow h.next ws
      → (view (copy p h).0 (write_all ws (copy p h).1) ≡ view p h)
        × (secrets (copy p h).0 (write_all ws (copy p h).1)
            ≡ secrets_of (h.preconnections p).security_parameters (write_all ws (copy p h).1))
  copy_isolated p h ws ok all =
      let later = write_all ws (copy p h).1 in
      let stays = cell-write_all h.next (copy p h).0 ws (copy p h).1 (copy-newer p h) all in
      (
        view-write_all h.next (copy p h).0 (copied p h) ws (copy p h).1 (copy-newer p h)
              (copied-IsNewer p h) (copied-stored p h) all
            ∙ view-copied p h ok,
        ap (λ pre. secrets_of pre.security_parameters later) (stays ∙ copied-stored p h)
            ∙ copied-secrets p h later,
      )
