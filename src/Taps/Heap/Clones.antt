-- ===== src/Taps/Heap/Clones.antt =====
-- The copies of the pointers in `Preconnection.Copy` keep every cell in use, and read like the
-- cells that they copy.
use panapi.Prelude.{ℕ, ◌+◌, ◌≤◌, Option, none, some, ◌≡◌, refl, ◌∙◌, arith, update}
use panapi.Prelude.GoMap.{GoMap, copy_map}
use panapi.Taps.Properties.{copy_connection_preferences}
use panapi.Taps.Heap.{
  TransportPreferences, Heap, read_map, copy_endpoint, clone_endpoint, clone_preferences,
  copy_transport,
}
use panapi.Taps.Heap.Cells.{read, Below, From, below-later, update-keeps}

module _ {Proto Key : Type 0} where
  -- a later heap: every cell in use has its content still
  pub record Keeps (h h' : Heap Proto Key) : Type 0 where
    pub grows : h.next ≤ h'.next
    pub endpoints : (a : Option ℕ) → Below h.next a → read h'.endpoints a ≡ read h.endpoints a
    pub maps : (a : Option ℕ) → Below h.next a → read_map h' a ≡ read_map h a
    pub preferences : (a : Option ℕ) → Below h.next a → read h'.preferences a ≡ read h.preferences a

  pub Keeps-trans : (h1 h2 h3 : Heap Proto Key) → Keeps h1 h2 → Keeps h2 h3 → Keeps h1 h3
  Keeps-trans h1 h2 h3 k l = record {
    grows = omega arith;
    endpoints = λ a b. l.endpoints a (below-later a k.grows b) ∙ k.endpoints a b;
    maps = λ a b. l.maps a (below-later a k.grows b) ∙ k.maps a b;
    preferences = λ a b. l.preferences a (below-later a k.grows b) ∙ k.preferences a b;
  }

  pub map-keeps :
      (h : Heap Proto Key) (m : GoMap ℕ) (a : Option ℕ)
      → Below h.next a
      → read_map (record h { maps = update h.maps h.next m; next = h.next + 1 }) a ≡ read_map h a
  map-keeps h m none b = refl
  map-keeps h m (some a) b = ground arith

  pub clone_endpoint-Keeps : (a : Option ℕ) (h : Heap Proto Key) → Keeps h (clone_endpoint a h).1
  unfolding clone_endpoint copy_endpoint
  clone_endpoint-Keeps none h = record {
    grows = omega arith;
    endpoints = λ a b. refl;
    maps = λ a b. refl;
    preferences = λ a b. refl;
  }
  clone_endpoint-Keeps (some c) h = record {
    grows = omega arith;
    endpoints = update-keeps h.endpoints h.next (h.endpoints c);
    maps = elim [ none ↦ λ b. refl | some a ↦ λ b. refl ];
    preferences = λ a b. refl;
  }

  pub clone_preferences-Keeps :
      (a : Option ℕ) (h : Heap Proto Key) → Keeps h (clone_preferences a h).1
  unfolding clone_preferences copy_connection_preferences
  clone_preferences-Keeps none h = record {
    grows = omega arith;
    endpoints = λ a b. refl;
    maps = λ a b. refl;
    preferences = λ a b. refl;
  }
  clone_preferences-Keeps (some c) h = record {
    grows = omega arith;
    endpoints = λ a b. refl;
    maps = elim [ none ↦ λ b. refl | some a ↦ λ b. refl ];
    preferences = update-keeps h.preferences h.next (h.preferences c);
  }

  pub copy_transport-Keeps :
      (tp : TransportPreferences) (h : Heap Proto Key) → Keeps h (copy_transport tp h).1
  unfolding copy_transport
  copy_transport-Keeps tp h = record {
    grows = omega arith;
    endpoints = λ a b. refl;
    maps = map-keeps h (copy_map (read_map h tp.interface));
    preferences = λ a b. refl;
  }

  pub clone_endpoint-reads :
      (a : Option ℕ) (h : Heap Proto Key)
      → read (clone_endpoint a h).1.endpoints (clone_endpoint a h).0 ≡ read h.endpoints a
  unfolding clone_endpoint copy_endpoint
  clone_endpoint-reads none h = refl
  clone_endpoint-reads (some c) h = ground arith

  pub clone_preferences-reads :
      (a : Option ℕ) (h : Heap Proto Key)
      → read (clone_preferences a h).1.preferences (clone_preferences a h).0 ≡ read h.preferences a
  unfolding clone_preferences copy_connection_preferences
  clone_preferences-reads none h = refl
  clone_preferences-reads (some c) h = ground arith

  pub clone_endpoint-from : (a : Option ℕ) (h : Heap Proto Key) → From h.next (clone_endpoint a h).0
  unfolding clone_endpoint
  clone_endpoint-from none h = tt
  clone_endpoint-from (some c) h = omega arith

  pub clone_endpoint-below :
      (a : Option ℕ) (h : Heap Proto Key) → Below (clone_endpoint a h).1.next (clone_endpoint a h).0
  unfolding clone_endpoint
  clone_endpoint-below none h = tt
  clone_endpoint-below (some c) h = omega arith

  pub clone_preferences-from :
      (a : Option ℕ) (h : Heap Proto Key) → From h.next (clone_preferences a h).0
  unfolding clone_preferences
  clone_preferences-from none h = tt
  clone_preferences-from (some c) h = omega arith

  pub clone_preferences-below :
      (a : Option ℕ) (h : Heap Proto Key)
      → Below (clone_preferences a h).1.next (clone_preferences a h).0
  unfolding clone_preferences
  clone_preferences-below none h = tt
  clone_preferences-below (some c) h = omega arith
