-- ===== src/Lua/PathTables/Renewal.antt =====
-- `clear_addr` followed by `set_paths`: what `Initialize` and `Refresh` do to the tables.
use text.Mathlib.TextPositions.{eq_refl}
use panapi.Prelude.{
  ℕ, String, none, some, List, [], ◌∷◌, map, ◌≡◌, ◌≢◌, refl, ◌∙◌, false, arith, str_eq, eq_iff,
}
use panapi.Prelude.GoMap.{GoMap, lookup, insert, lookup-insert}
use panapi.Golang.{returns}
use panapi.Pan.{Pan, PanPath}
use panapi.Lua.PathTables.{PathTables, tables_at, clear_addr, enter, set_paths, renew}
use panapi.Lua.PathTables.Invariant.{
  InValues, IsOwned, InValues-lookup, tables_at-insert, tables_at-some, clear_addr-IsOwned,
  clear_tables-InValues, clear_tables-other,
}
use panapi.Lua.PathTables.Translation.{
  fresh_ids, entered_all, set_paths_at-eq, entered_all-IsOwned, ppaths-entered_all, lookup-entered,
  fresh_ids-resolve, tables_at-entered_all,
}

-- the tables are all among the map's values
abbrev pub AllIn : List ℕ → GoMap ℕ → Type 0
AllIn [] m = Unit
AllIn (n ∷ ns) m = InValues n m × AllIn ns m

module _ {pan : Pan} where
  abbrev pub renewed : pan.UdpAddr → List (PanPath pan) → PathTables pan → PathTables pan
  renewed addr ps s = entered_all (pan.addr_string addr) ps [] (clear_addr pan addr s)

  pub lookup-cleared :
      (addr : pan.UdpAddr) (s : PathTables pan)
      → lookup (pan.addr_string addr) (clear_addr pan addr s).lpaths ≡ some []
  unfolding clear_addr
  lookup-cleared addr s =
      rw (lookup-insert (pan.addr_string addr) (pan.addr_string addr) [] s.lpaths) (rw eq_refl refl)

  pub next-cleared :
      (addr : pan.UdpAddr) (s : PathTables pan) → (clear_addr pan addr s).next ≡ s.next
  unfolding clear_addr
  next-cleared addr s = refl

  pub renew-eq :
      (addr : pan.UdpAddr) (ps : List (PanPath pan)) (s : PathTables pan)
      → renew pan addr ps s ≡ returns (fresh_ids s.next ps, renewed addr ps s)
  unfolding set_paths
  renew-eq addr ps s =
      set_paths_at-eq (pan.addr_string addr) ps [] (clear_addr pan addr s) (lookup-cleared addr s)
      ∙ rw next-cleared refl

  pub renewed-IsOwned :
      (addr : pan.UdpAddr) (ps : List (PanPath pan)) (s : PathTables pan)
      → IsOwned s
      → IsOwned (renewed addr ps s)
  renewed-IsOwned addr ps s h =
      entered_all-IsOwned (pan.addr_string addr) ps [] (clear_addr pan addr s)
        (lookup-cleared addr s) (clear_addr-IsOwned addr s h)

  pub renewed-resolve :
      (addr : pan.UdpAddr) (ps : List (PanPath pan)) (s : PathTables pan)
      → map (renewed addr ps s).ppaths (fresh_ids s.next ps) ≡ map some ps
  unfolding clear_addr
  renewed-resolve addr ps s = fresh_ids-resolve (pan.addr_string addr) ps [] (clear_addr pan addr s)

  -- the tables of the address are forgotten
  pub renewed-forgets :
      (addr : pan.UdpAddr) (ps : List (PanPath pan)) (s : PathTables pan) (n : ℕ)
      → IsOwned s
      → InValues n (tables_at s.lpaths (pan.addr_string addr))
      → (renewed addr ps s).ppaths n ≡ none
  unfolding clear_addr
  renewed-forgets addr ps s n h x =
      ppaths-entered_all (pan.addr_string addr) ps [] (clear_addr pan addr s) n
        (h.below (pan.addr_string addr) n x)
      ∙ clear_tables-InValues n (tables_at s.lpaths (pan.addr_string addr)) s.ppaths x

  -- the tables of another address keep their paths, and stay with that address
  pub renewed-keeps :
      (addr : pan.UdpAddr) (ps : List (PanPath pan)) (s : PathTables pan) (r : String) (n : ℕ)
      → IsOwned s
      → pan.addr_string addr ≢ r
      → InValues n (tables_at s.lpaths r)
      → ((renewed addr ps s).ppaths n ≡ s.ppaths n)
        × InValues n (tables_at (renewed addr ps s).lpaths r)
  unfolding clear_addr
  renewed-keeps addr ps s r n h ne x = (
    ppaths-entered_all (pan.addr_string addr) ps [] (clear_addr pan addr s) n (h.below r n x)
        ∙ clear_tables-other n (tables_at s.lpaths (pan.addr_string addr)) s.ppaths
            (λ y. ne (h.separate (pan.addr_string addr) r n y x)),
    rw (tables_at-entered_all (pan.addr_string addr) r ps [] (clear_addr pan addr s) ne) (
        ground (
          arith,
          tables_at-insert r (pan.addr_string addr) [] s.lpaths,
          eq_iff (pan.addr_string addr) r,
        )),
  )

  -- no path of the list has the fingerprint; no two have the same
  abbrev pub Absent : String → List (PanPath pan) → Type 0
  Absent fp [] = Unit
  Absent fp (p ∷ ps) = (str_eq p.fingerprint fp ≡ false) × Absent fp ps

  abbrev pub Distinct : List (PanPath pan) → Type 0
  Distinct [] = Unit
  Distinct (p ∷ ps) = Absent p.fingerprint ps × Distinct ps

  lookup-entered_all :
      (raddr fp : String) (ps : List (PanPath pan)) (inner : GoMap ℕ) (s : PathTables pan)
      → lookup raddr s.lpaths ≡ some inner
      → Absent fp ps
      → lookup fp (tables_at (entered_all raddr ps inner s).lpaths raddr) ≡ lookup fp inner
  unfolding entered_all
  lookup-entered_all raddr fp [] inner s e h = rw (tables_at-some raddr s.lpaths e) refl
  lookup-entered_all raddr fp (p ∷ ps) inner s e h =
      lookup-entered_all raddr fp ps (insert p.fingerprint s.next inner) (enter pan raddr p inner s)
        (lookup-entered raddr p inner s) h.1
      ∙ rw (lookup-insert p.fingerprint fp s.next inner) (rw h.0 refl)

  fresh_ids-AllIn :
      (raddr : String) (ps : List (PanPath pan)) (inner : GoMap ℕ) (s : PathTables pan)
      → lookup raddr s.lpaths ≡ some inner
      → Distinct ps
      → AllIn (fresh_ids s.next ps) (tables_at (entered_all raddr ps inner s).lpaths raddr)
  unfolding entered_all fresh_ids
  fresh_ids-AllIn raddr [] inner s e h = tt
  fresh_ids-AllIn raddr (p ∷ ps) inner s e h =
      let t = enter pan raddr p inner s in
      let inner' = insert p.fingerprint s.next inner in
      (
        InValues-lookup p.fingerprint s.next
            (tables_at (entered_all raddr ps inner' t).lpaths raddr)
            (lookup-entered_all raddr p.fingerprint ps inner' t (lookup-entered raddr p inner s) h.0
              ∙ rw (lookup-insert p.fingerprint p.fingerprint s.next inner) (rw eq_refl refl)),
        fresh_ids-AllIn raddr ps inner' t (lookup-entered raddr p inner s) h.1,
      )

  -- the new tables stay with the address
  pub renewed-AllIn :
      (addr : pan.UdpAddr) (ps : List (PanPath pan)) (s : PathTables pan)
      → Distinct ps
      → AllIn (fresh_ids s.next ps) (tables_at (renewed addr ps s).lpaths (pan.addr_string addr))
  unfolding clear_addr
  renewed-AllIn addr ps s d =
      fresh_ids-AllIn (pan.addr_string addr) ps [] (clear_addr pan addr s) (lookup-cleared addr s) d

  all_forgotten :
      (addr : pan.UdpAddr) (qs : List (PanPath pan)) (s : PathTables pan) (ns : List ℕ)
      → IsOwned s
      → AllIn ns (tables_at s.lpaths (pan.addr_string addr))
      → map (renewed addr qs s).ppaths ns ≡ map (λ _. none) ns
  all_forgotten addr qs s [] h x = refl
  all_forgotten addr qs s (n ∷ ns) h x =
      cc (renewed-forgets addr qs s n h x.0, all_forgotten addr qs s ns h x.1)

  -- the tables of the last renewal of an address are forgotten by the next
  pub renewed_twice :
      (addr : pan.UdpAddr) (ps qs : List (PanPath pan)) (s : PathTables pan)
      → IsOwned s
      → Distinct ps
      → map (renewed addr qs (renewed addr ps s)).ppaths (fresh_ids s.next ps)
        ≡ map (λ _. none) (fresh_ids s.next ps)
  unfolding clear_addr
  renewed_twice addr ps qs s h d =
      all_forgotten addr qs (renewed addr ps s) (fresh_ids s.next ps) (renewed-IsOwned addr ps s h)
        (renewed-AllIn addr ps s d)
