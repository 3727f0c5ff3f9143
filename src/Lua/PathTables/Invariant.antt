-- ===== src/Lua/PathTables/Invariant.antt =====
-- Tables and paths translate both ways, and each remote address owns its tables.
use panapi.Prelude.{
  ℕ, ◌≤◌, ◌<◌, String, Option, none, some, [], ◌∷◌, ◌≡◌, ◌≢◌, refl, ◌⊎◌, inl, inr, arith, str_eq,
  eq_iff, if◌then◌else◌, Bool-cases, update,
}
use panapi.Prelude.GoMap.{GoMap, lookup, insert, lookup-insert}
use panapi.Pan.{Pan, PanPath}
use panapi.Lua.PathTables.{PathTables, new_state, clear_tables, tables_at, clear_addr, enter}

-- the table `n` is a value of the map
abbrev pub InValues : ℕ → GoMap ℕ → Type 0
InValues n [] = ⊥
InValues n ((_, m) ∷ rest) = (n ≡ m) ⊎ InValues n rest

InValues-insert :
    (n v : ℕ) (k : String) (m : GoMap ℕ) → InValues n (insert k v m) → (n ≡ v) ⊎ InValues n m
unfolding insert
InValues-insert n v k [] h = h
InValues-insert n v k ((j, w) ∷ m) h = ground (arith, InValues-insert n v k m)

pub InValues-lookup : (k : String) (n : ℕ) (m : GoMap ℕ) → lookup k m ≡ some n → InValues n m
unfolding lookup
InValues-lookup k n [] h = cc
InValues-lookup k n ((j, w) ∷ m) h = ground (arith, InValues-lookup k n m)

pub tables_at-insert :
    (r k : String) (v : GoMap ℕ) (m : GoMap (GoMap ℕ))
    → tables_at (insert k v m) r ≡ (if str_eq k r then v else tables_at m r)
tables_at-insert r k v m = ground (arith, lookup-insert k r v m)

pub tables_at-some :
    (r : String) (m : GoMap (GoMap ℕ)) {inner : GoMap ℕ}
    → lookup r m ≡ some inner
    → tables_at m r ≡ inner
tables_at-some r m e = ground arith

module _ {pan : Pan} where
  pub clear_tables-none :
      (n : ℕ) (m : GoMap ℕ) (f : ℕ → Option (PanPath pan))
      → f n ≡ none
      → clear_tables pan m f n ≡ none
  unfolding clear_tables
  clear_tables-none n [] f h = h
  clear_tables-none n ((k, w) ∷ m) f h = clear_tables-none n m (update f w none) (ground arith)

  pub clear_tables-InValues :
      (n : ℕ) (m : GoMap ℕ) (f : ℕ → Option (PanPath pan))
      → InValues n m
      → clear_tables pan m f n ≡ none
  unfolding clear_tables
  clear_tables-InValues n [] f h = elim h [ ]
  clear_tables-InValues n ((k, w) ∷ m) f (inl e) =
      clear_tables-none n m (update f w none) (ground arith)
  clear_tables-InValues n ((k, w) ∷ m) f (inr h) = clear_tables-InValues n m (update f w none) h

  pub clear_tables-other :
      (n : ℕ) (m : GoMap ℕ) (f : ℕ → Option (PanPath pan))
      → ¬ InValues n m
      → clear_tables pan m f n ≡ f n
  unfolding clear_tables
  clear_tables-other n [] f h = refl
  clear_tables-other n ((k, w) ∷ m) f h =
      ground
        (arith, clear_tables-other n m (update f w none) (λ x. h (inr x)), λ (e : n ≡ w). h (inl e))

  -- Every table that is known is an allocated one and belongs to one remote address, and no table
  -- that is still to be made stands for a path.
  pub record IsOwned (s : PathTables pan) : Type 0 where
    pub below : (r : String) (n : ℕ) → InValues n (tables_at s.lpaths r) → n < s.next
    pub separate :
        (r r' : String) (n : ℕ)
        → InValues n (tables_at s.lpaths r)
        → InValues n (tables_at s.lpaths r')
        → r ≡ r'
    pub unused : (n : ℕ) → s.next ≤ n → s.ppaths n ≡ none

  pub new_state-IsOwned : IsOwned (new_state pan)
  unfolding new_state lookup
  new_state-IsOwned = record {
    below = λ r n h. elim h [ ];
    separate = λ r r' n h h'. elim h [ ];
    unused = λ n h. refl;
  }

  cleared-tables :
      (addr : pan.UdpAddr) (s : PathTables pan) (r : String) (n : ℕ)
      → InValues n (tables_at (clear_addr pan addr s).lpaths r)
      → (pan.addr_string addr ≢ r) × InValues n (tables_at s.lpaths r)
  unfolding clear_addr
  cleared-tables addr s r n h = elim (Bool-cases (str_eq (pan.addr_string addr) r)) [
    | inl same ↦ absurd (rw (tables_at-insert r (pan.addr_string addr) [] s.lpaths, same) at h)
    | inr other ↦ (
      λ e. cc ((eq_iff (pan.addr_string addr) r).1 e, other),
      rw (tables_at-insert r (pan.addr_string addr) [] s.lpaths, other) at h,
    )
  ]

  pub clear_addr-IsOwned :
      (addr : pan.UdpAddr) (s : PathTables pan) → IsOwned s → IsOwned (clear_addr pan addr s)
  unfolding clear_addr
  clear_addr-IsOwned addr s h = record {
    below = λ r n x. h.below r n (cleared-tables addr s r n x).1;
    separate = λ r r' n x x'.
        h.separate r r' n (cleared-tables addr s r n x).1 (cleared-tables addr s r' n x').1;
    unused = λ n le.
        clear_tables-none n (tables_at s.lpaths (pan.addr_string addr)) s.ppaths (h.unused n le);
  }

  entered-tables :
      (raddr : String) (p : PanPath pan) (inner : GoMap ℕ) (s : PathTables pan) (r : String) (n : ℕ)
      → lookup raddr s.lpaths ≡ some inner
      → InValues n (tables_at (enter pan raddr p inner s).lpaths r)
      → ((raddr ≡ r) × (n ≡ s.next)) ⊎ InValues n (tables_at s.lpaths r)
  entered-tables raddr p inner s r n e h = elim (Bool-cases (str_eq raddr r)) [
    | inl same ↦
        let eq : raddr ≡ r = (eq_iff raddr r).0 same in
        elim (InValues-insert n s.next p.fingerprint inner
          (rw (tables_at-insert r raddr (insert p.fingerprint s.next inner) s.lpaths, same) at h)) [
            | inl new ↦ inl (eq, new)
            | inr old ↦ inr (rw (← eq) (rw (tables_at-some raddr s.lpaths e) old))
          ]
    | inr other ↦
        inr (rw (tables_at-insert r raddr (insert p.fingerprint s.next inner) s.lpaths, other) at h)
  ]

  pub enter-IsOwned :
      (raddr : String) (p : PanPath pan) (inner : GoMap ℕ) (s : PathTables pan)
      → lookup raddr s.lpaths ≡ some inner
      → IsOwned s
      → IsOwned (enter pan raddr p inner s)
  enter-IsOwned raddr p inner s e h = record {
    below = λ r n x. elim (entered-tables raddr p inner s r n e x) [
      | inl (_, new) ↦ omega arith
      | inr old ↦ omega (arith, h.below r n old)
    ];
    separate = λ r r' n x x'. elim (entered-tables raddr p inner s r n e x) [
      | inl (here, new) ↦ elim (entered-tables raddr p inner s r' n e x') [
        | inl (there, _) ↦ cc (here, there)
        | inr old ↦ absurd (omega (arith, h.below r' n old))
      ]
      | inr old ↦ elim (entered-tables raddr p inner s r' n e x') [
        | inl (_, new) ↦ absurd (omega (arith, h.below r n old))
        | inr old' ↦ h.separate r r' n old old'
      ]
    ];
    unused = λ n le. ground (arith, h.unused n);
  }
