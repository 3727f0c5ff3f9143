-- ===== src/Lua/PathTables/Translation.antt =====
-- What `clear_addr` and `set_paths` do to the translation between tables and paths.
use panapi.Prelude.{ℕ, ◌+◌, ◌<◌, String, some, List, [], ◌∷◌, map, ◌≡◌, ◌≢◌, refl, arith, eq_iff}
use panapi.Prelude.GoMap.{GoMap, lookup, insert, lookup-insert}
use text.Mathlib.TextPositions.{eq_refl}
use panapi.Golang.{returns}
use panapi.Pan.{Pan, PanPath}
use panapi.Lua.PathTables.{PathTables, tables_at, enter, set_paths_at}
use panapi.Lua.PathTables.Invariant.{IsOwned, tables_at-insert, enter-IsOwned}

-- the addresses of the tables that a list of paths gets
unfoldable pub fresh_ids {ℓ} : {A : Type ℓ} → ℕ → List A → List ℕ
fresh_ids n [] = []
fresh_ids n (_ ∷ ps) = n ∷ fresh_ids (n + 1) ps

module _ {pan : Pan} where
  -- the loop of `set_paths` where the map of the address is there
  unfoldable pub entered_all :
      String → List (PanPath pan) → GoMap ℕ → PathTables pan → PathTables pan
  entered_all raddr [] inner s = s
  entered_all raddr (p ∷ ps) inner s =
      entered_all raddr ps (insert p.fingerprint s.next inner) (enter pan raddr p inner s)

  pub lookup-entered :
      (raddr : String) (p : PanPath pan) (inner : GoMap ℕ) (s : PathTables pan)
      → lookup raddr (enter pan raddr p inner s).lpaths ≡ some (insert p.fingerprint s.next inner)
  lookup-entered raddr p inner s =
      rw (lookup-insert raddr raddr (insert p.fingerprint s.next inner) s.lpaths) (rw eq_refl refl)

  pub set_paths_at-eq :
      (raddr : String) (ps : List (PanPath pan)) (inner : GoMap ℕ) (s : PathTables pan)
      → lookup raddr s.lpaths ≡ some inner
      → set_paths_at pan raddr ps s ≡ returns (fresh_ids s.next ps, entered_all raddr ps inner s)
  unfolding set_paths_at fresh_ids entered_all
  set_paths_at-eq raddr [] inner s e = refl
  set_paths_at-eq raddr (p ∷ ps) inner s e = simp (
    e,
    set_paths_at-eq raddr ps (insert p.fingerprint s.next inner) (enter pan raddr p inner s)
        (lookup-entered raddr p inner s),
  )

  pub entered_all-IsOwned :
      (raddr : String) (ps : List (PanPath pan)) (inner : GoMap ℕ) (s : PathTables pan)
      → lookup raddr s.lpaths ≡ some inner
      → IsOwned s
      → IsOwned (entered_all raddr ps inner s)
  unfolding entered_all
  entered_all-IsOwned raddr [] inner s e h = h
  entered_all-IsOwned raddr (p ∷ ps) inner s e h =
      entered_all-IsOwned raddr ps (insert p.fingerprint s.next inner) (enter pan raddr p inner s)
        (lookup-entered raddr p inner s) (enter-IsOwned raddr p inner s e h)

  -- the paths of the tables made before stay
  pub ppaths-entered_all :
      (raddr : String) (ps : List (PanPath pan)) (inner : GoMap ℕ) (s : PathTables pan) (n : ℕ)
      → n < s.next
      → (entered_all raddr ps inner s).ppaths n ≡ s.ppaths n
  unfolding entered_all
  ppaths-entered_all raddr [] inner s n h = refl
  ppaths-entered_all raddr (p ∷ ps) inner s n h = ground (
    arith,
    ppaths-entered_all raddr ps (insert p.fingerprint s.next inner) (enter pan raddr p inner s) n,
  )

  pub fresh_ids-resolve :
      (raddr : String) (ps : List (PanPath pan)) (inner : GoMap ℕ) (s : PathTables pan)
      → map (entered_all raddr ps inner s).ppaths (fresh_ids s.next ps) ≡ map some ps
  unfolding entered_all fresh_ids
  fresh_ids-resolve raddr [] inner s = refl
  fresh_ids-resolve raddr (p ∷ ps) inner s =
      let t = enter pan raddr p inner s in
      let inner' = insert p.fingerprint s.next inner in
      let head : (entered_all raddr ps inner' t).ppaths s.next ≡ some p =
        ground (arith, ppaths-entered_all raddr ps inner' t s.next) in
      cc (head, fresh_ids-resolve raddr ps inner' t)

  -- the maps of other addresses stay
  pub tables_at-entered_all :
      (raddr r : String) (ps : List (PanPath pan)) (inner : GoMap ℕ) (s : PathTables pan)
      → raddr ≢ r
      → tables_at (entered_all raddr ps inner s).lpaths r ≡ tables_at s.lpaths r
  unfolding entered_all
  tables_at-entered_all raddr r [] inner s h = refl
  tables_at-entered_all raddr r (p ∷ ps) inner s h = ground (
    arith,
    eq_iff raddr r,
    tables_at-insert r raddr (insert p.fingerprint s.next inner) s.lpaths,
    tables_at-entered_all raddr r ps (insert p.fingerprint s.next inner)
        (enter pan raddr p inner s),
  )
