-- ===== src/Lua/PathTables.antt =====
-- The type `state` of lua/selector.go: which Lua table stands for which path. A table is known by
-- its address; `next` is the first address that is free, and `heap` holds the tables' content.
-- The two Go maps of `state` are `lpaths` and `ppaths`; a missing entry of `ppaths` is nil.
pub mod Invariant
pub mod Translation
pub mod Renewal
use panapi.Prelude.{ℕ, ◌+◌, String, Option, none, some, List, [], ◌∷◌, update}
use panapi.Prelude.GoMap.{GoMap, lookup, insert}
use panapi.Golang.{Run, returns, deref, ◌>>=◌}
use panapi.Pan.{Pan, PanPath}
use panapi.Lua.Values.{LValue}
use panapi.Lua.Tables.{new_lua_path}

-- `s.lpaths[raddr]` where it is ranged over: a missing map has no entry
abbrev pub tables_at : GoMap (GoMap ℕ) → String → GoMap ℕ
tables_at lpaths raddr = elim (lookup raddr lpaths) [ none ↦ [] | some inner ↦ inner ]

module _ (pan : Pan) where
  pub record PathTables : Type 0 where
    pub lpaths : GoMap (GoMap ℕ)
    pub ppaths : ℕ → Option (PanPath pan)
    pub next : ℕ
    pub heap : ℕ → Option (LValue pan)

  -- `new_state`
  unfoldable pub new_state : PathTables
  new_state = record { lpaths = []; ppaths = λ _. none; next = 0; heap = λ _. none }

  -- `none` is the nil that `ToTable` gives for what is no table
  unfoldable pub get_pan_path : PathTables → Option ℕ → Option (PanPath pan)
  get_pan_path s none = none
  get_pan_path s (some lpath) = s.ppaths lpath

  unfoldable pub clear_tables : GoMap ℕ → (ℕ → Option (PanPath pan)) → ℕ → Option (PanPath pan)
  clear_tables [] ppaths = ppaths
  clear_tables ((_, lt) ∷ rest) ppaths = clear_tables rest (update ppaths lt none)

  unfoldable pub clear_addr : pan.UdpAddr → PathTables → PathTables
  unfolding clear_tables
  clear_addr addr s =
      let raddr = pan.addr_string addr in
      record s {
        ppaths = clear_tables (tables_at s.lpaths raddr) s.ppaths;
        lpaths = insert raddr [] s.lpaths;
      }

  -- one round of the loop of `set_paths`, which made the table `lpath`
  abbrev pub enter : String → PanPath pan → GoMap ℕ → PathTables → PathTables
  enter raddr ppath inner s = record s {
    lpaths = insert raddr (insert ppath.fingerprint s.next inner) s.lpaths;
    ppaths = update s.ppaths s.next (some ppath);
    next = s.next + 1;
    heap = update s.heap s.next (some (new_lua_path pan ppath));
  }

  -- a write to a map that is not there panics
  unfoldable pub set_paths_at : String → List (PanPath pan) → PathTables → Run (List ℕ × PathTables)
  set_paths_at raddr [] s = returns ([], s)
  set_paths_at raddr (ppath ∷ ppaths) s = do
    inner ← deref (lookup raddr s.lpaths)
    (lpaths, s') ← set_paths_at raddr ppaths (enter raddr ppath inner s)
    returns (s.next ∷ lpaths, s')

  unfoldable pub set_paths :
      pan.UdpAddr → List (PanPath pan) → PathTables → Run (List ℕ × PathTables)
  unfolding set_paths_at
  set_paths addr ppaths s = set_paths_at (pan.addr_string addr) ppaths s

  -- `clear_addr` and then `set_paths`, as `Initialize` and `Refresh` call them
  abbrev pub renew : pan.UdpAddr → List (PanPath pan) → PathTables → Run (List ℕ × PathTables)
  renew addr ppaths s = set_paths addr ppaths (clear_addr addr s)
