-- ===== src/Lua/Values.antt =====
-- The Lua values that the program makes (`lua.LValue` of gopher-lua). A table is its string fields
-- and its list part; a table whose identity matters is a reference. A number is a
-- float64.
use panapi.Prelude.{ℕ, String, Bool, List, [], ◌∷◌}
use panapi.Pan.{Pan}

-- the Go functions that a script can call
pub data HostFunction : Type 0 where
  not_implemented : String → HostFunction
  ignore log now : HostFunction

module _ (pan : Pan) where
  mutual
    pub data LValue : Type 0 where
      nil : LValue
      bool : Bool → LValue
      float : pan.Float → LValue
      string : String → LValue
      host : HostFunction → LValue
      ref : ℕ → LValue
      table : Fields → Items → LValue
      nil_table : LValue  -- a nil `*LTable`, which is no Lua nil

    pub data Fields : Type 0 where
      end : Fields
      field : String → LValue → Fields → Fields

    pub data Items : Type 0 where
      done : Items
      item : LValue → Items → Items

  -- `LNumber` of an integer
  abbrev pub number : ℕ → LValue
  number n = float (pan.to_float n)

  -- `Append` of each value in turn to a new table
  abbrev pub items : List LValue → Items
  items [] = done
  items (x ∷ xs) = item x (items xs)

  abbrev pub array : List LValue → LValue
  array xs = table end (items xs)

  -- `lua.LTable{}`
  abbrev pub empty_table : LValue
  empty_table = table end done
