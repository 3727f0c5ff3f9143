-- ===== src/Lua/Interpreter.antt =====
-- What lua/ uses of the interpreter gopher-lua, on a state of type `L`, and what its documentation
-- says of it. Each exported method of lua/ holds the mutex of `State` from its start to its end, so
-- the calls on one state come one after the other.
use panapi.Prelude.{ℕ, ◌+◌, ◌-◌, ◌≤◌, String, Option, none, some, List, ◌≡◌, ◌≢◌}
use panapi.Prelude.GoMap.{GoMap, lookup}
use panapi.Golang.{Err}
use panapi.Pan.{Pan}
use panapi.Lua.Values.{LValue, HostFunction, nil, host}

pub record Interpreter (pan : Pan) (L : Type 0) : Type 0 where
  -- `RegisterModule(name, functions)`
  pub register_module : String → GoMap HostFunction → L → L
  -- `RawGetString` of a key in the table of a module
  pub raw_get_string : String → String → L → LValue pan
  -- `CallByParam` with `Protect`: the function, the number of results, the arguments
  pub call_by_param : LValue pan → ℕ → List (LValue pan) → L → Err × L
  -- `ToTable(-1)`: the table on top of the stack, nil if there is none
  pub to_table : L → Option ℕ
  pub pop : ℕ → L → L
  -- how many values are on the stack
  pub depth : L → ℕ

-- a function of a new module's table
abbrev pub function_of : {pan : Pan} → Option HostFunction → LValue pan
function_of none = nil
function_of (some f) = host f

-- the documented behaviour
pub record IsDocumented {pan : Pan} {L : Type 0} (lua : Interpreter pan L) : Type 0 where
  -- a call that succeeds leaves its results on the stack, and one that fails leaves nothing
  pub call_pushes :
      (f : LValue pan) (n : ℕ) (args : List (LValue pan)) (s : L)
      → (lua.call_by_param f n args s).0 ≡ none
      → lua.depth (lua.call_by_param f n args s).1 ≡ lua.depth s + n
  pub failed_call_balanced :
      (f : LValue pan) (n : ℕ) (args : List (LValue pan)) (s : L)
      → (lua.call_by_param f n args s).0 ≢ none
      → lua.depth (lua.call_by_param f n args s).1 ≡ lua.depth s
  pub pop_takes : (n : ℕ) (s : L) → n ≤ lua.depth s → lua.depth (lua.pop n s) ≡ lua.depth s - n
  -- nil cannot be called
  pub nil_call_fails :
      (n : ℕ) (args : List (LValue pan)) (s : L) → (lua.call_by_param nil n args s).0 ≢ none
  -- a module that was not there before has the functions that it was registered with, and no other
  pub registered :
      (name : String) (functions : GoMap HostFunction) (key : String) (s : L)
      → ((k : String) → lua.raw_get_string name k s ≡ nil)
      → lua.raw_get_string name key (lua.register_module name functions s)
        ≡ function_of (lookup key functions)
