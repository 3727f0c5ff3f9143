-- ===== src/Scenarios/Lua.antt =====
-- Runs of the selector in a script.
use panapi.Prelude.{none, some, [], ◌∷◌, map, ◌≡◌}
use panapi.Prelude.GoMap.{GoMap}
use panapi.Lua.Values.{HostFunction, ignore}
use panapi.Lua.PathTables.{new_state}
use panapi.Lua.PathTables.Invariant.{new_state-IsOwned}
use panapi.Lua.PathTables.Translation.{fresh_ids}
use panapi.Lua.Selector.{LuaSelector, path}
use panapi.Lua.Selector.Renewed.{handed}
use panapi.Lua.Selector.Translates.{resolve, initialize_translates, same_remote_forgets}
use panapi.Lua.Selector.Balance.{stack_balanced, renewal_balanced}
use panapi.Scenarios.Setting.{
  toy, north, south, interface, strict, Machine, machine, machine-IsDocumented, scripted,
}

abbrev provided : GoMap HostFunction
provided = ("Initialize", ignore) ∷ ("Path", ignore) ∷ ("Close", ignore) ∷ []

abbrev started : LuaSelector toy Machine
started = record { lua = scripted "panapi" provided; tables = new_state toy }

initialize_translates_example :
    map
      (resolve machine
        (initialize_translates machine none "a" "x"
          (north ∷ south ∷ [])
          started
          (new_state-IsOwned)).0)
      (handed machine (north ∷ south ∷ []) started)
    ≡ some north ∷ some south ∷ []
initialize_translates_example =
    (initialize_translates machine none "a" "x" (north ∷ south ∷ []) started new_state-IsOwned).2

same_remote_forgets_example :
    map
      (resolve machine
        (same_remote_forgets machine none none "a" "b" "x"
          (north ∷ [])
          (south ∷ [])
          started
          new_state-IsOwned
          (tt, tt)).3.tables)
      (handed machine (north ∷ []) started)
    ≡ none ∷ []
unfolding fresh_ids
same_remote_forgets_example =
    (same_remote_forgets machine none none "a" "b" "x" (north ∷ []) (south ∷ []) started
      new_state-IsOwned (tt, tt)).6

stack_balanced_example :
    machine.depth (path toy machine "a" "x" started).1.lua ≡ machine.depth started.lua
stack_balanced_example =
    (stack_balanced machine machine-IsDocumented "a" "x" started (some strict) "north" interface
      5).1

renewal_balanced_example :
    machine.depth
      (renewal_balanced machine machine-IsDocumented "a" "x" started
        (some strict)
        (north ∷ south ∷ [])).1.1.lua
    ≡ 0
renewal_balanced_example =
    (renewal_balanced machine machine-IsDocumented "a" "x" started (some strict)
      (north ∷ south ∷ [])).1.3
