-- ===== src/Scenarios/Turns.antt =====
-- Goroutines that contend for an interpreter.
use panapi.Prelude.{ℕ, zero, suc, none, List, [], ◌∷◌, ◌≡◌}
use panapi.Golang.{returns}
use panapi.Golang.Mutex.{run, begin}
use panapi.Rpc.Interfaces.{Request}
use panapi.Lua.PathTables.{new_state}
use panapi.Lua.Selector.{LuaSelector}
use panapi.Lua.Selector.Spared.{Work, call, tick}
use panapi.Lua.Turns.{unset, accesses}
use panapi.Lua.Turns.InTurn.{done_in_turn}
use panapi.Scenarios.Setting.{toy, north, south, Machine, machine, idle}

abbrev fresh_daemon : LuaSelector toy Machine
fresh_daemon = record { lua = idle; tables = new_state toy }

-- goroutine 0 serves an `Initialize`, 1 a `Path`, and the others run `Periodic`
abbrev works : ℕ → Work toy Machine
works zero = call (Request.initialize none "a" "x" (north ∷ south ∷ []))
works (suc zero) = call (Request.path "a" "x")
works _ = tick 1

-- 1 and 2 wait while 0 is at it
abbrev contended : List ℕ
contended = 0 ∷ 1 ∷ 0 ∷ 2 ∷ 0 ∷ 1 ∷ 0 ∷ []

done_in_turn_example :
    run (unset toy) contended (begin (λ i. accesses toy machine (works i)) fresh_daemon)
    ≡ returns (done_in_turn toy machine works fresh_daemon contended).0
done_in_turn_example = (done_in_turn toy machine works fresh_daemon contended).3
