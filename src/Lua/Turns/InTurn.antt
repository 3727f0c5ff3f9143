-- ===== src/Lua/Turns/InTurn.antt =====
-- Goroutines that work on one interpreter, in any interleaving.
use panapi.Prelude.{ℕ, List, [], ◌∷◌, ◌++◌, ◌≡◌, ◌↔◌, ◌∙◌, sym, subst}
use panapi.Golang.{returns}
use panapi.Golang.Mutex.{System, finished, run, begin}
use panapi.Golang.Mutex.Order.{Serial, none_yet, then_one, Logged, Once}
use panapi.Golang.Mutex.Progress.{Settled, can_finish}
use panapi.Golang.Mutex.Serial.{Ahead, serialised}
use panapi.Pan.{Pan}
use panapi.Lua.Interpreter.{Interpreter}
use panapi.Lua.Selector.{LuaSelector}
use panapi.Lua.Selector.Spared.{Work}
use panapi.Lua.Turns.{Variables, unset, accesses}
use panapi.Lua.Turns.Bodies.{Does, accesses-Does}

module _ (pan : Pan) {L : Type 0} (api : Interpreter pan L) (works : ℕ → Work pan L)
    (d : LuaSelector pan L) where
  -- The pieces of work of the log were done one after the other, the last one first in the log.
  pub data InTurn : List (ℕ × Variables pan) → LuaSelector pan L → Type 0 where
    nothing : InTurn [] d
    after :
        {log : List (ℕ × Variables pan)} {s s' : LuaSelector pan L} (i : ℕ) (x : Variables pan)
        → InTurn log s
        → Does pan api (works i) s x s'
        → InTurn ((i, x) ∷ log) s'

  Serial-InTurn :
      (log : List (ℕ × Variables pan)) (s : LuaSelector pan L)
      → Serial (unset pan) (λ i. accesses pan api (works i)) d log s
      → InTurn log s
  Serial-InTurn _ _ none_yet = nothing
  Serial-InTurn _ s' (then_one {s = s} i x before ran) =
      let (r, runs, does) = accesses-Does pan api (works i) s in
      let same : r ≡ (x, s') = (cc (sym runs ∙ ran)) in
      after i x (Serial-InTurn _ s before) (subst (λ r. Does pan api (works i) s r.0 r.1) same does)

  -- Any number of goroutines serve calls of the selector, run `Periodic`, or change the interpreter
  -- as an event does from which the statistics return, and lock the mutex for it. However their
  -- accesses to the interpreter and the tables are interleaved, none panics, and those that have
  -- finished have done their work, with their results, one after the other in some order, each of
  -- them once. The shared state is where they left it, but for what the goroutine that holds the
  -- mutex has done since, whose remaining accesses bring it to where the whole of its work brings it.
  pub done_in_turn :
      (schedule : List ℕ)
      → (sys : System (Variables pan) (LuaSelector pan L)) × (log : List (ℕ × Variables pan))
        × (s : LuaSelector pan L) × (run
              (unset pan)
              schedule
              (begin (λ i. accesses pan api (works i)) d)
            ≡ returns sys)
        × InTurn log s
        × Ahead (unset pan) (λ i. accesses pan api (works i)) d sys.holder sys s
        × Once (unset pan) (λ i. accesses pan api (works i)) d log
        × ((i : ℕ) (x : Variables pan)
            → (sys.goroutines i ≡ finished x)
              ↔ Logged (unset pan) (λ i. accesses pan api (works i)) d i x log)
  done_in_turn schedule =
      let (sys, log, s, runs, serial, ahead, once, iff) =
        serialised (unset pan) (λ i. accesses pan api (works i)) d schedule
          (λ k s. let (r, runs, _) = accesses-Does pan api (works k) s in (r, runs)) in
      (sys, log, s, runs, Serial-InTurn log s serial, ahead, once, iff)

  -- A call can always still finish: wherever a schedule has led, there is one that goes on from
  -- there, without a panic, to where a given goroutine has finished and the mutex is free.
  pub turn_comes :
      (schedule : List ℕ) (i : ℕ)
      → (rest : List ℕ) × (sys : System (Variables pan) (LuaSelector pan L)) × (run
            (unset pan)
            (schedule ++ rest)
            (begin (λ i. accesses pan api (works i)) d)
          ≡ returns sys)
        × Settled i sys
  turn_comes schedule i =
      can_finish (unset pan) (λ i. accesses pan api (works i)) d
        (λ k s. let (r, runs, _) = accesses-Does pan api (works k) s in (r, runs)) schedule i
