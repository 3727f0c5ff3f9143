-- ===== src/Cmd/Daemon/Unscripted.antt =====
-- The interpreter of a daemon that has no script: its modules hold host functions only, and stay as
-- they are.
use panapi.Prelude.{
  ℕ, String, Option, none, some, List, [], ◌∷◌, ◌≡◌, refl, ◌∙◌, sym, subst, ◌⊎◌, inl, inr,
}
use panapi.Prelude.GoMap.{GoMap, lookup}
use panapi.Golang.{Run, returns, panics, ◌>>=◌, >>=-eq-returns}
use panapi.Pan.{Pan}
use panapi.Rpc.ConnectionTracer.{Quic, TracerCall}
use panapi.Lua.Values.{LValue, HostFunction, nil, host, number}
use panapi.Lua.Interpreter.{Interpreter, IsDocumented, function_of}
use panapi.Lua.PathTables.{new_state}
use panapi.Lua.Selector.{periodic}
use panapi.Lua.Stats.{stats}

-- nil, or a function that the program has registered
abbrev pub IsHost : {pan : Pan} → LValue pan → Type 0
IsHost nil = Unit
IsHost (host _) = Unit
IsHost _ = ⊥

-- The documented behaviour of a call: nil cannot be called, and the program's own functions do not
-- touch the modules.
abbrev pub HostCallsKeep : {pan : Pan} {L : Type 0} → Interpreter pan L → Type 0
HostCallsKeep {pan} {L} lua =
    (f : LValue pan) (n : ℕ) (args : List (LValue pan)) (s : L) (name key : String)
    → IsHost f
    → lua.raw_get_string name key (lua.call_by_param f n args s).1 ≡ lua.raw_get_string name key s

-- what such a daemon does with the interpreter: it hands an event to the statistics, or runs
-- `Periodic`
pub data Work (pan : Pan) (quic : Quic pan) : Type 0 where
  trace : TracerCall pan quic → Work pan quic
  tick : ℕ → Work pan quic

function_of-IsHost : (pan : Pan) (f : Option HostFunction) → IsHost (function_of {pan = pan} f)
function_of-IsHost pan none = tt
function_of-IsHost pan (some f) = tt

module _ (pan : Pan) (quic : Quic pan) {L : Type 0} (api : Interpreter pan L) where
  unfoldable pub work : Work pan quic → L → Run L
  unfolding periodic
  work (trace q) l = stats pan quic api q l >>= λ r. returns r.1
  work (tick seconds) l =
      returns (periodic pan api seconds (record { lua = l; tables = new_state pan })).lua

  unfoldable pub work_all : List (Work pan quic) → L → Run L
  work_all [] l = returns l
  work_all (x ∷ xs) l = work x l >>= work_all xs

  -- the modules of two states are the same
  abbrev pub SameModules : L → L → Type 0
  SameModules l l' =
      (name key : String) → api.raw_get_string name key l ≡ api.raw_get_string name key l'

  -- the two modules of the program hold host functions only
  pub record IsUnscripted (l : L) : Type 0 where
    pub in_stats : (key : String) → IsHost (api.raw_get_string "stats" key l)
    pub in_panapi : (key : String) → IsHost (api.raw_get_string "panapi" key l)

  -- an event is a call of one function of the module, but for the one that panics
  reaches :
      (q : TracerCall pan quic) (l : L)
      → (stats pan quic api q l ≡ panics)
        ⊎ ((fn : String) × ((args : List (LValue pan)) × (stats pan quic api q l
                ≡ returns (api.call_by_param (api.raw_get_string "stats" fn l) 0 args l))))
  unfolding stats
  reaches (TracerCall.closed_connection local remote none) l = inl refl
  reaches (TracerCall.closed_connection local remote (some e)) l = inr (_, (_, refl))
  reaches _ l = inr (_, (_, refl))

  work-keeps :
      (keep : HostCallsKeep api) (x : Work pan quic) (l l' : L)
      → IsUnscripted l
      → work x l ≡ returns l'
      → SameModules l' l
  unfolding work
  work-keeps keep (tick seconds) l l' plain runs name key =
      subst (λ m. api.raw_get_string name key m ≡ api.raw_get_string name key l) (cc runs)
        (keep (api.raw_get_string "panapi" "Periodic" l) 0 (number pan seconds ∷ []) l name key
          (plain.in_panapi "Periodic"))
  work-keeps keep (trace q) l l' plain runs name key = elim (reaches q l) [
    | inl panicked ↦ absurd (cc (panicked, runs))
    | inr (fn, (args, called)) ↦
        subst (λ m. api.raw_get_string name key m ≡ api.raw_get_string name key l)
          (cc (called, runs))
          (keep (api.raw_get_string "stats" fn l) 0 args l name key (plain.in_stats fn))
  ]

  same-IsUnscripted : (l l' : L) → SameModules l' l → IsUnscripted l → IsUnscripted l'
  same-IsUnscripted l l' same plain = record {
    in_stats = λ key. subst IsHost (sym (same "stats" key)) (plain.in_stats key);
    in_panapi = λ key. subst IsHost (sym (same "panapi" key)) (plain.in_panapi key);
  }

  -- modules that were registered in a new interpreter
  pub registered-IsHost :
      (doc : IsDocumented api) (name : String) (functions : GoMap HostFunction) (s : L)
      → ((key : String) → api.raw_get_string name key s ≡ nil)
      → (key : String) → IsHost (api.raw_get_string name key (api.register_module name functions s))
  registered-IsHost doc name functions s new key =
      subst IsHost (sym (doc.registered name functions key s new))
        (function_of-IsHost pan (lookup key functions))

  pub work_all-keeps :
      (keep : HostCallsKeep api) (xs : List (Work pan quic)) (l l' : L)
      → IsUnscripted l
      → work_all xs l ≡ returns l'
      → SameModules l' l
  unfolding work_all
  work_all-keeps keep [] l l' plain runs name key =
      subst (λ m. api.raw_get_string name key m ≡ api.raw_get_string name key l) (cc runs) refl
  work_all-keeps keep (x ∷ xs) l l' plain runs name key =
      let (m, first, rest) = >>=-eq-returns (work x l) (work_all xs) runs in
      let same = work-keeps keep x l m plain first in
      work_all-keeps keep xs m l' (same-IsUnscripted l m same plain) rest name key ∙ same name key
