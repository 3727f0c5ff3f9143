-- ===== src/Lua/Script.antt =====
-- `LoadScript` of lua/lua.go. The files and the loading and running of a script are parameters, on
-- the interpreter's state `L` and the rest of the world `W`.
use panapi.Prelude.{String, none, some}
use panapi.Golang.{Err}

pub record Loader (L W : Type 0) : Type 0 where
  -- `os.Open`
  pub open_file : String → W → Err × W
  -- `Load` of the file that was opened, whose function goes onto the stack
  pub load : String → W → L → Err × L
  -- `PCall` of that function, which runs the script
  pub p_call : L → Err × L

module _ {L W : Type 0} (loader : Loader L W) (fname : String) where
  -- what follows the opening of the file
  abbrev pub opened : L → Err × W → Err × (L × W)
  opened l (some e, w) = (some e, (l, w))
  opened l (none, w) =
      let (err, l1) = loader.load fname w l in
      elim err [
        | some e ↦ (some e, (l1, w))
        | none ↦ (let (err', l2) = loader.p_call l1 in (err', (l2, w)))
      ]

  unfoldable pub load_script : L → W → Err × (L × W)
  load_script l w = opened l (loader.open_file fname w)
