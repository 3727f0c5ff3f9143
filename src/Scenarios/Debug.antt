-- ===== src/Scenarios/Debug.antt =====
-- A run through the debug selector.
use panapi.Prelude.{List, [], ◌∷◌, ◌≡◌}
use panapi.Debug.{DebugSelector}
use panapi.Debug.Transparent.{SelectorCall, run_debugged, run_plain, transparent}
use panapi.Pan.{PanPath}
use panapi.Scenarios.Setting.{toy, north, south, first_path}

abbrev wrapped : DebugSelector (List (PanPath toy))
wrapped = record { delay = 1; s = []; lines = [] }

abbrev calls : List (SelectorCall toy)
calls =
    SelectorCall.initialize "a" "x" (north ∷ south ∷ [])
    ∷ SelectorCall.path
    ∷ SelectorCall.close
    ∷ []

transparent_example :
    (run_debugged toy first_path calls wrapped).0 ≡ (run_plain toy first_path calls []).0
transparent_example = (transparent toy first_path calls wrapped).0
