-- ===== src/Scenarios/Pointers.antt =====
-- Calls on the daemon's map of pointers to selectors.
use panapi.Prelude.{none, some, List, [], ◌∷◌, ◌≡◌, refl}
use panapi.Prelude.GoMap.{lookup}
use panapi.Pan.{PanPath}
use panapi.Rpc.Interfaces.{Request, answer, error}
use panapi.Rpc.ServerSelector.{addr_key}
use panapi.Rpc.ServerSelector.Isolation.{serve}
use panapi.Rpc.ServerSelector.Pointers.{Store, begun, ended, look, race}
use panapi.Rpc.ServerSelector.Pointers.Alone.{alone, Represents}
use panapi.Rpc.ServerSelector.Pointers.Race.{in_step, race_loses_call}
use panapi.Scenarios.Setting.{toy, north, first_path, fresh}

abbrev empty_store : Store (List (PanPath toy))
empty_store = record { heap = λ p. []; next = 0; selectors = [] }

empty_store-Represents : Represents toy first_path fresh empty_store []
unfolding lookup
empty_store-Represents =
    (record { below = λ k p at. cc at; apart = λ k k' p at at'. cc at }, λ k. refl)

abbrev tells : Request toy
tells = Request.initialize none "a" "x" (north ∷ [])

alone_example :
    look (alone toy first_path fresh tells empty_store [] empty_store-Represents).0 "ax"
    ≡ lookup "ax" (serve toy first_path fresh tells []).1
alone_example = (alone toy first_path fresh tells empty_store [] empty_store-Represents).2.1 "ax"

-- the paths of an `Initialize` are lost on a `Path` that races with it
race_loses_call_example :
    (st : Store (List (PanPath toy))) × (race toy first_path fresh in_step tells
        (Request.path "a" "x")
        (begun, begun)
        empty_store
      ≡ ((ended (error none), ended (answer none none)), st))
    × (look st (addr_key toy "a" "x") ≡ some [])
unfolding lookup addr_key
race_loses_call_example =
    race_loses_call toy first_path fresh tells (Request.path "a" "x") empty_store refl refl tt tt
