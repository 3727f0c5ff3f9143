-- ===== src/Debug.antt =====
-- debug/selector.go: a selector that writes a line before and after each call of another one. The
-- delay only sleeps. The prefix that `NewDebugSelector` sets is not part of the lines here.
pub mod Transparent
use panapi.Prelude.{ℕ, String, Option, none, some, List, [], ◌∷◌, ◌++◌}
use panapi.Golang.{Err}
use panapi.Pan.{Pan, PathInterface, PanPath}
use panapi.Rpc.Interfaces.{Selector}

pub record DebugSelector (S : Type 0) : Type 0 where
  pub delay : ℕ
  pub s : S
  pub lines : List String  -- what was written to the log

-- `default` is the selector that `pan.NewDefaultSelector` gives
unfoldable pub new_debug_selector : {S : Type 0} → S → ℕ → Option S → DebugSelector S
new_debug_selector default delay none = record { delay = delay; s = default; lines = [] }
new_debug_selector default delay (some selector) = record {
  delay = delay;
  s = selector;
  lines = [];
}

-- `log.Println`
abbrev pub println : {S : Type 0} → String → DebugSelector S → DebugSelector S
println line d = record d { lines = d.lines ++ (line ∷ []) }

module _ (pan : Pan) {S : Type 0} (sel : Selector pan S) where
  unfoldable pub initialize :
      pan.UdpAddr → pan.UdpAddr → List (PanPath pan) → DebugSelector S → DebugSelector S
  initialize local remote paths d =
      let entered = println "Enter Initialize" d in
      println "Return Initialize"
        (record entered { s = sel.initialize local remote paths entered.s })

  unfoldable pub path : DebugSelector S → Option (PanPath pan) × DebugSelector S
  path d =
      let entered = println "Enter Path" d in
      let (res, s) = sel.path entered.s in (res, println "Return Path" (record entered { s = s }))

  unfoldable pub path_down : String → PathInterface pan → DebugSelector S → DebugSelector S
  path_down fp pi d =
      let entered = println "Enter PathDown" d in
      println "Return PathDown" (record entered { s = sel.path_down fp pi entered.s })

  unfoldable pub refresh : List (PanPath pan) → DebugSelector S → DebugSelector S
  refresh paths d =
      let entered = println "Enter Refresh" d in
      println "Return Refresh" (record entered { s = sel.refresh paths entered.s })

  unfoldable pub close : DebugSelector S → Err × DebugSelector S
  close d =
      let entered = println "Enter Close" d in
      let (err, s) = sel.close entered.s in (err, println "Return Close" (record entered { s = s }))
