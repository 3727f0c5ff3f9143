-- ===== src/Debug/Transparent.antt =====
-- The debug selector against the selector that it wraps.
use panapi.Prelude.{◌+◌, String, none, List, [], ◌∷◌, ◌++◌, ◌≡◌, refl, length, arith}
use panapi.Pan.{Pan, PathInterface, PanPath}
use panapi.Rpc.Interfaces.{Selector, Reply, error, answer}
use panapi.Debug
use panapi.Debug.{DebugSelector}

-- a call of a `pan.Selector`
pub data SelectorCall (pan : Pan) : Type 0 where
  initialize : pan.UdpAddr → pan.UdpAddr → List (PanPath pan) → SelectorCall pan
  path : SelectorCall pan
  path_down : String → PathInterface pan → SelectorCall pan
  refresh : List (PanPath pan) → SelectorCall pan
  close : SelectorCall pan

module _ (pan : Pan) {S : Type 0} (sel : Selector pan S) where
  abbrev plain : SelectorCall pan → S → Reply pan × S
  plain (SelectorCall.initialize l r ps) s = (error none, sel.initialize l r ps s)
  plain SelectorCall.path s = let (p, s') = sel.path s in (answer p none, s')
  plain (SelectorCall.path_down fp pi) s = (error none, sel.path_down fp pi s)
  plain (SelectorCall.refresh ps) s = (error none, sel.refresh ps s)
  plain SelectorCall.close s = let (e, s') = sel.close s in (error e, s')

  unfoldable pub debugged : SelectorCall pan → DebugSelector S → Reply pan × DebugSelector S
  unfolding Debug.initialize Debug.path Debug.path_down Debug.refresh Debug.close
  debugged (SelectorCall.initialize l r ps) d = (error none, Debug.initialize pan sel l r ps d)
  debugged SelectorCall.path d = let (p, d') = Debug.path pan sel d in (answer p none, d')
  debugged (SelectorCall.path_down fp pi) d = (error none, Debug.path_down pan sel fp pi d)
  debugged (SelectorCall.refresh ps) d = (error none, Debug.refresh pan sel ps d)
  debugged SelectorCall.close d = let (e, d') = Debug.close pan sel d in (error e, d')

  pub run_plain : List (SelectorCall pan) → S → List (Reply pan) × S
  run_plain [] s = ([], s)
  run_plain (c ∷ cs) s =
      let (a, s') = plain c s in let (rest, s'') = run_plain cs s' in (a ∷ rest, s'')

  pub run_debugged : List (SelectorCall pan) → DebugSelector S → List (Reply pan) × DebugSelector S
  run_debugged [] d = ([], d)
  run_debugged (c ∷ cs) d =
      let (a, d') = debugged c d in let (rest, d'') = run_debugged cs d' in (a ∷ rest, d'')

  reply-debugged : (c : SelectorCall pan) (d : DebugSelector S) → (debugged c d).0 ≡ (plain c d.s).0
  unfolding debugged
  reply-debugged (SelectorCall.initialize l r ps) d = refl
  reply-debugged _ d = refl

  state-debugged :
      (c : SelectorCall pan) (d : DebugSelector S) → (debugged c d).1.s ≡ (plain c d.s).1
  unfolding debugged
  state-debugged (SelectorCall.initialize l r ps) d = refl
  state-debugged _ d = refl

  length-append : (xs ys : List String) → length (xs ++ ys) ≡ length xs + length ys
  length-append [] ys = omega arith
  length-append (x ∷ xs) ys = omega (arith, length-append xs ys)

  two_more :
      (d : DebugSelector S) (enter return : String)
      → length ((d.lines ++ (enter ∷ [])) ++ (return ∷ [])) ≡ length d.lines + 2
  two_more d enter return = omega (
    arith,
    length-append (d.lines ++ (enter ∷ [])) (return ∷ []),
    length-append d.lines (enter ∷ []),
  )

  lines-debugged :
      (c : SelectorCall pan) (d : DebugSelector S)
      → length (debugged c d).1.lines ≡ length d.lines + 2
  unfolding debugged
  lines-debugged (SelectorCall.initialize l r ps) d =
      omega (arith, two_more d "Enter Initialize" "Return Initialize")
  lines-debugged SelectorCall.path d = omega (arith, two_more d "Enter Path" "Return Path")
  lines-debugged (SelectorCall.path_down fp pi) d =
      omega (arith, two_more d "Enter PathDown" "Return PathDown")
  lines-debugged (SelectorCall.refresh ps) d =
      omega (arith, two_more d "Enter Refresh" "Return Refresh")
  lines-debugged SelectorCall.close d = omega (arith, two_more d "Enter Close" "Return Close")

  -- Any run of calls through a debug selector gives the replies of the selector that it wraps,
  -- leaves that selector in the state of the same run without it, and writes two lines for each call.
  pub transparent :
      (cs : List (SelectorCall pan)) (d : DebugSelector S)
      → ((run_debugged cs d).0 ≡ (run_plain cs d.s).0)
        × ((run_debugged cs d).1.s ≡ (run_plain cs d.s).1)
        × (length (run_debugged cs d).1.lines ≡ length d.lines + (length cs + length cs))
  unfolding run_plain run_debugged
  transparent [] d = (refl, refl, omega arith)
  transparent (c ∷ cs) d =
      let (replies, ends, written) = transparent cs (debugged c d).1 in
      (
        cc (replies, reply-debugged c d, state-debugged c d),
        cc (ends, state-debugged c d),
        omega (arith, written, lines-debugged c d),
      )
