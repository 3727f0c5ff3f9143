-- ===== src/Rpc/ServerSelector/Pointers.antt =====
-- `serverSelector` of rpc/selector.go with pointers: the map holds references to selectors, which
-- lie in numbered cells, and a goroutine that serves a call reads and writes the map without a lock,
-- one access at a time. net/rpc runs each call in a goroutine of its own.
pub mod Cells
pub mod Alone
pub mod Race
use panapi.Prelude.{
  ℕ, zero, suc, ◌+◌, ◌<◌, ◌≡◌, String, Option, none, some, List, [], ◌∷◌, Bool, true, false, update,
}
use panapi.Prelude.GoMap.{GoMap, lookup, insert, delete}
use panapi.Pan.{Pan}
use panapi.Rpc.Interfaces.{Selector, Request, Reply, error, answer}
use panapi.Rpc.ServerSelector.Isolation.{key_of}

pub record Store (S : Type 0) : Type 0 where
  pub heap : ℕ → S
  pub next : ℕ
  pub selectors : GoMap ℕ

-- where a goroutine stands: at the start, in `getSelector` after it has found no selector or has
-- made one, with a selector, in `Close` before the `delete`, and at the end
pub data Place (pan : Pan) : Type 0 where
  begun : Place pan
  missing : Place pan
  made : ℕ → Place pan
  holds : ℕ → Place pan
  closing : Reply pan → Place pan
  ended : Reply pan → Place pan

module _ (pan : Pan) {S : Type 0} (sel : Selector pan S) (fn : pan.UdpAddr → pan.UdpAddr → S) where
  -- `s.fn(local, remote)`
  abbrev pub made_for : Request pan → S
  made_for (Request.initialize _ l r _) = fn l r
  made_for (Request.set_preferences _ l r) = fn l r
  made_for (Request.path l r) = fn l r
  made_for (Request.path_down l r _ _) = fn l r
  made_for (Request.refresh l r _) = fn l r
  made_for (Request.close l r) = fn l r

  -- the call of the selector's method
  abbrev pub on_selector : Request pan → S → Reply pan × S
  on_selector (Request.initialize prefs l r ps) s = (error none, sel.initialize l r ps s)
  on_selector (Request.set_preferences prefs l r) s =
      let (e, s') = sel.set_preferences prefs s in (error e, s')
  on_selector (Request.path l r) s = let (p, s') = sel.path s in (answer p none, s')
  on_selector (Request.path_down l r fp pi) s = (error none, sel.path_down fp pi s)
  on_selector (Request.refresh l r ps) s = (error none, sel.refresh ps s)
  on_selector (Request.close l r) s = let (e, s') = sel.close s in (error e, s')

  abbrev pub after_call : Request pan → Reply pan → Place pan
  after_call (Request.close l r) reply = closing reply
  after_call _ reply = ended reply

  unfoldable pub turn : Request pan → Place pan → Store S → Place pan × Store S
  turn q begun st = elim (lookup (key_of pan q) st.selectors) [
    | none ↦ (missing, st)
    | some p ↦ (holds p, st)
  ]
  turn q missing st =
      (made st.next, record st { heap = update st.heap st.next (made_for q); next = st.next + 1 })
  turn q (made p) st = (holds p, record st { selectors = insert (key_of pan q) p st.selectors })
  turn q (holds p) st =
      let (reply, s) = on_selector q (st.heap p) in
      (after_call q reply, record st { heap = update st.heap p s })
  turn q (closing reply) st =
      (ended reply, record st { selectors = delete (key_of pan q) st.selectors })
  turn q (ended reply) st = (ended reply, st)

  -- so many turns in a row
  unfoldable pub solo : ℕ → Request pan → Place pan → Store S → Place pan × Store S
  unfolding turn
  solo zero q place st = (place, st)
  solo (suc n) q place st = let (place', st') = turn q place st in solo n q place' st'

  -- two goroutines on one store; `true` is a turn of the first
  unfoldable pub race :
      List Bool
      → Request pan
      → Request pan
      → (Place pan × Place pan)
      → Store S
      → (Place pan × Place pan) × Store S
  unfolding turn
  race [] q1 q2 places st = (places, st)
  race (true ∷ schedule) q1 q2 (place1, place2) st =
      let (place, st') = turn q1 place1 st in race schedule q1 q2 (place, place2) st'
  race (false ∷ schedule) q1 q2 (place1, place2) st =
      let (place, st') = turn q2 place2 st in race schedule q1 q2 (place1, place) st'

-- the selector that a key leads to
abbrev pub look : {S : Type 0} → Store S → String → Option S
look st k = elim (lookup k st.selectors) [ none ↦ none | some p ↦ some (st.heap p) ]

-- every reference is to a cell in use, and no two keys share one
pub record IsSound {S : Type 0} (st : Store S) : Type 0 where
  pub below : (k : String) (p : ℕ) → lookup k st.selectors ≡ some p → p < st.next
  pub apart :
      (k k' : String) (p : ℕ)
      → lookup k st.selectors ≡ some p
      → lookup k' st.selectors ≡ some p
      → k ≡ k'
