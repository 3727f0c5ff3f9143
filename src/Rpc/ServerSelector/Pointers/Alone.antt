-- ===== src/Rpc/ServerSelector/Pointers/Alone.antt =====
-- A call that no other disturbs does to the selectors behind the pointers what it does to a map of
-- selectors.
use panapi.Prelude.{
  ℕ, zero, suc, ◌+◌, String, Option, none, some, ◌≡◌, refl, ap, ◌∙◌, inl, inr, arith, Option-cases,
  str_eq, eq_iff, if◌then◌else◌, update,
}
use panapi.Prelude.GoMap.{GoMap, lookup, insert, delete, lookup-insert}
use panapi.Pan.{Pan}
use panapi.Rpc.Interfaces.{Selector, Request, Reply}
use panapi.Rpc.ServerSelector.Isolation.{key_of, connection_step, serve, reply-serve, lookup-serve}
use panapi.Rpc.ServerSelector.Pointers.{
  Store, begun, missing, holds, ended, made_for, on_selector, turn, solo, look, IsSound,
}
use panapi.Rpc.ServerSelector.Pointers.Cells.{
  look-write, look-store, look-delete, store-IsSound, delete-IsSound,
}

module _ (pan : Pan) {S : Type 0} (sel : Selector pan S) (fn : pan.UdpAddr → pan.UdpAddr → S) where
  -- the selector that stays in the map after a call
  abbrev kept : Request pan → S → Option S
  kept (Request.close l r) s = none
  kept _ s = some s

  -- the store after the call of a method
  abbrev last : Request pan → ℕ → Store S → Store S
  last (Request.close l r) p st = record st {
    heap = update st.heap p (on_selector pan sel fn (Request.close l r) (st.heap p)).1;
    selectors = delete (key_of pan (Request.close l r)) st.selectors;
  }
  last q p st = record st { heap = update st.heap p (on_selector pan sel fn q (st.heap p)).1 }

  idle :
      (n : ℕ) (q : Request pan) (reply : Reply pan) (st : Store S)
      → solo pan sel fn n q (ended reply) st ≡ (ended reply, st)
  unfolding solo turn
  idle zero q reply st = refl
  idle (suc n) q reply st = idle n q reply st

  finish :
      (n : ℕ) (q : Request pan) (p : ℕ) (st : Store S)
      → solo pan sel fn (suc (suc n)) q (holds p) st
        ≡ (ended (on_selector pan sel fn q (st.heap p)).0, last q p st)
  unfolding solo turn
  finish n (Request.initialize prefs l r ps) p st = idle n _ _ _
  finish n (Request.set_preferences prefs l r) p st = idle n _ _ _
  finish n (Request.path l r) p st = idle n _ _ _
  finish n (Request.path_down l r fp pi) p st = idle n _ _ _
  finish n (Request.refresh l r ps) p st = idle n _ _ _
  finish n (Request.close l r) p st = idle n _ _ _

  written :
      (p : ℕ) (s : S) (st : Store S)
      → IsSound st
      → IsSound (record st { heap = update st.heap p s })
  written p s st h = record { below = h.below; apart = h.apart }

  last-IsSound : (q : Request pan) (p : ℕ) (st : Store S) → IsSound st → IsSound (last q p st)
  last-IsSound (Request.close l r) p st h =
      delete-IsSound
        (record st {
          heap = update st.heap p (on_selector pan sel fn (Request.close l r) (st.heap p)).1;
        })
        (written p _ st h) (key_of pan (Request.close l r))
  last-IsSound (Request.initialize prefs l r ps) p st h = written p _ st h
  last-IsSound (Request.set_preferences prefs l r) p st h = written p _ st h
  last-IsSound (Request.path l r) p st h = written p _ st h
  last-IsSound (Request.path_down l r fp pi) p st h = written p _ st h
  last-IsSound (Request.refresh l r ps) p st h = written p _ st h

  look-last :
      (q : Request pan) (p : ℕ) (st : Store S) (j : String)
      → IsSound st
      → lookup (key_of pan q) st.selectors ≡ some p
      → look (last q p st) j ≡ (
          if str_eq (key_of pan q) j
          then kept q (on_selector pan sel fn q (st.heap p)).1
          else look st j)
  look-last (Request.close l r) p st j h at =
      let q : Request pan = Request.close l r in
      let s = (on_selector pan sel fn q (st.heap p)).1 in
      ground (
        arith,
        look-write st h (key_of pan q) p s j at,
        look-delete (record st { heap = update st.heap p s }) (written p s st h) (key_of pan q) j,
      )
  look-last (Request.initialize prefs l r ps) p st j h at = look-write st h _ p _ j at
  look-last (Request.set_preferences prefs l r) p st j h at = look-write st h _ p _ j at
  look-last (Request.path l r) p st j h at = look-write st h _ p _ j at
  look-last (Request.path_down l r fp pi) p st j h at = look-write st h _ p _ j at
  look-last (Request.refresh l r ps) p st j h at = look-write st h _ p _ j at

  -- the selector of the call's connection: its own, or a new one
  abbrev selector_of : Request pan → Option S → S
  selector_of q none = made_for pan sel fn q
  selector_of q (some s) = s

  connection_step-on_selector :
      (q : Request pan) (o : Option S)
      → connection_step pan sel fn q o ≡ (
        (on_selector pan sel fn q (selector_of q o)).0,
        kept q (on_selector pan sel fn q (selector_of q o)).1,
      )
  connection_step-on_selector (Request.initialize prefs l r ps) none = refl
  connection_step-on_selector (Request.initialize prefs l r ps) (some s) = refl
  connection_step-on_selector (Request.set_preferences prefs l r) none = refl
  connection_step-on_selector (Request.set_preferences prefs l r) (some s) = refl
  connection_step-on_selector (Request.path l r) none = refl
  connection_step-on_selector (Request.path l r) (some s) = refl
  connection_step-on_selector (Request.path_down l r fp pi) none = refl
  connection_step-on_selector (Request.path_down l r fp pi) (some s) = refl
  connection_step-on_selector (Request.refresh l r ps) none = refl
  connection_step-on_selector (Request.refresh l r ps) (some s) = refl
  connection_step-on_selector (Request.close l r) none = refl
  connection_step-on_selector (Request.close l r) (some s) = refl

  -- the store stands for the map
  abbrev pub Represents : Store S → GoMap S → Type 0
  Represents st m = IsSound st × ((k : String) → look st k ≡ lookup k m)

  -- from where `getSelector` has returned
  held_served :
      (q : Request pan) (p : ℕ) (st : Store S) (m : GoMap S)
      → IsSound st
      → lookup (key_of pan q) st.selectors ≡ some p
      → st.heap p ≡ selector_of q (lookup (key_of pan q) m)
      → ((j : String)
          → look st j ≡ (if str_eq (key_of pan q) j then some (st.heap p) else lookup j m))
      → (ended (on_selector pan sel fn q (st.heap p)).0 ≡ ended (serve pan sel fn q m).0)
        × Represents (last q p st) (serve pan sel fn q m).1
  held_served q p st m h at cell looks =
      let same = connection_step-on_selector q (lookup (key_of pan q) m) in
      (
        rw cell (cc (reply-serve pan sel fn q m, same)),
        (
          last-IsSound q p st h,
          λ j.
              ground (
                arith,
                look-last q p st j h at,
                lookup-serve pan sel fn q m j,
                looks j,
                same,
                cell,
              ),
        ),
      )

  pub found :
      (q : Request pan) (p : ℕ) (st : Store S)
      → lookup (key_of pan q) st.selectors ≡ some p
      → turn pan sel fn q begun st ≡ (holds p, st)
  unfolding turn
  found q p st at = ground arith

  pub not_found :
      (q : Request pan) (st : Store S)
      → lookup (key_of pan q) st.selectors ≡ none
      → turn pan sel fn q begun st ≡ (missing, st)
  unfolding turn
  not_found q st absent = ground arith

  -- `getSelector` where the map has a selector, and where it has none
  got :
      (n : ℕ) (q : Request pan) (p : ℕ) (st : Store S)
      → lookup (key_of pan q) st.selectors ≡ some p
      → solo pan sel fn (suc n) q begun st ≡ solo pan sel fn n q (holds p) st
  unfolding solo
  got n q p st at = ap (λ r. solo pan sel fn n q r.0 r.1) (found q p st at)

  abbrev stored : Request pan → Store S → Store S
  stored q st = record st {
    heap = update st.heap st.next (made_for pan sel fn q);
    next = st.next + 1;
    selectors = insert (key_of pan q) st.next st.selectors;
  }

  got_new :
      (n : ℕ) (q : Request pan) (st : Store S)
      → lookup (key_of pan q) st.selectors ≡ none
      → solo pan sel fn (suc (suc (suc n))) q begun st
        ≡ solo pan sel fn n q (holds st.next) (stored q st)
  unfolding solo turn
  got_new n q st absent = ap (λ r. solo pan sel fn (suc (suc n)) q r.0 r.1) (not_found q st absent)

  stored-selector :
      (q : Request pan) (st : Store S) → (stored q st).heap st.next ≡ made_for pan sel fn q
  stored-selector q st = ground arith

  -- A call that no other disturbs ends after at most five turns: on a store that stands for a map of
  -- selectors, its reply is that of the call on the map, and the store then stands for the map after
  -- the call; no two keys ever share a selector.
  pub alone :
      (q : Request pan) (st : Store S) (m : GoMap S)
      → Represents st m
      → (st' : Store S) × (solo pan sel fn 5 q begun st ≡ (ended (serve pan sel fn q m).0, st'))
        × Represents st' (serve pan sel fn q m).1
  alone q st m (sound, looks) = elim (Option-cases (lookup (key_of pan q) st.selectors)) [
    | inl absent ↦
        let st1 = stored q st in
        let cell = stored-selector q st in
        let empty : lookup (key_of pan q) m ≡ none = ground (arith, looks (key_of pan q)) in
        let (reply, stands) =
          held_served q st.next st1 m (store-IsSound st sound (key_of pan q) _)
            (ground (
              arith,
              lookup-insert (key_of pan q) (key_of pan q) st.next st.selectors,
              eq_iff (key_of pan q) (key_of pan q),
            ))
            (rw empty cell)
            (λ j. look-store st sound (key_of pan q) _ j ∙ ground (arith, looks j, cell)) in
        (
          last q st.next st1,
          got_new 2 q st absent ∙ finish 0 q st.next st1 ∙ ap (λ r. (r, last q st.next st1)) reply,
          stands,
        )
    | inr (p, at) ↦
        let there : lookup (key_of pan q) m ≡ some (st.heap p) =
          ground (arith, looks (key_of pan q)) in
        let (reply, stands) =
          held_served q p st m sound at (rw there refl)
            (λ j. ground (arith, looks j, eq_iff (key_of pan q) j, at)) in
        (last q p st, got 4 q p st at ∙ finish 2 q p st ∙ ap (λ r. (r, last q p st)) reply, stands)
  ]
