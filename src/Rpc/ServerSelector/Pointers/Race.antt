-- ===== src/Rpc/ServerSelector/Pointers/Race.antt =====
-- Two calls of one connection at once.
use panapi.Prelude.{
  ℕ, ◌+◌, String, none, some, List, [], ◌∷◌, ◌≡◌, refl, ap, ◌∙◌, sym, arith, eq_iff, update, Bool,
  true, false,
}
use panapi.Prelude.GoMap.{lookup, insert, lookup-insert}
use panapi.Pan.{Pan}
use panapi.Rpc.Interfaces.{Selector, Request, Reply}
use panapi.Rpc.ServerSelector.Isolation.{key_of}
use panapi.Rpc.ServerSelector.Pointers.{
  Store, begun, missing, ended, made_for, on_selector, after_call, turn, race, look,
}
use panapi.Rpc.ServerSelector.Pointers.Alone.{not_found}

-- a call that leaves its selector in the map
abbrev pub Stays : {pan : Pan} → Request pan → Type 0
Stays (Request.close _ _) = ⊥
Stays _ = Unit

-- the two take turns
abbrev pub in_step : List Bool
in_step = true ∷ false ∷ true ∷ false ∷ true ∷ false ∷ true ∷ false ∷ []

look-some :
    {S : Type 0} (st : Store S) (k : String) (p : ℕ)
    → lookup k st.selectors ≡ some p
    → look st k ≡ some (st.heap p)
look-some st k p at = rw (at, look) refl

module _ (pan : Pan) {S : Type 0} (sel : Selector pan S) (fn : pan.UdpAddr → pan.UdpAddr → S) where
  ends :
      (q : Request pan) (reply : Reply pan) → Stays q → after_call pan sel fn q reply ≡ ended reply
  ends (Request.initialize prefs l r ps) reply h = refl
  ends (Request.set_preferences prefs l r) reply h = refl
  ends (Request.path l r) reply h = refl
  ends (Request.path_down l r fp pi) reply h = refl
  ends (Request.refresh l r ps) reply h = refl
  ends (Request.close l r) reply h = elim h [ ]

  both_missing :
      (rest : List Bool) (q1 q2 : Request pan) (st : Store S)
      → lookup (key_of pan q1) st.selectors ≡ none
      → lookup (key_of pan q2) st.selectors ≡ none
      → race pan sel fn (true ∷ false ∷ rest) q1 q2 (begun, begun) st
        ≡ race pan sel fn rest q1 q2 (missing, missing) st
  unfolding race
  both_missing rest q1 q2 st none1 none2 =
      ap
        (λ r.
          let (place, st') = turn pan sel fn q2 begun r.1 in
          race pan sel fn rest q1 q2 (r.0, place) st')
        (not_found pan sel fn q1 st none1)
      ∙ ap (λ r. race pan sel fn rest q1 q2 (missing, r.0) r.1) (not_found pan sel fn q2 st none2)

  -- the cells once each has made a selector, and once the first one's call was made
  abbrev two_made : Request pan → Request pan → Store S → ℕ → S
  two_made q1 q2 st =
      update (update st.heap st.next (made_for pan sel fn q1)) (st.next + 1)
        (made_for pan sel fn q2)

  abbrev one_called : Request pan → Request pan → Store S → ℕ → S
  one_called q1 q2 st =
      update (two_made q1 q2 st) st.next (on_selector pan sel fn q1 (two_made q1 q2 st st.next)).1

  abbrev raced : Request pan → Request pan → Store S → Store S
  raced q1 q2 st = record {
    heap =
        update (one_called q1 q2 st) (st.next + 1)
          (on_selector pan sel fn q2 (one_called q1 q2 st (st.next + 1))).1;
    next = st.next + 1 + 1;
    selectors = insert (key_of pan q2) (st.next + 1) (insert (key_of pan q1) st.next st.selectors);
  }

  both_served :
      (q1 q2 : Request pan) (st : Store S)
      → race pan sel fn
          (true ∷ false ∷ true ∷ false ∷ true ∷ false ∷ [])
          q1
          q2
          (missing, missing)
          st
        ≡ (
          (
            after_call pan sel fn q1 (on_selector pan sel fn q1 (two_made q1 q2 st st.next)).0,
            after_call pan sel fn q2
                (on_selector pan sel fn q2 (one_called q1 q2 st (st.next + 1))).0,
          ),
          raced q1 q2 st,
        )
  unfolding race turn
  both_served q1 q2 st = refl

  first_cell :
      (q1 q2 : Request pan) (st : Store S) → two_made q1 q2 st st.next ≡ made_for pan sel fn q1
  first_cell q1 q2 st = ground arith

  second_cell :
      (q1 q2 : Request pan) (st : Store S)
      → one_called q1 q2 st (st.next + 1) ≡ made_for pan sel fn q2
  second_cell q1 q2 st = ground arith

  last_cell :
      (q1 q2 : Request pan) (st : Store S)
      → (raced q1 q2 st).heap (st.next + 1)
        ≡ (on_selector pan sel fn q2 (one_called q1 q2 st (st.next + 1))).1
  last_cell q1 q2 st = ground arith

  -- Two calls of one connection, neither of them a `Close`, that take turns where the connection has
  -- no selector yet: each makes a selector and works on its own, and the map leads to the second
  -- one's afterwards, as if the first call had never been.
  pub race_loses_call :
      (q1 q2 : Request pan) (st : Store S)
      → key_of pan q1 ≡ key_of pan q2
      → lookup (key_of pan q1) st.selectors ≡ none
      → Stays q1
      → Stays q2
      → (st' : Store S) × (race pan sel fn in_step q1 q2 (begun, begun) st ≡ (
        (
          ended (on_selector pan sel fn q1 (made_for pan sel fn q1)).0,
          ended (on_selector pan sel fn q2 (made_for pan sel fn q2)).0,
        ),
        st',
      ))
        × (look st' (key_of pan q1) ≡ some (on_selector pan sel fn q2 (made_for pan sel fn q2)).1)
  race_loses_call q1 q2 st same new stays1 stays2 =
      let one = first_cell q1 q2 st in
      let two = second_cell q1 q2 st in
      let led : lookup (key_of pan q1) (raced q1 q2 st).selectors ≡ some (st.next + 1) = ground (
        arith,
        same,
        eq_iff (key_of pan q2) (key_of pan q1),
        lookup-insert (key_of pan q2) (key_of pan q1) (st.next + 1)
            (insert (key_of pan q1) st.next st.selectors),
      ) in
      let reply1 =
        ap (λ s. after_call pan sel fn q1 (on_selector pan sel fn q1 s).0) one ∙ ends q1 _ stays1 in
      let reply2 =
        ap (λ s. after_call pan sel fn q2 (on_selector pan sel fn q2 s).0) two ∙ ends q2 _ stays2 in
      (
        raced q1 q2 st,
        both_missing (true ∷ false ∷ true ∷ false ∷ true ∷ false ∷ []) q1 q2 st new
              (sym (ap (λ k. lookup k st.selectors) same) ∙ new)
            ∙ both_served q1 q2 st
            ∙ (λ i. ((reply1 i, reply2 i), raced q1 q2 st)),
        look-some (raced q1 q2 st) (key_of pan q1) (st.next + 1) led
            ∙ ap some (last_cell q1 q2 st)
            ∙ ap (λ s. some (on_selector pan sel fn q2 s).1) two,
      )
