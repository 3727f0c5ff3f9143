-- ===== src/Rpc/ServerSelector/Pointers/Cells.antt =====
-- What reading, storing and deleting selectors does to what the keys lead to.
use panapi.Prelude.{
  ℕ, ◌+◌, String, none, some, ◌≡◌, inl, inr, arith, Option-cases, eq_iff, str_eq, if◌then◌else◌,
  update,
}
use panapi.Prelude.GoMap.{lookup, insert, delete, lookup-insert, lookup-delete}
use panapi.Rpc.ServerSelector.Pointers.{Store, look, IsSound}

module _ {S : Type 0} (st : Store S) (sound : IsSound st) where
  -- a selector is written through its pointer
  pub look-write :
      (k : String) (p : ℕ) (s : S) (j : String)
      → lookup k st.selectors ≡ some p
      → look (record st { heap = update st.heap p s }) j
        ≡ (if str_eq k j then some s else look st j)
  look-write k p s j at = elim (Option-cases (lookup j st.selectors)) [
    | inl absent ↦ ground (arith, eq_iff k j)
    | inr (p', there) ↦ ground (arith, eq_iff k j, sound.apart k j p)
  ]

  -- a new selector is stored
  pub look-store :
      (k : String) (s : S) (j : String)
      → look
          (record st {
            heap = update st.heap st.next s;
            next = st.next + 1;
            selectors = insert k st.next st.selectors;
          })
          j
        ≡ (if str_eq k j then some s else look st j)
  look-store k s j = elim (Option-cases (lookup j st.selectors)) [
    | inl absent ↦ ground (arith, lookup-insert k j st.next st.selectors)
    | inr (p', there) ↦
        ground (arith, lookup-insert k j st.next st.selectors, sound.below j p' there)
  ]

  pub look-delete :
      (k j : String)
      → look (record st { selectors = delete k st.selectors }) j
        ≡ (if str_eq k j then none else look st j)
  look-delete k j = ground (arith, lookup-delete k j st.selectors)

  pub store-IsSound :
      (k : String) (s : S)
      → IsSound (record st {
        heap = update st.heap st.next s;
        next = st.next + 1;
        selectors = insert k st.next st.selectors;
      })
  store-IsSound k s = record {
    below = λ j p at. ground (arith, lookup-insert k j st.next st.selectors, sound.below j p);
    apart = λ i j p at at'. ground (
      arith,
      lookup-insert k i st.next st.selectors,
      lookup-insert k j st.next st.selectors,
      eq_iff k i,
      eq_iff k j,
      sound.below i p,
      sound.below j p,
      sound.apart i j p,
    );
  }

  pub delete-IsSound : (k : String) → IsSound (record st { selectors = delete k st.selectors })
  delete-IsSound k = record {
    below = λ j p at. ground (arith, lookup-delete k j st.selectors, sound.below j p);
    apart = λ i j p at at'.
        ground (
          arith,
          lookup-delete k i st.selectors,
          lookup-delete k j st.selectors,
          sound.apart i j p,
        );
  }
