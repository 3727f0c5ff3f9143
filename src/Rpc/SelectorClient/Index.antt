-- ===== src/Rpc/SelectorClient/Index.antt =====
-- The client's table of paths: what it holds after each operation.
use panapi.Prelude.{
  String, Option, none, some, List, [], ◌∷◌, ◌≡◌, refl, arith, ◌⊎◌, inl, inr, str_eq, eq_iff,
  if◌then◌else◌, Option-cases,
}
use panapi.Prelude.GoMap.{GoMap, lookup, lookup-insert, insert}
use panapi.Pan.{Pan, PanPath}
use panapi.Rpc.SelectorClient.{SelectorClient, new_selector_client, enter_paths, entry}

module _ {pan : Pan} where
  -- the last path of the list with this fingerprint
  unfoldable pub last_with : String → List (PanPath pan) → Option (PanPath pan)
  last_with fp [] = none
  last_with fp (p ∷ ps) =
      let later = last_with fp ps in
      elim later [ some q ↦ some q | none ↦ if str_eq p.fingerprint fp then some p else none ]

  abbrev pub Among : PanPath pan → List (PanPath pan) → Type 0
  Among p [] = ⊥
  Among p (q ∷ ps) = (p ≡ q) ⊎ Among p ps

  abbrev pub or_else : Option (PanPath pan) → Option (PanPath pan) → Option (PanPath pan)
  or_else (some p) o = some p
  or_else none o = o

  pub entry-insert :
      (fp j : String) (o : Option (PanPath pan)) (table : GoMap (Option (PanPath pan)))
      → entry j (insert fp o table) ≡ (if str_eq fp j then o else entry j table)
  unfolding entry
  entry-insert fp j o table = ground (arith, lookup-insert fp j o table)

  pub entry-enter_paths :
      (fp : String) (ps : List (PanPath pan)) (table : GoMap (Option (PanPath pan)))
      → entry fp (enter_paths ps table) ≡ or_else (last_with fp ps) (entry fp table)
  unfolding enter_paths last_with
  entry-enter_paths fp [] table = refl
  entry-enter_paths fp (p ∷ ps) table = ground (
    arith,
    entry-enter_paths fp ps (insert p.fingerprint (some p) table),
    entry-insert p.fingerprint fp (some p) table,
  )

  pub last_with-Offered :
      (fp : String) (ps : List (PanPath pan)) (p : PanPath pan)
      → last_with fp ps ≡ some p
      → Among p ps
  unfolding last_with
  last_with-Offered fp [] p h = ground arith
  last_with-Offered fp (q ∷ ps) p h = elim (Option-cases (last_with fp ps)) [
    | inl here ↦ inl (ground (arith, here))
    | inr (_, later) ↦ inr (last_with-Offered fp ps p (ground (arith, later)))
  ]

  -- every path in the table stands under its own fingerprint
  pub record IsIndexed (s : SelectorClient pan) : Type 0 where
    pub at : (fp : String) (p : PanPath pan) → entry fp s.paths ≡ some p → p.fingerprint ≡ fp

  last_with-fingerprint :
      (fp : String) (ps : List (PanPath pan)) (p : PanPath pan)
      → last_with fp ps ≡ some p
      → p.fingerprint ≡ fp
  unfolding last_with
  last_with-fingerprint fp [] p h = ground arith
  last_with-fingerprint fp (q ∷ ps) p h =
      ground (arith, last_with-fingerprint fp ps p, eq_iff q.fingerprint fp)

  pub new_selector_client-IsIndexed : IsIndexed (new_selector_client pan)
  unfolding new_selector_client entry lookup
  new_selector_client-IsIndexed = record { at = λ fp p h. ground arith }

  pub enter_paths-IsIndexed :
      (ps : List (PanPath pan)) (s t : SelectorClient pan)
      → IsIndexed s
      → t.paths ≡ enter_paths ps s.paths
      → IsIndexed t
  enter_paths-IsIndexed ps s t h e = record {
    at = λ fp p x.
        ground
          (arith, e, entry-enter_paths fp ps s.paths, last_with-fingerprint fp ps p, h.at fp p);
  }

  pub insert-IsIndexed :
      (fp : String) (s t : SelectorClient pan)
      → IsIndexed s
      → t.paths ≡ insert fp none s.paths
      → IsIndexed t
  insert-IsIndexed fp s t h e = record {
    at = λ j p x. ground (arith, e, entry-insert fp j none s.paths, h.at j p);
  }
