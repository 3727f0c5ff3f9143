-- ===== src/Rpc/SelectorClient/Trace.antt =====
-- Any run of a client's operations.
use panapi.Prelude.{
  String, Option, none, some, List, [], ◌∷◌, ◌≡◌, refl, inl, inr, ◌⊎◌, arith, Option-cases,
}
use panapi.Prelude.GoMap.{GoMap, insert, lookup}
use panapi.Golang.{Run, returns, ◌>>=◌, >>=-eq-returns}
use panapi.Rpc.SelectorServer.{SelectorMsg, blank}
use panapi.Pan.{Pan, PathInterface, PanPath}
use panapi.Taps.Preferences.{ConnectionPreferences}
use panapi.Rpc.SelectorClient
use panapi.Rpc.SelectorClient.{
  SelectorClient, Connection, enter_paths, entry, named, new_selector_client,
}
use panapi.Rpc.SelectorClient.Index.{
  IsIndexed, Among, last_with, last_with-Offered, enter_paths-IsIndexed, insert-IsIndexed,
  entry-enter_paths, entry-insert, new_selector_client-IsIndexed,
}

-- an operation that `pan` calls on its selector
pub data ClientCall (pan : Pan) : Type 0 where
  initialize : pan.UdpAddr → pan.UdpAddr → List (PanPath pan) → ClientCall pan
  set_preferences : Option ConnectionPreferences → ClientCall pan
  path : ClientCall pan
  path_down : String → PathInterface pan → ClientCall pan
  refresh : List (PanPath pan) → ClientCall pan

module _ {pan : Pan} where
  -- the paths that a call hands over
  abbrev pub OfferedIn : PanPath pan → ClientCall pan → Type 0
  OfferedIn p (ClientCall.initialize _ _ ps) = Among p ps
  OfferedIn p (ClientCall.refresh ps) = Among p ps
  OfferedIn p _ = ⊥

  abbrev pub Offered : PanPath pan → List (ClientCall pan) → Type 0
  Offered p [] = ⊥
  Offered p (c ∷ cs) = OfferedIn p c ⊎ Offered p cs

module _ {pan : Pan} {W : Type 0} (conn : Connection pan W) where
  unfoldable pub client_call :
      ClientCall pan → SelectorClient pan → W → Run (SelectorClient pan × W)
  client_call (ClientCall.initialize l r ps) s w = SelectorClient.initialize pan conn l r ps s w
  client_call (ClientCall.set_preferences prefs) s w =
      let (_, s', w') = SelectorClient.set_preferences pan conn prefs s w in returns (s', w')
  client_call ClientCall.path s w = do
    let r = SelectorClient.path pan conn s w
    (_, w') ← r
    returns (s, w')
  client_call (ClientCall.path_down fp pi) s w = SelectorClient.path_down pan conn fp pi s w
  client_call (ClientCall.refresh ps) s w = SelectorClient.refresh pan conn ps s w

  -- the calls in turn; a call that ends the process ends the run
  unfoldable pub client_run :
      List (ClientCall pan) → SelectorClient pan → W → Run (SelectorClient pan × W)
  client_run [] s w = returns (s, w)
  client_run (c ∷ cs) s w = do (s', w') ← client_call c s w; client_run cs s' w'

  -- what one call does to the table
  abbrev TableAfter : ClientCall pan → SelectorClient pan → SelectorClient pan → Type 0
  TableAfter (ClientCall.initialize _ _ ps) s t = t.paths ≡ enter_paths ps s.paths
  TableAfter (ClientCall.refresh ps) s t = t.paths ≡ enter_paths ps s.paths
  TableAfter (ClientCall.path_down fp _) s t = t.paths ≡ insert fp none s.paths
  TableAfter _ s t = t.paths ≡ s.paths

  client_call-table :
      (c : ClientCall pan) (s t : SelectorClient pan) (w w' : W)
      → client_call c s w ≡ returns (t, w')
      → TableAfter c s t
  unfolding client_call SelectorClient.initialize SelectorClient.set_preferences SelectorClient.path
      SelectorClient.path_down SelectorClient.refresh
  client_call-table (ClientCall.initialize l r ps) s t w w' e = ground arith
  client_call-table _ s t w w' e = ground arith

  module _ (fp : String) (p : PanPath pan) where
    entered :
        (ps : List (PanPath pan)) (s t : SelectorClient pan)
        → t.paths ≡ enter_paths ps s.paths
        → entry fp t.paths ≡ some p
        → (entry fp s.paths ≡ some p) ⊎ Among p ps
    entered ps s t e x = elim (Option-cases (last_with fp ps)) [
      | inl old ↦ inl (ground (arith, e, old, entry-enter_paths fp ps s.paths))
      | inr (q, new) ↦
          inr (last_with-Offered fp ps p (ground (arith, e, new, entry-enter_paths fp ps s.paths)))
    ]

    call-Offered :
        (c : ClientCall pan) (s t : SelectorClient pan)
        → TableAfter c s t
        → entry fp t.paths ≡ some p
        → (entry fp s.paths ≡ some p) ⊎ OfferedIn p c
    call-Offered (ClientCall.initialize l r ps) s t e x = entered ps s t e x
    call-Offered (ClientCall.set_preferences prefs) s t e x = inl (rw (← e) x)
    call-Offered ClientCall.path s t e x = inl (rw (← e) x)
    call-Offered (ClientCall.path_down j pi) s t e x =
        inl (ground (arith, e, entry-insert j fp none s.paths))
    call-Offered (ClientCall.refresh ps) s t e x = entered ps s t e x

    run-Offered :
        (cs : List (ClientCall pan)) (s t : SelectorClient pan) (w w' : W)
        → client_run cs s w ≡ returns (t, w')
        → entry fp t.paths ≡ some p
        → (entry fp s.paths ≡ some p) ⊎ Offered p cs
    unfolding client_run
    run-Offered [] s t w w' e x = inl (ground (arith, e))
    run-Offered (c ∷ cs) s t w w' e x =
        let ((s', v), first, rest) = >>=-eq-returns (client_call c s w) _ e in
        elim (run-Offered cs s' t v w' rest x) [
          | inr later ↦ inr (inr later)
          | inl before ↦ elim (call-Offered c s s' (client_call-table c s s' w v first) before) [
            | inl earlier ↦ inl earlier
            | inr now ↦ inr (inl now)
          ]
        ]

  call-IsIndexed :
      (c : ClientCall pan) (s t : SelectorClient pan) → TableAfter c s t → IsIndexed s → IsIndexed t
  call-IsIndexed (ClientCall.initialize l r ps) s t e h = enter_paths-IsIndexed ps s t h e
  call-IsIndexed (ClientCall.set_preferences prefs) s t e h = record {
    at = λ fp p x. h.at fp p (rw (← e) x);
  }
  call-IsIndexed ClientCall.path s t e h = record { at = λ fp p x. h.at fp p (rw (← e) x) }
  call-IsIndexed (ClientCall.path_down fp pi) s t e h = insert-IsIndexed fp s t h e
  call-IsIndexed (ClientCall.refresh ps) s t e h = enter_paths-IsIndexed ps s t h e

  run-IsIndexed :
      (cs : List (ClientCall pan)) (s t : SelectorClient pan) (w w' : W)
      → client_run cs s w ≡ returns (t, w')
      → IsIndexed s
      → IsIndexed t
  unfolding client_run
  run-IsIndexed [] s t w w' e h = record { at = λ fp p x. h.at fp p (ground (arith, e)) }
  run-IsIndexed (c ∷ cs) s t w w' e h =
      let ((s', v), first, rest) = >>=-eq-returns (client_call c s w) _ e in
      run-IsIndexed cs s' t v w' rest (call-IsIndexed c s s' (client_call-table c s s' w v first) h)

  -- the message of the client's `Path`
  abbrev pub path_request : SelectorClient pan → SelectorMsg pan
  path_request s = record (blank pan) { local = s.local; remote = s.remote }

  named-eq-some :
      (o : Option String) (table : GoMap (Option (PanPath pan))) (p : PanPath pan)
      → named o table ≡ some p
      → (fp : String) × (o ≡ some fp) × (entry fp table ≡ some p)
  named-eq-some none table p h = cc
  named-eq-some (some fp) table p h = (fp, refl, h)

  path-entry :
      (s : SelectorClient pan) (w w' : W) (p : PanPath pan)
      → SelectorClient.path pan conn s w ≡ returns (some p, w')
      → (fp : String) × ((conn.call "SelectorServer.Path" (path_request s) w).0.1.fingerprint
          ≡ some fp)
        × (entry fp s.paths ≡ some p)
  unfolding SelectorClient.path
  path-entry s w w' p e =
      named-eq-some (conn.call "SelectorServer.Path" (path_request s) w).0.1.fingerprint s.paths p
        (ground (arith, e))

  -- Whatever a new client has been through, a path that it answers with was handed to it by an
  -- `Initialize` or a `Refresh`, and has the fingerprint that the daemon named in its reply.
  pub path-Offered :
      (cs : List (ClientCall pan)) (t : SelectorClient pan) (p : PanPath pan) (w v v' : W)
      → client_run cs (new_selector_client pan) w ≡ returns (t, v)
      → SelectorClient.path pan conn t v ≡ returns (some p, v')
      → Offered p cs
        × ((conn.call "SelectorServer.Path" (path_request t) v).0.1.fingerprint
            ≡ some p.fingerprint)
  unfolding new_selector_client entry lookup
  path-Offered cs t p w v v' ran asked =
      let (fp, reply, at) = path-entry t v v' p asked in
      (
        elim (run-Offered fp p cs (new_selector_client pan) t w v ran at) [
          | inl before ↦ absurd (cc before)
          | inr offered ↦ offered
        ],
        rw
            ((run-IsIndexed cs (new_selector_client pan) t w v ran new_selector_client-IsIndexed).at
              fp p at)
            reply,
      )
