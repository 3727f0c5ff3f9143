-- ===== src/Rpc/ServerSelector/Isolation.antt =====
-- `serverSelector` implements one private selector for each key, which is the joined texts of a local
-- and a remote address.
use panapi.Prelude.{
  String, true, false, Option, none, some, List, [], ◌∷◌, ◌≡◌, refl, inl, inr, arith, if◌then◌else◌,
  str_eq, eq_iff, Option-cases, str_append, ◌∙◌, sym, ap,
}
use panapi.Prelude.GoMap.{GoMap, lookup, lookup-insert, lookup-delete}
use panapi.Golang.{Run, returns, ◌>>=◌}
use panapi.Pan.{Pan, PanPath}
use panapi.Rpc.Interfaces.{Selector, Request, Reply, error, answer, dispatch}
use panapi.Rpc.ServerSelector.{
  addr_key, update, server_selector, get_selector, initialize, set_preferences, path, path_down,
  refresh, close,
}

-- the key of the connection that a request is about
abbrev pub key_of : (pan : Pan) → Request pan → String
key_of pan (Request.initialize _ l r _) = addr_key pan l r
key_of pan (Request.set_preferences _ l r) = addr_key pan l r
key_of pan (Request.path l r) = addr_key pan l r
key_of pan (Request.path_down l r _ _) = addr_key pan l r
key_of pan (Request.refresh l r _) = addr_key pan l r
key_of pan (Request.close l r) = addr_key pan l r

module _ (pan : Pan) {S : Type 0} (sel : Selector pan S) (fn : pan.UdpAddr → pan.UdpAddr → S) where
  -- A connection on its own: it has a selector, or none yet, or none any more.
  abbrev pub current : pan.UdpAddr → pan.UdpAddr → Option S → S
  current l r none = fn l r
  current l r (some s) = s

  abbrev pub connection_step : Request pan → Option S → Reply pan × Option S
  connection_step (Request.initialize _ l r ps) o =
      (error none, some (sel.initialize l r ps (current l r o)))
  connection_step (Request.set_preferences prefs l r) o =
      let (e, s) = sel.set_preferences prefs (current l r o) in (error e, some s)
  connection_step (Request.path l r) o =
      let (p, s) = sel.path (current l r o) in (answer p none, some s)
  connection_step (Request.path_down l r fp pi) o =
      (error none, some (sel.path_down fp pi (current l r o)))
  connection_step (Request.refresh l r ps) o = (error none, some (sel.refresh ps (current l r o)))
  connection_step (Request.close l r) o = (error (sel.close (current l r o)).0, none)

  -- the request on the daemon's map
  unfoldable pub serve : Request pan → GoMap S → Reply pan × GoMap S
  unfolding initialize set_preferences path path_down refresh close
  serve (Request.initialize prefs l r ps) m =
      let (e, m') = initialize pan sel fn prefs l r ps m in (error e, m')
  serve (Request.set_preferences prefs l r) m =
      let (e, m') = set_preferences pan sel fn prefs l r m in (error e, m')
  serve (Request.path l r) m = let ((p, e), m') = path pan sel fn l r m in (answer p e, m')
  serve (Request.path_down l r fp pi) m =
      let (e, m') = path_down pan sel fn l r fp pi m in (error e, m')
  serve (Request.refresh l r ps) m = let (e, m') = refresh pan sel fn l r ps m in (error e, m')
  serve (Request.close l r) m = let (e, m') = close pan sel fn l r m in (error e, m')

  dispatch-serve :
      (q : Request pan) (m : GoMap S)
      → dispatch pan (server_selector pan sel fn) q m ≡ returns (serve q m)
  unfolding dispatch server_selector serve
  dispatch-serve (Request.initialize prefs l r ps) m = refl
  dispatch-serve _ m = refl

  get_selector-current :
      (l r : pan.UdpAddr) (m : GoMap S)
      → (get_selector pan sel fn l r m).0 ≡ current l r (lookup (addr_key pan l r) m)
  unfolding get_selector
  get_selector-current l r m = ground arith

  -- the write that follows hides whether the selector was new
  lookup-update :
      (l r : pan.UdpAddr) (s : S) (m : GoMap S) (k : String)
      → lookup k (update pan sel fn l r s (get_selector pan sel fn l r m).1)
        ≡ (if str_eq (addr_key pan l r) k then some s else lookup k m)
  unfolding get_selector
  lookup-update l r s m k = elim (Option-cases (lookup (addr_key pan l r) m)) [
    | inl new ↦ rw (new, get_selector) (simp lookup-insert (ground arith))
    | inr (_, old) ↦ rw (old, get_selector) (simp lookup-insert)
  ]

  pub reply-serve :
      (q : Request pan) (m : GoMap S)
      → (serve q m).0 ≡ (connection_step q (lookup (key_of pan q) m)).0
  unfolding serve
  reply-serve (Request.set_preferences prefs l r) m = simp get_selector-current
  reply-serve (Request.path l r) m = simp get_selector-current
  reply-serve (Request.close l r) m = simp get_selector-current
  reply-serve _ m = refl

  pub lookup-serve :
      (q : Request pan) (m : GoMap S) (k : String)
      → lookup k (serve q m).1 ≡ (
          if str_eq (key_of pan q) k
          then (connection_step q (lookup (key_of pan q) m)).1
          else lookup k m)
  unfolding serve
  lookup-serve (Request.close l r) m k =
      simp (lookup-delete, lookup-update, get_selector-current) (ground arith)
  lookup-serve (Request.initialize prefs l r ps) m k = simp (lookup-update, get_selector-current)
  lookup-serve _ m k = simp (lookup-update, get_selector-current)

  -- Each call returns; it answers, and changes the selector of its own key, as that
  -- selector on its own would, and leaves the selector of every other key as it was.
  pub serve-refines :
      (q : Request pan) (m : GoMap S)
      → (m' : GoMap S) × (dispatch pan (server_selector pan sel fn) q m
          ≡ returns ((connection_step q (lookup (key_of pan q) m)).0, m'))
        × ((k : String)
            → lookup k m' ≡ (
                if str_eq (key_of pan q) k
                then (connection_step q (lookup (key_of pan q) m)).1
                else lookup k m))
  serve-refines q m = ((serve q m).1, rw dispatch-serve (cc (reply-serve q m)), lookup-serve q m)

  -- The daemon's run over a list of calls, with the key of each reply.
  pub serve_all : List (Request pan) → GoMap S → Run (List (String × Reply pan) × GoMap S)
  serve_all [] m = returns ([], m)
  serve_all (q ∷ qs) m = do
    (a, m') ← dispatch pan (server_selector pan sel fn) q m
    (rest, m'') ← serve_all qs m'
    returns ((key_of pan q, a) ∷ rest, m'')

  pub replies_of : String → List (String × Reply pan) → List (Reply pan)
  replies_of k [] = []
  replies_of k ((j, a) ∷ rest) = let r = replies_of k rest in if str_eq j k then a ∷ r else r

  -- One connection's run over its own calls among the list.
  unfoldable pub run_alone : String → List (Request pan) → Option S → List (Reply pan) × Option S
  run_alone k [] o = ([], o)
  run_alone k (q ∷ qs) o = elim (str_eq (key_of pan q) k) [
    | true ↦
        (let (a, o') = connection_step q o in
          let (rest, o'') = run_alone k qs o' in (a ∷ rest, o''))
    | false ↦ run_alone k qs o
  ]

  served : List (Request pan) → GoMap S → List (String × Reply pan) × GoMap S
  served [] m = ([], m)
  served (q ∷ qs) m =
      let (a, m') = serve q m in let (rest, m'') = served qs m' in ((key_of pan q, a) ∷ rest, m'')

  serve_all-served :
      (qs : List (Request pan)) (m : GoMap S) → serve_all qs m ≡ returns (served qs m)
  unfolding serve_all served
  serve_all-served [] m = refl
  serve_all-served (q ∷ qs) m = simp (dispatch-serve, serve_all-served qs (serve q m).1)

  served-isolated :
      (k : String) (qs : List (Request pan)) (m : GoMap S)
      → (replies_of k (served qs m).0 ≡ (run_alone k qs (lookup k m)).0)
        × (lookup k (served qs m).1 ≡ (run_alone k qs (lookup k m)).1)
  unfolding served replies_of run_alone
  served-isolated k [] m = (refl, refl)
  served-isolated k (q ∷ qs) m = ground (
    arith,
    reply-serve q m,
    lookup-serve q m k,
    eq_iff (key_of pan q) k,
    served-isolated k qs (serve q m).1,
  )

  -- Any list of calls is served to its end. Whatever calls with other keys come between, the replies to
  -- the calls of one key, the joined texts of a local and a remote address, and the selector that it
  -- ends with, are those of one selector that serves the calls of that key alone.
  pub isolation :
      (k : String) (qs : List (Request pan)) (m : GoMap S)
      → (replies : List (String × Reply pan)) × (m' : GoMap S) × (serve_all qs m
          ≡ returns (replies, m'))
        × (replies_of k replies ≡ (run_alone k qs (lookup k m)).0)
        × (lookup k m' ≡ (run_alone k qs (lookup k m)).1)
  isolation k qs m =
      let (same, ends) = served-isolated k qs m in
      ((served qs m).0, (served qs m).1, serve_all-served qs m, same, ends)

  run_alone-own :
      (k : String) (q : Request pan) (qs : List (Request pan)) (o : Option S)
      → key_of pan q ≡ k
      → (run_alone k (q ∷ qs) o).0
        ≡ (connection_step q o).0 ∷ (run_alone k qs (connection_step q o).1).0
  unfolding run_alone
  run_alone-own k q qs o own = (let e = (eq_iff (key_of pan q) k).1 own in ground arith)

  -- Two pairs of addresses whose texts join to one text share a selector: if the first pair is
  -- initialised and the second one, without having been, asks for a path, then it gets the path that
  -- the first pair's selector takes.
  pub joined_texts_share :
      (l r l' r' : pan.UdpAddr) (ps : List (PanPath pan)) (m : GoMap S)
      → str_append (pan.addr_string l) (pan.addr_string r)
        ≡ str_append (pan.addr_string l') (pan.addr_string r')
      → (replies : List (String × Reply pan)) × (m' : GoMap S) × (serve_all
            (Request.initialize none l r ps ∷ Request.path l' r' ∷ [])
            m
          ≡ returns (replies, m'))
        × (replies_of (addr_key pan l r) replies
            ≡ error none
              ∷ answer
                  (sel.path (sel.initialize l r ps (current l r (lookup (addr_key pan l r) m)))).0
                  none
              ∷ [])
  unfolding run_alone addr_key
  joined_texts_share l r l' r' ps m same =
      let k = addr_key pan l r in
      let (replies, m', served_all, alone, _) =
        isolation k (Request.initialize none l r ps ∷ Request.path l' r' ∷ []) m in
      let asked =
        run_alone-own k (Request.path l' r') []
          (connection_step (Request.initialize none l r ps) (lookup k m)).1 (sym same) in
      (
        replies,
        m',
        served_all,
        alone
            ∙ run_alone-own k (Request.initialize none l r ps) (Request.path l' r' ∷ [])
                (lookup k m) refl
            ∙ ap (λ rest. error none ∷ rest) asked,
      )
