-- ===== src/Cmd/Daemon/Preferences.antt =====
-- The default selectors of a daemon without a script take no preferences.
use panapi.Prelude.{
  String, true, false, Bool, Option, none, some, List, [], ◌∷◌, ◌≡◌, refl, ap, ◌∙◌, sym, str_eq,
  inl, inr, Bool-cases,
}
use panapi.Prelude.GoMap.{GoMap, lookup}
use panapi.Golang.{Error, returns}
use panapi.Pan.{Pan, PanPath}
use panapi.Taps.Preferences.{ConnectionPreferences}
use panapi.Taps.DefaultSelector.{PanSelector, default_selector}
use panapi.Rpc.Interfaces.{Selector, Request, Reply, error, answer}
use panapi.Rpc.ServerSelector.{addr_key}
use panapi.Rpc.ServerSelector.Isolation.{
  key_of, connection_step, serve_all, replies_of, run_alone, isolation,
}

-- the calls without their preferences
abbrev pub without_preferences : {pan : Pan} → List (Request pan) → List (Request pan)
without_preferences [] = []
without_preferences (Request.initialize _ l r ps ∷ qs) =
    Request.initialize none l r ps ∷ without_preferences qs
without_preferences (Request.set_preferences _ l r ∷ qs) = without_preferences qs
without_preferences (Request.path l r ∷ qs) = Request.path l r ∷ without_preferences qs
without_preferences (Request.path_down l r fp pi ∷ qs) =
    Request.path_down l r fp pi ∷ without_preferences qs
without_preferences (Request.refresh l r ps ∷ qs) = Request.refresh l r ps ∷ without_preferences qs
without_preferences (Request.close l r ∷ qs) = Request.close l r ∷ without_preferences qs

-- the paths among the replies
abbrev pub paths_of : {pan : Pan} → List (Reply pan) → List (Option (PanPath pan))
paths_of [] = []
paths_of (error _ ∷ rs) = paths_of rs
paths_of (answer p _ ∷ rs) = p ∷ paths_of rs

module _ (pan : Pan) {S : Type 0} (base : PanSelector pan S) (new : S) where
  -- `func(pan.UDPAddr, pan.UDPAddr) taps.Selector { return &taps.DefaultSelector{} }`
  abbrev pub make : pan.UdpAddr → pan.UdpAddr → S
  make l r = new

  abbrev pub sel : Selector pan S
  sel = default_selector base

  abbrev value : Option S → S
  value none = new
  value (some s) = s

  -- a call finds the same selector whether it is new or was kept
  kept_or_new :
      (q : Request pan) (o : Option S)
      → connection_step pan sel make q o ≡ connection_step pan sel make q (some (value o))
  kept_or_new q (some s) = refl
  kept_or_new (Request.initialize prefs l r ps) none = refl
  kept_or_new (Request.set_preferences prefs l r) none = refl
  kept_or_new (Request.path l r) none = refl
  kept_or_new (Request.path_down l r fp pi) none = refl
  kept_or_new (Request.refresh l r ps) none = refl
  kept_or_new (Request.close l r) none = refl

  same_step :
      (q : Request pan) (o o' : Option S)
      → value o ≡ value o'
      → connection_step pan sel make q o ≡ connection_step pan sel make q o'
  same_step q o o' same =
      kept_or_new q o
      ∙ ap (λ s. connection_step pan sel make q (some s)) same
      ∙ sym (kept_or_new q o')

  -- a call that is served, or is another connection's
  abbrev either :
      Bool
      → Reply pan
      → List (Reply pan) × Option S
      → List (Reply pan) × Option S
      → List (Reply pan) × Option S
  either true a x y = (a ∷ x.0, x.1)
  either false a x y = y

  run_alone-cons :
      (k : String) (q : Request pan) (qs : List (Request pan)) (o : Option S)
      → run_alone pan sel make k (q ∷ qs) o
        ≡ either
            (str_eq (key_of pan q) k)
            (connection_step pan sel make q o).0
            (run_alone pan sel make k qs (connection_step pan sel make q o).1)
            (run_alone pan sel make k qs o)
  unfolding run_alone
  run_alone-cons k q qs o = elim (Bool-cases (str_eq (key_of pan q) k)) [
    | inl own ↦ rw (run_alone, own) refl
    | inr other ↦ rw (run_alone, other) refl
  ]

  prefix :
      (a : Reply pan) (xs ys : List (Reply pan))
      → paths_of xs ≡ paths_of ys
      → paths_of (a ∷ xs) ≡ paths_of (a ∷ ys)
  prefix (error e) xs ys h = h
  prefix (answer p e) xs ys h = ap (λ ps. p ∷ ps) h

  both :
      (b : Bool) (a a' : Reply pan) (x x' y y' : List (Reply pan) × Option S)
      → a ≡ a'
      → paths_of x.0 ≡ paths_of x'.0
      → paths_of y.0 ≡ paths_of y'.0
      → paths_of (either b a x y).0 ≡ paths_of (either b a' x' y').0
  both true a a' x x' y y' same rest other =
      ap (λ a. paths_of (a ∷ x.0)) same ∙ prefix a' x.0 x'.0 rest
  both false a a' x x' y y' same rest other = other

  dropped :
      (b : Bool) (e : Option Error) (x y : List (Reply pan) × Option S)
      (ps : List (Option (PanPath pan)))
      → paths_of x.0 ≡ ps
      → paths_of y.0 ≡ ps
      → paths_of (either b (error e) x y).0 ≡ ps
  dropped true e x y ps rest other = rest
  dropped false e x y ps rest other = other

  -- `SetPreferences` leaves the selector as it is
  kept :
      (prefs : Option ConnectionPreferences) (l r : pan.UdpAddr) (o : Option S)
      → value (connection_step pan sel make (Request.set_preferences prefs l r) o).1 ≡ value o
  unfolding default_selector
  kept prefs l r none = refl
  kept prefs l r (some s) = refl

  next :
      (q : Request pan) (o o' : Option S)
      → value o ≡ value o'
      → value (connection_step pan sel make q o).1 ≡ value (connection_step pan sel make q o').1
  next q o o' same = ap (λ r. value r.1) (same_step q o o' same)

  together :
      (k : String) (q q' : Request pan) (qs qs' : List (Request pan)) (o o' : Option S)
      → key_of pan q ≡ key_of pan q'
      → connection_step pan sel make q o ≡ connection_step pan sel make q' o'
      → paths_of (run_alone pan sel make k qs (connection_step pan sel make q o).1).0
        ≡ paths_of (run_alone pan sel make k qs' (connection_step pan sel make q' o').1).0
      → paths_of (run_alone pan sel make k qs o).0 ≡ paths_of (run_alone pan sel make k qs' o').0
      → paths_of (run_alone pan sel make k (q ∷ qs) o).0
        ≡ paths_of (run_alone pan sel make k (q' ∷ qs') o').0
  together k q q' qs qs' o o' key step own other =
      ap (λ r. paths_of r.0) (run_alone-cons k q qs o)
      ∙ ap
          (λ j.
            paths_of
              (either (str_eq j k) (connection_step pan sel make q o).0
                (run_alone pan sel make k qs (connection_step pan sel make q o).1)
                (run_alone pan sel make k qs o)).0)
          key
      ∙ both (str_eq (key_of pan q') k) _ _ _ _ _ _ (ap (λ r. r.0) step) own other
      ∙ sym (ap (λ r. paths_of r.0) (run_alone-cons k q' qs' o'))

  -- a call that stays in the list
  stays :
      (k : String) (q : Request pan) (qs : List (Request pan)) (o o' : Option S)
      → value o ≡ value o'
      → ((o o' : Option S)
          → value o ≡ value o'
          → paths_of (run_alone pan sel make k qs o).0
            ≡ paths_of (run_alone pan sel make k (without_preferences qs) o').0)
      → paths_of (run_alone pan sel make k (q ∷ qs) o).0
        ≡ paths_of (run_alone pan sel make k (q ∷ without_preferences qs) o').0
  stays k q qs o o' same rest =
      together k q q qs (without_preferences qs) o o' refl (same_step q o o' same)
        (rest _ _ (next q o o' same)) (rest o o' same)

  nothing :
      (k : String) (o o' : Option S)
      → paths_of (run_alone pan sel make k [] o).0 ≡ paths_of (run_alone pan sel make k [] o').0
  unfolding run_alone
  nothing k o o' = refl

  ignored :
      (k : String) (qs : List (Request pan)) (o o' : Option S)
      → value o ≡ value o'
      → paths_of (run_alone pan sel make k qs o).0
        ≡ paths_of (run_alone pan sel make k (without_preferences qs) o').0
  unfolding default_selector
  ignored k [] o o' same = nothing k o o'
  ignored k (Request.initialize prefs l r ps ∷ qs) o o' same =
      let q : Request pan = Request.initialize prefs l r ps in
      together k q (Request.initialize none l r ps) qs (without_preferences qs) o o' refl
        (same_step q o o' same) (ignored k qs _ _ (next q o o' same)) (ignored k qs o o' same)
  ignored k (Request.set_preferences prefs l r ∷ qs) o o' same =
      let q : Request pan = Request.set_preferences prefs l r in
      ap (λ r. paths_of r.0) (run_alone-cons k q qs o)
      ∙ dropped (str_eq (addr_key pan l r) k) none
          (run_alone pan sel make k qs (connection_step pan sel make q o).1)
          (run_alone pan sel make k qs o)
          (paths_of (run_alone pan sel make k (without_preferences qs) o').0)
          (ignored k qs _ o' (kept prefs l r o ∙ same)) (ignored k qs o o' same)
  ignored k (Request.path l r ∷ qs) o o' same =
      stays k (Request.path l r) qs o o' same (ignored k qs)
  ignored k (Request.path_down l r fp pi ∷ qs) o o' same =
      stays k (Request.path_down l r fp pi) qs o o' same (ignored k qs)
  ignored k (Request.refresh l r ps ∷ qs) o o' same =
      stays k (Request.refresh l r ps) qs o o' same (ignored k qs)
  ignored k (Request.close l r ∷ qs) o o' same =
      stays k (Request.close l r) qs o o' same (ignored k qs)

  -- In a daemon whose connections have default selectors, preferences change nothing: with the calls
  -- of `SetPreferences` left out, and without preferences in those of `Initialize`, any list of
  -- calls is served, and each connection is given the same paths, in the same order.
  pub preferences_ignored :
      (k : String) (qs : List (Request pan)) (m : GoMap S)
      → (replies replies' : List (String × Reply pan)) × (m' m'' : GoMap S) × (serve_all pan sel
            make qs m
          ≡ returns (replies, m'))
        × (serve_all pan sel make (without_preferences qs) m ≡ returns (replies', m''))
        × (paths_of (replies_of pan sel make k replies)
            ≡ paths_of (replies_of pan sel make k replies'))
  preferences_ignored k qs m =
      let (replies, m', served, alone, _) = isolation pan sel make k qs m in
      let (replies', m'', served', alone', _) =
        isolation pan sel make k (without_preferences qs) m in
      (
        replies,
        replies',
        m',
        m'',
        served,
        served',
        ap paths_of alone ∙ ignored k qs (lookup k m) (lookup k m) refl ∙ sym (ap paths_of alone'),
      )
