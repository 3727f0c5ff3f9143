-- ===== src/Taps/Preconnection.antt =====
-- The operations of taps/preconnection.go that use a protocol.
pub mod Views
pub mod Isolation
use panapi.Prelude.{ℕ, String, Option, none, some}
use panapi.Golang.{Error, Err, Run, returns, deref, ◌>>=◌}
use panapi.Taps.Preferences.{ConnectionPreferences}
use panapi.Taps.Heap.{Heap, Preconnection, copy}

-- `taps.Protocol`: what the protocols do, on a heap and a network of type `N`; `Lis` and `Con` are
-- the listeners and connections that they make, and `Sel` their selectors.
pub record Protocol (Proto Key N Lis Con Sel : Type 0) : Type 0 where
  pub new_listener :
      Proto → ℕ → Heap Proto Key → N → Run ((Option Lis × Err) × (Heap Proto Key × N))
  pub initiate : Proto → ℕ → Heap Proto Key → N → Run ((Option Con × Err) × (Heap Proto Key × N))
  pub selector : Proto → Option Sel
  -- `SetPreferences` of a selector
  pub set_preferences : Sel → Option ConnectionPreferences → N → Run (Err × N)

module _ {Proto Key N Lis Con Sel : Type 0} (protocol : Protocol Proto Key N Lis Con Sel) where
  abbrev fails :
      {A : Type 0} → String → Heap Proto Key → N → Run ((Option A × Err) × (Heap Proto Key × N))
  fails reason h n = returns ((none, some (Error.new reason)), (h, n))

  unfoldable pub listen : ℕ → Heap Proto Key → N → Run ((Option Lis × Err) × (Heap Proto Key × N))
  listen p h n = elim (h.preconnections p).local_endpoint [
    | none ↦ fails "can't create listener without a local endpoint" h n
    | some a ↦ elim (h.endpoints a).protocol [
      | none ↦ fails "no protocol specified" h n
      | some proto ↦ (let (q, h') = copy p h in protocol.new_listener proto q h' n)
    ]
  ]

  unfoldable pub initiate : ℕ → Heap Proto Key → N → Run ((Option Con × Err) × (Heap Proto Key × N))
  initiate p h n = elim (h.preconnections p).remote_endpoint [
    | none ↦ fails "can't initiate without a remote endpoint" h n
    | some a ↦ elim (h.endpoints a).protocol [
      | none ↦ fails "no protocol specified" h n
      | some proto ↦ (let (q, h') = copy p h in protocol.initiate proto q h' n)
    ]
  ]

  -- the endpoint whose protocol counts: the local one, if there is one
  abbrev either : Option ℕ → Option ℕ → Option ℕ
  either (some a) remote = some a
  either none remote = remote

  unfoldable pub set_preferences :
      ℕ → Option ConnectionPreferences → Heap Proto Key → N → Run (Err × N)
  set_preferences p cps h n =
      let pre = h.preconnections p in
      elim (either pre.local_endpoint pre.remote_endpoint) [
        | none ↦ returns (some (Error.new "No endpoint specified"), n)
        | some a ↦ elim (h.endpoints a).protocol [
          | none ↦ returns (some (Error.new "No protocol specified"), n)
          | some proto ↦ elim (protocol.selector proto) [
            | none ↦ returns (some (Error.new "Can not set preferences on empty selector"), n)
            | some s ↦ protocol.set_preferences s cps n
          ]
        ]
      ]
