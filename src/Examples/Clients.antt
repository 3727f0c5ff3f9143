-- ===== src/Examples/Clients.antt =====
-- `runClient` of examples/, on the heap of taps/ and a network of type `N`, and
-- `clientWorker` of pingpong. A preconnection that is passed by value is not written to, so that the
-- copy is left out. A loop that need not end is run for a number of rounds.
pub mod Profiles
pub mod Dialling
use Prim.Native.Nat.{◌%◌}
use panapi.Prelude.{
  ℕ, zero, suc, ◌+◌, String, str_append, Option, none, some, [], Bool, true, false, ◌==◌, ◌&&◌,
  update, if◌then◌else◌,
}
use panapi.Golang.{Error, Err, Run, returns, deref, ◌>>=◌}
use panapi.Taps.Enums.{default_profile, scavenger, low_latency_non_interactive}
use panapi.Taps.Heap.{Heap, Preconnection}
use panapi.Taps.Preconnection.{Protocol, initiate, set_preferences}
use panapi.Examples.Workers.{Line}
use panapi.Rpc.ConnectionTracer.{error_text}

-- `taps.Preconnection{}`
abbrev pub empty : Preconnection
empty = record {
  local_endpoint = none;
  remote_endpoint = none;
  transport_preferences = record {
    reliability = 0;
    preserve_order = 0;
    congestion_control = 0;
    interface = none;
    multipath = 0;
  };
  security_parameters = record {
    identity = "";
    key_pair = record { private_key = none; public_key = none };
    supported_group = 0;
    cipher_suite = none;
    signature_algorithm = 0;
    max_cached_sessions = 0;
    cached_session_lifetime = 0;
    psk = none;
  };
  connection_preferences = none;
}

module _ {Proto Key N Lis Con Sel : Type 0} (protocol : Protocol Proto Key N Lis Con Sel) where
  -- the preconnection of a client: its endpoint, its preferences, and itself, in three new cells
  unfoldable pub client_preconnection : String → Proto → ℕ → Heap Proto Key → ℕ × Heap Proto Key
  client_preconnection remote proto profile h = (
    h.next + 2,
    record h {
      endpoints = update h.endpoints h.next (record { address = remote; protocol = some proto });
      preferences = update h.preferences (h.next + 1) (record {
        conn_timeout = 0;
        conn_capacity_profile = profile;
        multipath_policy = 0;
        isolate_session = false;
      });
      preconnections = update h.preconnections (h.next + 2) (record empty {
        remote_endpoint = some h.next;
        connection_preferences = some (h.next + 1);
      });
      next = h.next + 3;
    },
  )

  -- the state that goes along
  abbrev pub State : Type 0
  State = Heap Proto Key × N

  -- what both `runClient`s below begin with
  abbrev client : String → Proto → ℕ → State → Run (ℕ × ((Option Con × Err) × State))
  client remote proto profile (h, n) =
      let (p, h') = client_preconnection remote proto profile h in
      initiate protocol p h' n >>= λ r. returns (p, r)

  -- `runClient` of concurrent; `work` is `worker`
  unfoldable pub concurrent_client : (Con → N → N) → String → Proto → State → Run (Err × State)
  unfolding client_preconnection
  concurrent_client work remote proto s =
      client remote proto scavenger s >>= λ (p, ((conn, err), (h, n))). elim err [
        | some e ↦ returns (some e, (h, n))
        | none ↦ deref conn >>= λ c. returns (none, (h, work c n))
      ]

  -- `runClient` of capacityseeker; `copy` is the copying with its report, and `close` the deferred
  -- `Connection.Close`
  unfoldable pub seeker_client :
      (Con → N → Err × N) → (Con → N → N) → String → Proto → ℕ → State → Run (Err × State)
  unfolding client_preconnection
  seeker_client copy close remote proto profile s =
      client remote proto profile s >>= λ (p, ((conn, err), (h, n))). elim err [
        | some e ↦ returns (some (Error.new (str_append "Initate error: " (error_text e))), (h, n))
        | none ↦ (deref conn >>= λ c. let (err', n') = copy c n in returns (err', (h, close c n')))
      ]

  -- `clientWorker` of pingpong, on the preconnection in cell `p` with the preferences in cell `a`
  module _ (line : Line Con N) (now : N → String) (parse : String → Err) (conn : Con) (p a : ℕ)
      (sw : Bool) where
    -- the new profile is written through the pointer, which is then handed on; an error is dropped
    abbrev pub switch : Bool → ℕ → State → Run State
    switch false profile s = returns s
    switch true profile (h, n) =
        let h' = record h {
          preferences =
              update h.preferences a (record (h.preferences a) { conn_capacity_profile = profile });
        } in
        set_preferences protocol p (some (h'.preferences a)) h' n >>= λ r. returns (h', r.1)

    -- the switch of profiles, in the round `i`
    unfoldable pub switched : ℕ → State → Run State
    switched i =
        switch ((i % 10 == 0) && sw)
          (if i % 20 == 0 then scavenger else low_latency_non_interactive)

    -- a line is written, its echo is read and parsed, and a second passes
    unfoldable pub exchange : N → Err × N
    exchange n =
        let (err, n1) = line.write conn (str_append (now n) "\n") n in
        let ((response, err'), n2) = line.read_string conn n1 in
        elim err [
          | some e ↦ (some e, n1)
          | none ↦ elim err' [
            | some e ↦ (some e, n2)
            | none ↦ elim (parse response) [
              | some e ↦ (some e, n2)
              | none ↦ (none, (line.tick n2).1)
            ]
          ]
        ]

    -- what comes after an exchange
    abbrev pub proceed : (State → Run (Err × State)) → Heap Proto Key → Err × N → Run (Err × State)
    proceed go h (some e, n) = returns (some e, (h, n))
    proceed go h (none, n) = go (h, n)

    -- the loop, of which `i` is a `uint` of 64 bits: `none` while it runs, and the error that ended it
    unfoldable pub client_rounds : ℕ → ℕ → State → Run (Err × State)
    unfolding switched exchange
    client_rounds zero i s = returns (none, s)
    client_rounds (suc fuel) i s =
        let i' = (i + 1) % 18446744073709551616 in
        switched i' s >>= λ s'. proceed (client_rounds fuel i') s'.0 (exchange s'.1)

  -- the deferred `conn.Close`, once the loop has ended
  abbrev ended : Line Con N → Con → Err × State → Err × State
  ended line conn (none, s) = (none, s)
  ended line conn (some e, (h, n)) = (some e, (h, (line.close conn n).1))

  unfoldable pub client_worker :
      Line Con N → (N → String) → (String → Err) → ℕ → ℕ → State → Run (Err × State)
  unfolding client_rounds
  client_worker line now parse fuel p (h, n) =
      initiate protocol p h n >>= λ ((conn, err), (h', n')). elim err [
        | some e ↦ returns (some e, (h', n'))
        | none ↦
            (deref conn >>= λ c. deref (h'.preconnections p).connection_preferences >>= λ a.
            let sw = (h'.preferences a).conn_capacity_profile == default_profile in
            client_rounds line now parse c p a sw fuel 0 (h', n') >>= λ r. returns (ended line c r))
      ]

  -- `runClient` of pingpong, which returns nil whatever has ended the worker: `none` is a worker
  -- that still runs
  unfoldable pub pingpong_client :
      Line Con N
      → (N → String)
      → (String → Err)
      → ℕ
      → String
      → Proto
      → ℕ
      → State
      → Run (Option Err × State)
  unfolding client_preconnection client_worker
  pingpong_client line now parse fuel remote proto profile (h, n) =
      let (p, h') = client_preconnection remote proto profile h in
      client_worker line now parse fuel p (h', n) >>= λ (err, s).
      returns (elim err [ none ↦ none | some _ ↦ some none ], s)
