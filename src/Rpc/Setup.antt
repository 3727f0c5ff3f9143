-- ===== src/Rpc/Setup.antt =====
-- How the two ends of rpc/rpc.go are made: `NewServer` registers the three services with net/rpc,
-- and `NewClient` opens a log file. What the code uses of Go's packages is a parameter, on a state
-- of type `W`.
use Prim.Native.Nat.{◌%◌}
use panapi.Prelude.{ℕ, ◌+◌, ◌≡◌, refl, String, none, some, ◌⊎◌, inl, inr}
use panapi.Golang.{Error, Err, Run, returns, panics, ◌>>=◌}

pub record Registry (W : Type 0) : Type 0 where
  -- `rpc.Register`, of a service that bears its type's name
  pub register : String → W → Err × W
  -- `os.Create` of a log file
  pub create_log : W → Err × W

-- `Client`: the connection to the daemon, and the number
pub record Client (Conn : Type 0) : Type 0 where
  pub conn : Conn
  pub id : ℕ

-- `IDServer`, which no server registers
pub record IdServer : Type 0 where
  pub id : ℕ

-- `GetID`: the reply holds a pointer to the server's own number, here what one reads through it on
-- the server that there is then; an `int` is the number of its 64 bits
unfoldable pub get_id : IdServer → (IdServer → ℕ) × IdServer
get_id s = (λ now. now.id, record s { id = (s.id + 1) % 18446744073709551616 })

-- so that the first reply of a server that begins with 42 reads 43
get_id_reads : (get_id (record { id = 42 })).0 (get_id (record { id = 42 })).1 ≡ 43
unfolding get_id
get_id_reads = refl

module _ {W : Type 0} (registry : Registry W) where
  -- `NewTracerServer`, which panics when it has no log file
  unfoldable pub new_tracer_server : W → Run W
  new_tracer_server w =
      let (err, w') = registry.create_log w in elim err [ none ↦ returns w' | some _ ↦ panics ]

  -- the server is always `rpc.DefaultServer`, so that only the error is to be told
  unfoldable pub new_server : W → Run (Err × W)
  unfolding new_tracer_server
  new_server w =
      let (err, w1) = registry.register "SelectorServer" w in
      elim err [
        | some e ↦ returns (some e, w1)
        | none ↦ do
          w2 ← new_tracer_server w1
          let (err', w3) = registry.register "TracerServer" w2 in
              elim err' [
                | some e ↦ returns (some e, w3)
                | none ↦ returns (registry.register "ConnectionTracerServer" w3)
              ]
      ]

  -- an error, or a client with a nil error
  unfoldable pub new_client : {Conn : Type 0} → Conn → W → (Error ⊎ Client Conn) × W
  new_client conn w =
      let (err, w') = registry.create_log w in
      elim err [ some e ↦ (inl e, w') | none ↦ (inr (record { conn = conn; id = 42 }), w') ]
