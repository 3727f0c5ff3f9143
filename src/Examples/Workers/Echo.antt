-- ===== src/Examples/Workers/Echo.antt =====
-- What the workers say to their peers.
use mathlib.Core.List.{append-nil, append_assoc}
use panapi.Prelude.{
  ℕ, zero, suc, ◌<◌, String, none, some, List, [], ◌∷◌, ◌++◌, length, length_append, str_append,
  ◌+◌, ◌≡◌, refl, sym, ap, ◌∙◌, arith,
}
use panapi.Golang.{Error}
use panapi.Examples.Workers.{
  Line, responded, requested, heard, answered, server_rounds, closed, server_worker, worker_rounds,
  hung_up, worker,
}

-- what there is to see of a connection: the lines still to come, and those that were written
pub record View (N : Type 0) : Type 0 where
  pub inbox : N → List String
  pub outbox : N → List String

-- A connection that works until its peer has no more to say.
pub record IsReliable {Con N : Type 0} (line : Line Con N) (conn : Con) (v : View N) : Type 0 where
  pub next_line :
      (n : N) (s : String) (rest : List String)
      → v.inbox n ≡ s ∷ rest
      → (n' : N) × (line.read_string conn n ≡ ((s, none), n'))
        × (v.inbox n' ≡ rest)
        × (v.outbox n' ≡ v.outbox n)
  pub no_line :
      (n : N)
      → v.inbox n ≡ []
      → (r : (String × Error) × N) × (line.read_string conn n ≡ ((r.0.0, some r.0.1), r.1))
        × (v.outbox r.1 ≡ v.outbox n)
  pub written :
      (s : String) (n : N)
      → (n' : N) × (line.write conn s n ≡ (none, n'))
        × (v.inbox n' ≡ v.inbox n)
        × (v.outbox n' ≡ v.outbox n ++ (s ∷ []))
  pub tick_silent :
      (n : N) → (v.inbox (line.tick n).1 ≡ v.inbox n) × (v.outbox (line.tick n).1 ≡ v.outbox n)
  pub close_silent : (n : N) → v.outbox (line.close conn n).1 ≡ v.outbox n

module _ {Con N : Type 0} (line : Line Con N) (conn : Con) (v : View N)
    (r : IsReliable line conn v) where
  echoes :
      (fuel : ℕ) (lines : List String) (n : N)
      → v.inbox n ≡ lines
      → length lines < fuel
      → (e : Error) × (n' : N) × (server_rounds line conn fuel n ≡ (some e, n'))
        × (v.outbox n' ≡ v.outbox n ++ lines)
  unfolding server_rounds
  echoes zero lines n h enough = absurd (omega arith)
  echoes (suc fuel) [] n h enough =
      let (((s, e), n'), read, out) = r.no_line n h in
      (e, n', ap (heard line conn (server_rounds line conn fuel)) read, out ∙ sym (append-nil _))
  echoes (suc fuel) (s ∷ lines) n h enough =
      let (n1, read, left, out1) = r.next_line n s lines h in
      let (n2, wrote, left2, out2) = r.written s n1 in
      let (e, n', ended, out) = echoes fuel lines n2 (left2 ∙ left) (omega arith) in
      (
        e,
        n',
        ap (heard line conn (server_rounds line conn fuel)) read
            ∙ ap (answered line conn (server_rounds line conn fuel)) wrote
            ∙ ended,
        out
            ∙ ap (λ o. o ++ lines) (out2 ∙ ap (λ o. o ++ (s ∷ [])) out1)
            ∙ append_assoc (v.outbox n) (s ∷ []) lines,
      )

  -- Over a connection that works until its peer has no more to say, `serverWorker` ends after more
  -- rounds than the peer has lines, and it has then answered each line of the peer with the same line, in order, and nothing else.
  pub server_worker_echoes :
      (fuel : ℕ) (n : N)
      → length (v.inbox n) < fuel
      → (e : Error) × (n' : N) × (server_worker line conn fuel n ≡ (some e, n'))
        × (v.outbox n' ≡ v.outbox n ++ v.inbox n)
  unfolding server_worker
  server_worker_echoes fuel n enough =
      let (e, n', ended, out) = echoes fuel (v.inbox n) n refl enough in
      (e, (line.close conn n').1, ap (closed line conn) ended, r.close_silent n' ∙ out)

  asks :
      (fuel : ℕ) (lines : List String) (request : String) (n : N)
      → v.inbox n ≡ lines
      → length lines < fuel
      → (n' : N) × (worker_rounds line conn fuel request n ≡ (some none, n'))
        × (length (v.outbox n') ≡ length (v.outbox n) + length lines + 1)
  unfolding worker_rounds
  asks zero lines request n h enough = absurd (omega arith)
  asks (suc fuel) [] request n h enough =
      let (n1, wrote, left, out1) = r.written request n in
      let (((s, e), n2), read, out2) = r.no_line n1 (left ∙ h) in
      (
        n2,
        ap (requested line conn (worker_rounds line conn fuel)) wrote
            ∙ ap (responded line conn (worker_rounds line conn fuel)) read,
        ap length (out2 ∙ out1) ∙ length_append (v.outbox n) (request ∷ []) ∙ omega arith,
      )
  asks (suc fuel) (s ∷ lines) request n h enough =
      let (n1, wrote, left1, out1) = r.written request n in
      let (n2, read, left2, out2) = r.next_line n1 s lines (left1 ∙ h) in
      let n3 = (line.tick n2).1 in
      let (left3, out3) = r.tick_silent n2 in
      let (n', ended, out) =
        asks fuel lines (str_append (line.tick n2).0 "\n") n3 (left3 ∙ left2) (omega arith) in
      let grown = ap length (out3 ∙ out2 ∙ out1) ∙ length_append (v.outbox n) (request ∷ []) in
      (
        n',
        ap (requested line conn (worker_rounds line conn fuel)) wrote
            ∙ ap (responded line conn (worker_rounds line conn fuel)) read
            ∙ ended,
        omega arith,
      )

  -- Over a connection that works until its peer has no more to say, `worker` ends after more rounds
  -- than the peer has lines, having written one line more than it read; and although
  -- only a failed read has ended it, the error that it logs is nil.
  pub worker_logs_nil :
      (fuel : ℕ) (n : N)
      → length (v.inbox n) < fuel
      → (n' : N) × (worker line conn fuel n ≡ (some none, n'))
        × (length (v.outbox n') ≡ length (v.outbox n) + length (v.inbox n) + 1)
  unfolding worker
  worker_logs_nil fuel n enough =
      let (n', ended, out) = asks fuel (v.inbox n) "Hello!\n" n refl enough in
      ((line.close conn n').1, ap (hung_up line conn) ended, ap length (r.close_silent n') ∙ out)
