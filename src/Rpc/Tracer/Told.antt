-- ===== src/Rpc/Tracer/Told.antt =====
-- What the daemon's tracer is told of the events outside a connection. The address of an event is an
-- interface value, which gob sends only if the type behind it was registered; the repository registers
-- none.
use panapi.Prelude.{
  ℕ, String, Option, none, some, List, ◌≡◌, refl, ◌∙◌, str_eq, if◌then◌else◌, inl, inr,
  Option-cases, Bool-cases,
}
use panapi.Golang.{Error, Err, Run, returns, panics, exits}
use panapi.Pan.{Pan}
use panapi.Rpc.ConnectionTracer.{Quic}
use panapi.Rpc.SelectorServer.{err_deref}
use panapi.Rpc.Loopback.{World, over_wire, err_shutdown, err_unexpected_eof}
use panapi.Rpc.Tracer.{
  Tracer, TracerMsg, receive_sent_packet, receive_dropped_packet, send_sent_packet,
  send_dropped_packet,
}

-- What gob makes of a message: the message that arrives, or `none` if it refuses to send it, and the
-- error and the state of the connection after that.
pub record Gob (pan : Pan) (quic : Quic pan) (Addr T : Type 0) : Type 0 where
  pub wire : TracerMsg pan quic Addr → Option (TracerMsg pan quic Addr)
  pub refusal : Error
  pub refused : World T → World T

-- What gob documents, where no type was registered: a message with a value behind an interface is
-- refused, and the daemon does not see it; nil stays nil.
pub record IsDocumented {pan : Pan} {quic : Quic pan} {Addr T : Type 0} (gob : Gob pan quic Addr T)
    : Type 0 where
  pub unregistered :
      (m : TracerMsg pan quic Addr) (addr : Addr) → m.addr ≡ some addr → gob.wire m ≡ none
  pub nil_stays :
      (m m' : TracerMsg pan quic Addr) → m.addr ≡ none → gob.wire m ≡ some m' → m'.addr ≡ none
  pub unseen : (w : World T) → (gob.refused w).daemon ≡ w.daemon

module _ (pan : Pan) (quic : Quic pan) (Addr : Type 0) {T : Type 0}
    (tracer : Tracer pan quic Addr T) (gob : Gob pan quic Addr T) where
  unfoldable pub find_method : String → Option (TracerMsg pan quic Addr → T → Run (Err × T))
  find_method name =
      if str_eq name "TracerServer.SentPacket"
      then some (receive_sent_packet pan quic Addr tracer)
      else if str_eq name "TracerServer.DroppedPacket"
      then some (receive_dropped_packet pan quic Addr tracer)
      else none

  abbrev pub outcome : Run (Err × T) → World T → Err × World T
  outcome (returns (none, t)) w = (none, record w { daemon = some t })
  outcome (returns (some e, t)) w = (some (over_wire e), record w { daemon = some t })
  outcome panics w = (some err_unexpected_eof, record w { daemon = none })
  outcome exits w = (some err_unexpected_eof, record w { daemon = none })

  abbrev pub deliver :
      Option (TracerMsg pan quic Addr → T → Run (Err × T))
      → Option (TracerMsg pan quic Addr)
      → Option T
      → World T
      → Err × World T
  deliver handler none t w = (some gob.refusal, gob.refused w)
  deliver handler (some args) none w = (some err_shutdown, w)
  deliver none (some args) (some t) w = (some (Error.foreign "rpc: can't find method"), w)
  deliver (some handler) (some args) (some t) w = outcome (handler args t) w

  unfoldable pub call : String → TracerMsg pan quic Addr → World T → Err × World T
  unfolding find_method
  call name args w =
      if w.connected
      then deliver (find_method name) (gob.wire args) w.daemon w
      else (some err_shutdown, w)

  without_address :
      (args : TracerMsg pan quic Addr) (t : T)
      → args.addr ≡ none
      → (receive_sent_packet pan quic Addr tracer args t ≡ returns (some err_deref, t))
        × (receive_dropped_packet pan quic Addr tracer args t ≡ returns (some err_deref, t))
  unfolding receive_sent_packet receive_dropped_packet
  without_address args t h = (rw h refl, rw h refl)

  -- a handler that leaves the state alone when it is given a message without an address
  abbrev Refuses : (TracerMsg pan quic Addr → T → Run (Err × T)) → Type 0
  Refuses handler =
      (args : TracerMsg pan quic Addr) (t : T)
      → args.addr ≡ none
      → handler args t ≡ returns (some err_deref, t)

  refused-deliver :
      (handler : TracerMsg pan quic Addr → T → Run (Err × T)) (args : TracerMsg pan quic Addr)
      (w : World T) (t : T)
      → Refuses handler
      → args.addr ≡ none
      → w.daemon ≡ some t
      → (deliver (some handler) (some args) w.daemon w).1.daemon ≡ some t
  refused-deliver handler args w t refuses h here = rw (here, refuses args t h) refl

  arrived :
      (doc : IsDocumented gob) (handler : TracerMsg pan quic Addr → T → Run (Err × T))
      (args : TracerMsg pan quic Addr) (w : World T) (t : T)
      → Refuses handler
      → w.daemon ≡ some t
      → (deliver (some handler) (gob.wire args) w.daemon w).1.daemon ≡ some t
  arrived doc handler args w t refuses here = elim (Option-cases (gob.wire args)) [
    | inl stopped ↦ rw stopped (doc.unseen w ∙ here)
    | inr (m, sent) ↦ elim (Option-cases args.addr) [
      | inl nil ↦
          rw sent (refused-deliver handler m w t refuses (doc.nil_stays args m nil sent) here)
      | inr (addr, given) ↦ rw (doc.unregistered args addr given) (doc.unseen w ∙ here)
    ]
  ]

  called :
      (handler : TracerMsg pan quic Addr → T → Run (Err × T)) (name : String)
      (args : TracerMsg pan quic Addr) (w : World T) (t : T)
      → find_method name ≡ some handler
      → (deliver (some handler) (gob.wire args) w.daemon w).1.daemon ≡ some t
      → w.daemon ≡ some t
      → (call name args w).1.daemon ≡ some t
  unfolding call
  called handler name args w t found there here = elim (Bool-cases w.connected) [
    | inl on ↦ simp (on, found, there)
    | inr off ↦ simp (off, here)
  ]

  -- No type behind an interface being registered with gob, an event outside a connection never
  -- reaches the daemon's tracer, whose state it leaves as it was: with an address, gob refuses to send
  -- the message, and without one, the handler refuses what arrives.
  pub never_told :
      (doc : IsDocumented gob) (id : ℕ) (addr : Option Addr) (hdr : Option quic.Header) (n : ℕ)
      (fs : List quic.Frame) (packet_type reason : ℕ) (w : World T) (t : T)
      → w.daemon ≡ some t
      → ((send_sent_packet pan quic Addr call id addr hdr n fs w).daemon ≡ some t)
        × ((send_dropped_packet pan quic Addr call id addr packet_type n reason w).daemon ≡ some t)
  unfolding send_sent_packet send_dropped_packet find_method
  never_told doc id addr hdr n fs packet_type reason w t here =
      let sent = receive_sent_packet pan quic Addr tracer in
      let dropped = receive_dropped_packet pan quic Addr tracer in
      (
        called sent "TracerServer.SentPacket" _ w t refl
            (arrived doc sent _ w t (λ m s h. (without_address m s h).0) here) here,
        called dropped "TracerServer.DroppedPacket" _ w t refl
            (arrived doc dropped _ w t (λ m s h. (without_address m s h).1) here) here,
      )
