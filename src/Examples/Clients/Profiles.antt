-- ===== src/Examples/Clients/Profiles.antt =====
-- The profiles that a client of pingpong goes through.
use Prim.Native.Nat.{◌%◌, ◌/◌}
use panapi.Prelude.{
  ℕ, zero, suc, ◌+◌, ◌<◌, String, none, some, Bool, true, false, ◌==◌, ltb, update, ◌&&◌,
  if◌then◌else◌, ◌≡◌, sym, ap, ◌∙◌, arith,
}
use panapi.Golang.{Err, Run, returns, >>=-eq-returns}
use panapi.Taps.Preferences.{ConnectionPreferences}
use panapi.Taps.Enums.{default_profile, scavenger, low_latency_non_interactive}
use panapi.Taps.Heap.{Heap}
use panapi.Taps.Preconnection.{Protocol, set_preferences}
use panapi.Examples.Workers.{Line}
use panapi.Examples.Clients.{State, switch, switched, exchange, proceed, client_rounds}

-- the profile after `k` rounds, of a client that began with `first`
abbrev pub profile_after : ℕ → ℕ → ℕ
profile_after first k =
    if ltb k 10 then first else if (k / 10) % 2 == 0 then scavenger else low_latency_non_interactive

-- the profile in the round `i`, by the one before
abbrev next : ℕ → ℕ → ℕ
next i profile =
    if i % 10 == 0 then if i % 20 == 0 then scavenger else low_latency_non_interactive else profile

next_profile : (first k : ℕ) → profile_after first (k + 1) ≡ next (k + 1) (profile_after first k)
next_profile first k = ground arith

zero_add : (i : ℕ) → 0 + i ≡ i
zero_add i = omega arith

add_zero : (i : ℕ) → i + 0 ≡ i
add_zero i = omega arith

returned : {A : Type 0} (x y : A) → ◌≡◌ {A = Run A} (returns x) (returns y) → x ≡ y
returned x y h = cc

written :
    (preferences : ℕ → ConnectionPreferences) (a new : ℕ)
    → (update preferences a
        (record (preferences a) { conn_capacity_profile = new })
        a).conn_capacity_profile
      ≡ new
written preferences a new = ground arith

module _ {Proto Key N Lis Con Sel : Type 0} (protocol : Protocol Proto Key N Lis Con Sel)
    (line : Line Con N) (now : N → String) (parse : String → Err) (conn : Con) (p a : ℕ) where
  abbrev profile : State protocol → ℕ
  profile s = (s.0.preferences a).conn_capacity_profile

  switch-profile :
      (b : Bool) (new : ℕ) (s s' : State protocol)
      → switch protocol line now parse conn p a true (b && true) new s ≡ returns s'
      → profile s' ≡ (if b then new else profile s)
  switch-profile true new s s' h =
      let h' = record s.0 {
        preferences =
            update s.0.preferences a (record (s.0.preferences a) { conn_capacity_profile = new });
      } in
      let (r, _, same) =
        >>=-eq-returns (set_preferences protocol p (some (h'.preferences a)) h' s.1)
          (λ r. returns (h', r.1)) h in
      ap profile (returned s' (h', r.1) (sym same)) ∙ written s.0.preferences a new
  switch-profile false new s s' h = ap profile (returned s' s (sym h))

  snd_eq :
      (x y : State protocol)
      → ◌≡◌ {A = Run (Err × State protocol)} (returns (none, x)) (returns (none, y))
      → x ≡ y
  snd_eq x y h = cc

  goes_on :
      (go : State protocol → Run (Err × State protocol)) (h : Heap Proto Key) (o : Err × N)
      (s' : State protocol)
      → proceed protocol line now parse conn p a true go h o ≡ returns (none, s')
      → (n : N) × (go (h, n) ≡ returns (none, s'))
  goes_on go h (some e, n) s' run = cc
  goes_on go h (none, n) s' run = (n, run)

  switched-profile :
      (i : ℕ) (s s' : State protocol)
      → switched protocol line now parse conn p a true i s ≡ returns s'
      → profile s' ≡ next i (profile s)
  unfolding switched
  switched-profile i s s' h = switch-profile (i % 10 == 0) _ s s' h

  rounds-profile :
      (fuel i first : ℕ) (s s' : State protocol)
      → i + fuel < 18446744073709551616
      → profile s ≡ profile_after first i
      → client_rounds protocol line now parse conn p a true fuel i s ≡ returns (none, s')
      → profile s' ≡ profile_after first (i + fuel)
  unfolding client_rounds
  rounds-profile zero i first s s' small h run =
      cc (ap profile (snd_eq s' s (sym run)), h, add_zero i)
  rounds-profile (suc fuel) i first s s' small h run =
      let i' = (i + 1) % 18446744073709551616 in
      let (s1, switches, exchanges) =
        >>=-eq-returns (switched protocol line now parse conn p a true i' s)
          (λ s1.
            proceed protocol line now parse conn p a true
              (client_rounds protocol line now parse conn p a true fuel i') s1.0
              (exchange protocol line now parse conn p a true s1.1))
          run in
      let (n, continues) =
        goes_on (client_rounds protocol line now parse conn p a true fuel i') s1.0
          (exchange protocol line now parse conn p a true s1.1) s' exchanges in
      let wrap : i' ≡ i + 1 = omega arith in
      let stepped : profile s1 ≡ profile_after first i' =
        switched-profile i' s s1 switches
        ∙ ap (next i') h
        ∙ ap (λ j. next j (profile_after first i)) wrap
        ∙ sym (next_profile first i)
        ∙ ap (profile_after first) (sym wrap) in
      let counted : i' + fuel ≡ i + suc fuel = omega arith in
      rounds-profile fuel i' first (s1.0, n) s' (omega arith) stepped continues
      ∙ ap (profile_after first) counted

  -- In a client of pingpong that began with the default profile, has exchanged fewer than 2 ^ 64
  -- lines and still runs, the preferences name the default profile for the first nine rounds, and from then on, ten
  -- rounds each, the non-interactive low latency and the scavenger in turn.
  pub client_switches :
      (fuel : ℕ) (s s' : State protocol)
      → fuel < 18446744073709551616
      → profile s ≡ default_profile
      → client_rounds protocol line now parse conn p a true fuel 0 s ≡ returns (none, s')
      → profile s' ≡ profile_after default_profile fuel
  client_switches fuel s s' small begins runs =
      rounds-profile fuel 0 default_profile s s' (omega arith) begins runs
      ∙ ap (profile_after default_profile) (zero_add fuel)
