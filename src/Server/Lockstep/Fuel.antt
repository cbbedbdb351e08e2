-- ===== src/Server/Lockstep/Fuel.antt =====
-- The loop of `exchange` ends: each round takes a connection, or bytes of the one it has.
use mathlib.Core.Path.{subst}
use ertw.Interface.Action.{ActionTensor}
use ertw.Server.Lockstep.Attempt.{attempt-Attempted, Attempted}
use ertw.Interface.Observation.{ObservationTensor}
use ertw.Server.Connection.{Connection}
use ertw.Server.Lockstep.{is_disconnect, ObservationExtension, is_invalid, Json}
use ertw.Server.Lockstep.Ready.{
  rounds_left, supply, reserve, IsHonest, IsHonestAccept, IsHonestTransport, IsSettled, IsReady,
  ready_on-IsReady,
}
use ertw.Server.Lockstep.Transport.{
  attempt, Run, post, Transport, ready, emit_lifecycle, exchange, round, conclude, around, retry,
  out_of_fuel, panicked, waiting, finished,
}
use ertw.Server.Stream.{ErrorKind, Result, ok, err, invalid_data}
use ertw.Common.{
  inr, inl, Bool-cases, if_both, if◌then◌else◌, ◌+◌, sym, suc, arith, ◌≢◌, ◌≤◌, All, length, true,
  ◌<◌, ◌≡◌, Option, ℕ, none, some, refl, zero,
}

module _ (json : Json) where
  -- What goes around again is honest and has fewer rounds left.
  abbrev IsShorter : ℕ → Option Transport → Type 0
  IsShorter n none = Unit
  IsShorter n (some t) = IsHonestTransport t × (rounds_left t < n)

  attempt-IsHonest :
      {A : Type 0} (c : Connection) (m : Result A × Connection)
      → Attempted c m
      → IsHonest c
      → IsHonest m.1
  attempt-IsHonest c m k h = (
    subst (λ r. r ≢ invalid_data) (sym k.same_refusal) (h.0),
    subst (λ e. e ≢ invalid_data) (sym k.later.0) (h.1),
  )

  invalid-eq : (e : ErrorKind) → is_invalid e ≡ true → e ≡ invalid_data
  unfolding is_invalid
  invalid-eq e h = ground arith

  -- An error that is no fault of the connection came with bytes.
  invalid_takes :
      (c c' : Connection) (e : ErrorKind)
      → IsHonest c
      → Attempted {A = ActionTensor} c (err e, c')
      → e ≡ invalid_data
      → length c'.stream.incoming < length c.stream.incoming
  invalid_takes c c' e h m i = ground (arith, m.takes, h.0, h.1)

  go_around :
      (obs : ObservationTensor) (e : ErrorKind) (t : Transport) (c c' : Connection)
      → IsHonest c
      → All IsHonestAccept t.accepts
      → Attempted {A = ActionTensor} c (err e, c')
      → IsShorter
          (suc (length c.stream.incoming) + reserve t.accepts)
          (if is_invalid e then some (record t { connection = some c' }) else none)
  unfolding rounds_left supply
  go_around obs e t c c' h a m = elim (Bool-cases (is_invalid e)) [
    | inl i ↦
        let less = invalid_takes c c' e h m (invalid-eq e i) in
        rw i (
          record { accepts_honest = a; now_honest = attempt-IsHonest c (err e, c') m h },
          omega (arith, less),
        )
    | inr i ↦ rw i tt
  ]

  retry-IsShorter :
      (obs : ObservationTensor) (e : ErrorKind) (t : Transport) (c c' : Connection)
      → IsHonest c
      → All IsHonestAccept t.accepts
      → Attempted {A = ActionTensor} c (err e, c')
      → IsShorter
          (suc (length c.stream.incoming) + reserve t.accepts)
          (retry json obs e (record t { connection = some c' }))
  unfolding retry emit_lifecycle post rounds_left supply
  retry-IsShorter obs e t c c' h a m =
      if_both (IsShorter (suc (length c.stream.incoming) + reserve t.accepts)) (is_disconnect e)
        (record { accepts_honest = a; now_honest = tt }, omega arith) (go_around obs e t c c' h a m)

  more_rounds : (m n : ℕ) (o : Option Transport) → m ≤ n → IsShorter m o → IsShorter n o
  more_rounds m n none le s = tt
  more_rounds m n (some t) le s = (s.0, omega (arith, s.1))

  around-IsSettled :
      (n : ℕ) (e : ErrorKind) (t : Transport)
      (again : Transport → Run (Result ActionTensor × Transport)) (o : Option Transport)
      → IsShorter n o
      → ((t' : Transport) → IsHonestTransport t' → rounds_left t' < n → IsSettled (again t'))
      → IsSettled (around json e t again o)
  unfolding around
  around-IsSettled n e t again none s k = tt
  around-IsSettled n e t again (some t') s k = k t' s.0 s.1

  conclude-IsSettled :
      (n : ℕ) (obs : ObservationTensor) (r : Result ActionTensor) (t : Transport)
      (again : Transport → Run (Result ActionTensor × Transport))
      → ((e : ErrorKind) → r ≡ err e → IsShorter n (retry json obs e t))
      → ((t' : Transport) → IsHonestTransport t' → rounds_left t' < n → IsSettled (again t'))
      → IsSettled (conclude json obs r t again)
  unfolding conclude
  conclude-IsSettled n obs (ok action) t again h k = tt
  conclude-IsSettled n obs (err e) t again h k =
      around-IsSettled n e t again (retry json obs e t) (h e refl) k

  round-IsSettled :
      (n : ℕ) (obs : ObservationTensor) (extension : ObservationExtension)
      (again : Transport → Run (Result ActionTensor × Transport))
      (run : Run (Result (Unit {0}) × Transport))
      → IsReady n run
      → ((t' : Transport) → IsHonestTransport t' → rounds_left t' < n → IsSettled (again t'))
      → IsSettled (round json obs extension again run)
  unfolding round
  round-IsSettled n obs extension again waiting h k = tt
  round-IsSettled n obs extension again panicked h k = elim h [ ]
  round-IsSettled n obs extension again out_of_fuel h k = elim h [ ]
  round-IsSettled n obs extension again (finished (err e, t)) h k = tt
  round-IsSettled n obs extension again (finished (ok u, t)) h k =
      let c = h.0 in
      let m = attempt json t.config obs extension c in
      let whole = attempt-Attempted json t.config obs extension c in
      rw (h.1) (
        conclude-IsSettled n obs (m.0) (record t { connection = some (m.1) }) again
          (λ e q. more_rounds _ n _ (h.4) (
            retry-IsShorter obs e t c (m.1) (h.2) (h.3)
              (subst (λ r. Attempted c (r, m.1)) q whole)))
          k)

  -- With more fuel than the connections can feed rounds, the exchange ends or waits for a peer; it
  -- neither panics nor runs out.
  pub exchange-IsSettled :
      (fuel : ℕ) (obs : ObservationTensor) (extension : ObservationExtension) (t : Transport)
      → IsHonestTransport t
      → rounds_left t < fuel
      → IsSettled (exchange json fuel obs extension t)
  unfolding exchange ready
  exchange-IsSettled zero obs extension t h le = ground (arith, le)
  exchange-IsSettled (suc fuel) obs extension t h le =
      round-IsSettled (rounds_left t) obs extension (exchange json fuel obs extension) _
        (ready_on-IsReady json t.connection t obs.step refl h)
        (λ t' h' less. exchange-IsSettled fuel obs extension t' h' (omega (arith, less, le)))
