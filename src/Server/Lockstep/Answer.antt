-- ===== src/Server/Lockstep/Answer.antt =====
-- What an exchange may return.
use mathlib.Core.Path.{subst}
use ertw.Server.Frame.{decode_action}
use ertw.Server.Connection.{and_then, Connection, receive_frame}
use ertw.Server.Connection.Laws.{and_then-Written, write_all-Written, Written}
use ertw.Server.Lockstep.Peers.{
  IsFollowed, IsFromPeer, IsReadied, ready-IsReadied, IsFollowedBy, retry-IsFollowedBy,
}
use ertw.Server.Stream.Suffix.{IsEnd, IsEnd-refl, IsEnd-trans, read_frame-IsEnd}
use ertw.Common.{
  none, ◌∙◌, arith, ◌&&◌, ◌==◌, inr, Bool-cases, refl, zero, inl, some, Option-cases, suc, Option,
  ◌≡◌, ℕ, List, sym,
}
use ertw.Interface.Action.{ActionTensor}
use ertw.Server.Lockstep.Transport.{
  read_answer, out_of_fuel, retry, panicked, ready, waiting, finished, Transport, around, exchange,
  round, conclude, attempt, judge_action, Run,
}
use ertw.Server.Stream.{read_frame, ok, Stream, err, Result}
use ertw.Server.Lockstep.{write_json_frame, LockstepConfig, ObservationExtension, Json}
use ertw.Interface.Observation.{ObservationTensor}

-- The next frame of the stream decodes to the action for this observation.
abbrev pub IsSaid : ObservationTensor → Stream → ActionTensor → Type 0
IsSaid obs s action =
    (frame : List ℕ) × ((read_frame s).0 ≡ ok frame)
    × (decode_action frame ≡ some (obs.step, obs.entity_id, action))

-- The connection after an attempt: a later state of the peer's stream, right behind the answer where
-- there is one.
abbrev IsHeard : ObservationTensor → Stream → Result ActionTensor × Connection → Type 0
IsHeard obs s (ok action, c) = IsSaid obs s action × (c.stream ≡ (read_frame s).1)
IsHeard obs s (err e, c) = IsEnd s.incoming c.stream.incoming

-- A peer of the transport sent the answer, and the transport holds its connection right behind it.
abbrev pub IsAnswered :
    ObservationTensor → Transport → Run (Result ActionTensor × Transport) → Type 0
IsAnswered obs t (finished (ok action, t')) =
    (s : Stream) × IsFromPeer t s.incoming
    × IsSaid obs s action
    × ((c : Connection) × (t'.connection ≡ some c) × (c.stream ≡ (read_frame s).1))
IsAnswered obs t (finished (err e, t')) = Unit
IsAnswered obs t waiting = Unit
IsAnswered obs t panicked = Unit
IsAnswered obs t out_of_fuel = Unit

followed-IsAnswered :
    (obs : ObservationTensor) (t t' : Transport) (run : Run (Result ActionTensor × Transport))
    → IsFollowed t t'
    → IsAnswered obs t' run
    → IsAnswered obs t run
followed-IsAnswered obs t t' (finished (ok action, u)) f h = (h.0, f (h.0).incoming h.1, h.2, h.3)
followed-IsAnswered obs t t' (finished (err e, u)) f h = tt
followed-IsAnswered obs t t' waiting f h = tt
followed-IsAnswered obs t t' panicked f h = tt
followed-IsAnswered obs t t' out_of_fuel f h = tt

module _ (json : Json) where
  judged-IsHeard :
      (obs : ObservationTensor) (c : Connection) (frame : List ℕ)
      (o : Option (ℕ × ℕ × ActionTensor))
      → (read_frame c.stream).0 ≡ ok frame
      → decode_action frame ≡ o
      → IsHeard obs c.stream
          (judge_action json obs o, record c { stream = (read_frame c.stream).1 })
  unfolding judge_action
  judged-IsHeard obs c frame none r d = read_frame-IsEnd c.stream
  judged-IsHeard obs c frame (some (step, entity, action)) r d =
      elim (Bool-cases (step == obs.step && (entity == obs.entity_id))) [
        | inl e ↦
            let here : (step ≡ obs.step) × (entity ≡ obs.entity_id) = ground arith in
            rw e ((frame, r, d ∙ rw (here.0, here.1) refl), refl)
        | inr e ↦ rw e (read_frame-IsEnd c.stream)
      ]

  read_answer-IsHeard :
      (obs : ObservationTensor) (c : Connection) → IsHeard obs c.stream (read_answer json obs c)
  unfolding read_answer receive_frame
  read_answer-IsHeard obs c = of_result (read_frame c.stream).0 refl
    where
      of_result :
          (r : Result (List ℕ))
          → (read_frame c.stream).0 ≡ r
          → IsHeard obs c.stream (
              and_then
                (r, record c { stream = (read_frame c.stream).1 })
                (λ frame c'. (judge_action json obs (decode_action frame), c')))
      of_result (err e) h = read_frame-IsEnd c.stream
      of_result (ok frame) h = judged-IsHeard obs c frame (decode_action frame) h refl

  and_then-IsHeard :
      (obs : ObservationTensor) (c : Connection) (m : Result (Unit {0}) × Connection)
      → Written c m
      → IsHeard obs c.stream (and_then m (λ _. read_answer json obs))
  and_then-IsHeard obs c (ok u, c') w =
      subst (λ s. IsHeard obs s (read_answer json obs c')) w.same_stream
        (read_answer-IsHeard obs c')
  and_then-IsHeard obs c (err e, c') w =
      subst (λ s. IsEnd s.incoming c'.stream.incoming) w.same_stream (IsEnd-refl c'.stream.incoming)

  attempt-IsHeard :
      (config : LockstepConfig) (obs : ObservationTensor) (extension : ObservationExtension)
      (c : Connection)
      → IsHeard obs c.stream (attempt json config obs extension c)
  unfolding attempt write_json_frame
  attempt-IsHeard config obs extension c = and_then-IsHeard obs c _ (
      and_then-Written c _ _ (write_all-Written _ c)
        (λ c1. and_then-Written c1 _ _ (write_all-Written _ c1) (λ c2. write_all-Written _ c2)))

  moved-IsFollowed :
      (t : Transport) (c c' : Connection)
      → t.connection ≡ some c
      → IsEnd c.stream.incoming c'.stream.incoming
      → IsFollowed t (record t { connection = some c' })
  moved-IsFollowed t c c' now e bytes (inl h) =
      inl (rw now (IsEnd-trans c.stream.incoming c'.stream.incoming bytes e h))
  moved-IsFollowed t c c' now e bytes (inr h) = inr h

  around-IsAnswered :
      (obs : ObservationTensor) (t : Transport)
      (again : Transport → Run (Result ActionTensor × Transport))
      (m : Result ActionTensor × Connection) (c : Connection)
      → t.connection ≡ some c
      → IsHeard obs c.stream m
      → ((t' : Transport) → IsAnswered obs t' (again t'))
      → IsAnswered obs t (conclude json obs m.0 (record t { connection = some m.1 }) again)
  unfolding conclude around
  around-IsAnswered obs t again (ok action, c') c now h k =
      (c.stream, inl (rw now (IsEnd-refl c.stream.incoming)), h.0, (c', refl, h.1))
  around-IsAnswered obs t again (err e, c') c now h k =
      let u : Transport = record t { connection = some c' } in
      let f = retry-IsFollowedBy json obs e u in
      elim (Option-cases (retry json obs e u)) [
        | inl n ↦ rw n tt
        | inr (t', n) ↦ rw n (
            followed-IsAnswered obs t u (again t') (moved-IsFollowed t c c' now h)
              (followed-IsAnswered obs u t' (again t') (subst (IsFollowedBy json u) n f) (k t')))
      ]

  round-IsAnswered :
      (obs : ObservationTensor) (extension : ObservationExtension)
      (again : Transport → Run (Result ActionTensor × Transport)) (t : Transport)
      (run : Run (Result (Unit {0}) × Transport))
      → IsReadied json t run
      → ((t' : Transport) → IsAnswered obs t' (again t'))
      → IsAnswered obs t (round json obs extension again run)
  unfolding round
  round-IsAnswered obs extension again t waiting f k = tt
  round-IsAnswered obs extension again t panicked f k = tt
  round-IsAnswered obs extension again t out_of_fuel f k = tt
  round-IsAnswered obs extension again t (finished (err e, u)) f k = tt
  round-IsAnswered obs extension again t (finished (ok x, u)) f k =
      elim (Option-cases u.connection) [
        | inl n ↦
            let eq : round json obs extension again (finished (ok x, u)) ≡ panicked =
              ground (arith, n) in
            subst (IsAnswered obs t) (sym eq) tt
        | inr (c, n) ↦
            let m = attempt json u.config obs extension c in
            let eq : round json obs extension again (finished (ok x, u))
                ≡ conclude json obs m.0 (record u { connection = some m.1 }) again =
              ground (arith, n) in
            subst (IsAnswered obs t) (sym eq) (
              followed-IsAnswered obs t u _ f
                (around-IsAnswered obs u again m c n (attempt-IsHeard u.config obs extension c) k))
      ]

  -- An action that an exchange returns was sent by the peer of the transport's connection or of one
  -- that it accepted, in a frame of its own, for the step and the entity of this very observation; the
  -- transport holds that peer's connection, read up to behind that frame.
  pub exchange-IsAnswered :
      (fuel : ℕ) (obs : ObservationTensor) (extension : ObservationExtension) (t : Transport)
      → IsAnswered obs t (exchange json fuel obs extension t)
  unfolding exchange
  exchange-IsAnswered zero obs extension t = tt
  exchange-IsAnswered (suc fuel) obs extension t =
      round-IsAnswered obs extension (exchange json fuel obs extension) t (ready json t obs.step)
        (ready-IsReadied json t obs.step) (λ t'. exchange-IsAnswered fuel obs extension t')
