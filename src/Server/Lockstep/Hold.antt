-- ===== src/Server/Lockstep/Hold.antt =====
-- A decision is held for its ticks, and what a failed exchange does.
use ertw.Server.Lockstep.Kept.{exchange-IsKept, IsKept}
use ertw.Server.Lockstep.Fuel.{exchange-IsSettled}
use ertw.Server.Lockstep.Ready.{rounds_left, IsHonestTransport, IsSettled}
use mathlib.Core.Path.{subst}
use ertw.Server.Stream.{err, read_frame, ok, ErrorKind, Result}
use ertw.Interface.Session.{PhysicalDelta}
use ertw.Server.Connection.{Connection, receive_frame}
use ertw.Interface.Action.{default_action, ActionTensor}
use native.Mathlib.Numerals.{unary_clauses}
use ertw.Server.Lockstep.Transport.{
  out_of_fuel, waiting, panicked, resolve, round, judge_frame, Transport, resume_from,
  accept_resume, ready_on, finished, ready, exchange, Run,
}
use ertw.Interface.Observation.{ObservationTensor}
use ertw.Server.Lockstep.Agent.{
  action_or_default, extension_of, physical_of, take_action, map_run, decide, hold_action, and_next,
  act_lockstep, LockstepAgent,
}
use ertw.Common.{
  ◌<◌, ltb, if◌then◌else◌, ◌∙◌, ap, sym, refl, arith, none, some, ◌+◌, ◌^◌, min, replicate, [], ◌-◌,
  ◌∷◌, ◌≤◌, suc, length, ◌≡◌, List, ℕ,
}
use ertw.Server.Lockstep.{ObservationExtension, ticks_of, Json}

-- `act`, tick after tick, as the world calls it.
unfoldable pub act_ticks :
    Json → ℕ → LockstepAgent → List ObservationTensor → Run (LockstepAgent × List ActionTensor)
act_ticks json fuel a [] = finished (a, [])
act_ticks json fuel a (obs ∷ observations) =
    and_next (act_lockstep json fuel a obs) (λ a'. act_ticks json fuel a' observations)

-- What a tick comes to on which a decision is due.
abbrev pub IsDecided : LockstepAgent → Run (LockstepAgent × ActionTensor) → Type 0
IsDecided a (finished (a', action)) =
    (a'.held_action ≡ action)
    × (suc a'.remaining_ticks ≡ ticks_of a.transport.config)
    × (a'.transport.config ≡ a.transport.config)
    × (a'.decision_sequence ≡ min (2 ^ 64 - 1) (a.decision_sequence + 1))
IsDecided a waiting = Unit
IsDecided a panicked = ⊥
IsDecided a out_of_fuel = ⊥

module _ (json : Json) (fuel : ℕ) where
  held :
      (a : LockstepAgent) (obs : ObservationTensor) (k : ℕ)
      → a.remaining_ticks ≡ suc k
      → act_lockstep json fuel a obs
        ≡ finished (record a { remaining_ticks = k }, record (a.held_action) { fabricate = 0 })
  unfolding act_lockstep hold_action
  held a obs k e = ground (arith, e)

  -- While ticks of a decision remain, each tick gives the action that is held, without a second
  -- fabrication, and touches neither the connection nor the count of decisions.
  pub act_ticks_held :
      (observations : List ObservationTensor) (a : LockstepAgent)
      → length observations ≤ a.remaining_ticks
      → act_ticks json fuel a observations
        ≡ finished (
          record a { remaining_ticks = a.remaining_ticks - length observations },
          replicate (length observations) (record (a.held_action) { fabricate = 0 }),
        )
  unfolding act_ticks and_next map_run
  act_ticks_held [] a le = simp unary_clauses refl
  act_ticks_held (obs ∷ observations) a le =
      let k : ℕ = a.remaining_ticks - 1 in
      let e : a.remaining_ticks ≡ suc k = omega arith in
      let a' : LockstepAgent = record a { remaining_ticks = k } in
      let ih = act_ticks_held observations a' (omega (arith, le, e)) in
      let left = record (a.held_action) { fabricate = 0 } in
      ap (λ m. and_next m (λ b. act_ticks json fuel b observations)) (held a obs k e)
      ∙ ap (map_run (λ r. (r.0, left ∷ r.1))) ih
      ∙ ap
          (λ (n : ℕ).
            finished
              (record a { remaining_ticks = n }, left ∷ replicate (length observations) left))
          (omega arith)

  taken-IsDecided :
      (a : LockstepAgent) (physical : PhysicalDelta) (m : Run (Result ActionTensor × Transport))
      → IsSettled m
      → IsKept a.transport.config m
      → IsDecided a (map_run (take_action a physical) m)
  unfolding map_run take_action ticks_of
  taken-IsDecided a physical (finished (r, t)) h k = (refl, rw (← k) (omega arith), k, refl)
  taken-IsDecided a physical waiting h k = tt
  taken-IsDecided a physical panicked h k = h
  taken-IsDecided a physical out_of_fuel h k = h

  at_zero :
      (a : LockstepAgent) (obs : ObservationTensor)
      → a.remaining_ticks ≡ 0
      → act_lockstep json fuel a obs ≡ decide json fuel a obs (physical_of obs)
  unfolding act_lockstep
  at_zero a obs z = ground (arith, z)

  -- With more fuel than the connections can feed rounds, a tick on which a decision is due waits for
  -- a peer or ends; where it ends, its action is held for all the ticks that the session configures,
  -- the configuration is what it was, and the count of decisions goes up by one, short of overflow.
  pub act_lockstep-IsDecided :
      (a : LockstepAgent) (obs : ObservationTensor) (physical : PhysicalDelta)
      → a.remaining_ticks ≡ 0
      → physical_of obs ≡ some physical
      → IsHonestTransport a.transport
      → rounds_left a.transport < fuel
      → IsDecided a (act_lockstep json fuel a obs)
  unfolding decide
  act_lockstep-IsDecided a obs physical z p h le =
      subst (IsDecided a) (sym (at_zero a obs z ∙ ap (decide json fuel a obs) p)) (
        taken-IsDecided a physical _
          (exchange-IsSettled json fuel obs (extension_of a physical) a.transport h le)
          (exchange-IsKept json fuel obs (extension_of a physical) a.transport))

  resume_failed :
      (t : Transport) (world_tick : ℕ) (c : Connection) (accepts : List (Result Connection))
      (e : ErrorKind)
      → (read_frame c.stream).0 ≡ err e
      → resume_from json (ok c ∷ accepts) t world_tick
        ≡ finished (err e, record t { accepts = accepts })
  unfolding resume_from receive_frame judge_frame resolve
  resume_failed t world_tick c accepts e r = ground (arith, r)

  exchange_failed :
      (t : Transport) (obs : ObservationTensor) (extension : ObservationExtension) (c : Connection)
      (accepts : List (Result Connection)) (e : ErrorKind)
      → t.connection ≡ none
      → t.accepts ≡ ok c ∷ accepts
      → (read_frame c.stream).0 ≡ err e
      → exchange json (suc fuel) obs extension t ≡ finished (err e, record t { accepts = accepts })
  unfolding exchange ready ready_on accept_resume round
  exchange_failed t obs extension c accepts e n q r =
      let again = round json obs extension (exchange json fuel obs extension) in
      ap (λ o. again (ready_on json o t obs.step)) n
      ∙ ap (λ l. again (resume_from json l t obs.step)) q
      ∙ ap again (resume_failed t obs.step c accepts e r)

  -- Where the next peer to connect does not send a frame, the world goes on with the default action
  -- and does not wait for another peer.
  pub act_lockstep_unpaused :
      (a : LockstepAgent) (obs : ObservationTensor) (physical : PhysicalDelta) (c : Connection)
      (accepts : List (Result Connection)) (e : ErrorKind)
      → a.remaining_ticks ≡ 0
      → physical_of obs ≡ some physical
      → a.transport.connection ≡ none
      → a.transport.accepts ≡ ok c ∷ accepts
      → (read_frame c.stream).0 ≡ err e
      → (a' : LockstepAgent) × (act_lockstep json (suc fuel) a obs ≡ finished (a', default_action))
        × (a'.transport.accepts ≡ accepts)
  unfolding act_lockstep decide map_run take_action action_or_default
  act_lockstep_unpaused a obs physical c accepts e z p n q r =
      let m : Result ActionTensor × Transport =
        (err e, record (a.transport) { accepts = accepts }) in
      (
        (take_action a physical m).0,
        ap
              (λ (k : ℕ).
                if ltb 0 k
                then finished (hold_action a)
                else decide json (suc fuel) a obs (physical_of obs))
              z
            ∙ ap (λ o. decide json (suc fuel) a obs o) p
            ∙ ap (map_run (take_action a physical))
                (exchange_failed a.transport obs (extension_of a physical) c accepts e n q r),
        refl,
      )
