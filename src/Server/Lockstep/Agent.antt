-- ===== src/Server/Lockstep/Agent.antt =====
-- crates/ertw_server/src/lockstep.rs: `LockstepAgent` and `LockstepSession`, over one shared
-- transport. The mutex is not poisoned, since no step panics while it is held.
use Prim.Native.String.{String}
use ertw.Server.Connection.{Connection}
use ertw.Float.Arith.{sub}
use ertw.Common.{
  ◌∷◌, get_elem?, ◌>>=◌, [], ◌+◌, ltb, some, none, ◌^◌, if◌then◌else◌, min, List, ◌-◌, Option, ℕ,
}
use ertw.Server.Lockstep.{LockstepConfig, ticks_of, ObservationExtension, Json}
use ertw.Server.Stream.{err, ok, Result}
use ertw.Interface.Action.{default_action, ActionTensor}
use ertw.Interface.Session.{LifecycleKind, PhysicalDelta}
use ertw.Interface.Observation.{ObservationTensor}
use ertw.Server.Lockstep.Transport.{
  out_of_fuel, attach, emit_lifecycle, exchange, panicked, waiting, finished, Run, Transport,
}
use mathlib.Core.Option

pub record LockstepAgent : Type 0 where
  pub transport : Transport
  pub held_action : ActionTensor
  pub remaining_ticks : ℕ
  pub decision_sequence : ℕ
  -- The last energy, structure and mass.
  pub previous_physical : Option PhysicalDelta

-- The three fields of the observation; an observation that is too short panics.
unfoldable pub physical_of : ObservationTensor → Option PhysicalDelta
physical_of obs = do
  energy ← get_elem? obs.self_state 4
  structure ← get_elem? obs.self_state 3
  mass ← get_elem? obs.self_state 2
  some (record { energy = energy; structure = structure; mass = mass })

unfoldable pub delta_of : PhysicalDelta → PhysicalDelta → PhysicalDelta
delta_of physical previous = record {
  energy = sub physical.energy previous.energy;
  structure = sub physical.structure previous.structure;
  mass = sub physical.mass previous.mass;
}

-- A tick on which the last action is held, without a second fabrication.
unfoldable pub hold_action : LockstepAgent → LockstepAgent × ActionTensor
hold_action a =
    (record a { remaining_ticks = a.remaining_ticks - 1 }, record (a.held_action) { fabricate = 0 })

-- `unwrap_or_default`.
unfoldable pub action_or_default : Result ActionTensor → ActionTensor
action_or_default (ok action) = action
action_or_default (err e) = default_action

unfoldable pub extension_of : LockstepAgent → PhysicalDelta → ObservationExtension
extension_of a physical = record {
  decision_sequence = min (2 ^ 64 - 1) (a.decision_sequence + 1);
  delta =
      if a.transport.config.deltas
      then Option.map (delta_of physical) a.previous_physical
      else none;
}

-- The agent after the exchange, with the action that it holds for the ticks of the decision.
unfoldable pub take_action :
    LockstepAgent → PhysicalDelta → Result ActionTensor × Transport → LockstepAgent × ActionTensor
take_action a physical (r, t) =
    let action = action_or_default r in
    (
      record {
        transport = t;
        held_action = action;
        remaining_ticks = ticks_of t.config - 1;
        decision_sequence = min (2 ^ 64 - 1) (a.decision_sequence + 1);
        previous_physical = some physical;
      },
      action,
    )

-- The result of a call, if it ends.
unfoldable pub map_run {ℓ ℓ'} : {A : Type ℓ} {B : Type ℓ'} → (A → B) → Run A → Run B
map_run f (finished a) = finished (f a)
map_run f waiting = waiting
map_run f panicked = panicked
map_run f out_of_fuel = out_of_fuel

unfoldable pub started : Result (Unit {0}) × Transport → Result LockstepAgent
started (err e, t) = err e
started (ok u, t) = ok (record {
  transport = t;
  held_action = default_action;
  remaining_ticks = 0;
  decision_sequence = 0;
  previous_physical = none;
})

-- The next tick, with the actions so far.
unfoldable pub and_next {ℓ ℓ'} :
    {A : Type ℓ} {B : Type ℓ'} → Run (A × B) → (A → Run (A × List B)) → Run (A × List B)
and_next (finished (a, b)) f = map_run (λ r. (r.0, b ∷ r.1)) (f a)
and_next waiting f = waiting
and_next panicked f = panicked
and_next out_of_fuel f = out_of_fuel

module _ (json : Json) where
  unfoldable pub decide :
      ℕ
      → LockstepAgent
      → ObservationTensor
      → Option PhysicalDelta
      → Run (LockstepAgent × ActionTensor)
  decide fuel a obs none = panicked
  decide fuel a obs (some physical) =
      map_run (take_action a physical)
        (exchange json fuel obs (extension_of a physical) a.transport)

  -- `LockstepAgent::act`.
  unfoldable pub act_lockstep :
      ℕ → LockstepAgent → ObservationTensor → Run (LockstepAgent × ActionTensor)
  act_lockstep fuel a obs =
      if ltb 0 a.remaining_ticks
      then finished (hold_action a)
      else decide fuel a obs (physical_of obs)

  -- `LockstepSession::new`, on the connections to come and the first one.
  unfoldable pub new_session :
      List (Result Connection) → Connection → LockstepConfig → Result LockstepAgent
  new_session accepts c config =
      let t : Transport = record {
        accepts = accepts;
        connection = none;
        config = config;
        lifecycle_sequence = 0;
        pending_lifecycle = [];
      } in
      started (attach json t c 0)

  -- `LockstepSession::emit`, which drops the error.
  unfoldable pub emit : LockstepAgent → ℕ → LifecycleKind → Option ℕ → Option String → LockstepAgent
  emit a world_tick kind related_id reason = record a {
    transport = (emit_lifecycle json a.transport world_tick kind related_id reason).1;
  }
