-- ===== src/Server/Lockstep/Program.antt =====
-- crates/ertw_server/src/bin/ertw-lockstep.rs: the loop of ticks and the lifecycle events that it
-- emits. What the program reads and asks of the world is an interface.
use ertw.Interface.Session.{
  entity_reproduced, entity_died, world_terminated, entity_alive, LifecycleKind,
}
use ertw.Common.{
  some, zero, ◌*◌, ltb, ◌||◌, ◌+◌, ◌-◌, ◌&&◌, ◌==◌, none, suc, ◌^◌, ◌++◌, not, false, Option, [],
  min, ◌∷◌, if◌then◌else◌, Bool, ℕ, List,
}

-- The world as the program drives it: `step(1)` with the identifiers that follow it, the agents as
-- pairs of identifier and generation, whether an entity has an `AgentMarker`, and the clock.
pub record Driven {ℓ} (W : Type ℓ) : Type ℓ where
  pub step : W → W
  pub agents : W → List (ℕ × ℕ)
  pub is_agent : W → Bool
  pub clock : W → ℕ

-- A call of `emit`: the tick, the kind and the related entity.
pub record Emission : Type 0 where
  pub tick : ℕ
  pub kind : LifecycleKind
  pub related : Option ℕ

unfoldable pub knows : List (ℕ × ℕ) → ℕ → Bool
knows [] id = false
knows (a ∷ agents) id = a.0 == id || knows agents id

-- An agent that was not there before, and is no founder.
unfoldable pub announce : ℕ → List (ℕ × ℕ) → ℕ × ℕ → List Emission
announce tick known (id, generation) =
    if not (knows known id) && ltb 0 generation
    then record { tick = tick + 1; kind = entity_reproduced; related = some id } ∷ []
    else []

unfoldable pub announce_all : ℕ → List (ℕ × ℕ) → List (ℕ × ℕ) → List Emission
announce_all tick known [] = []
announce_all tick known (a ∷ agents) = announce tick known a ++ announce_all tick known agents

-- `saturating_mul` of u32.
unfoldable pub total_ticks : ℕ → ℕ → ℕ
total_ticks decisions ticks = min (2 ^ 32 - 1) (decisions * ticks)

-- The first and the last event.
abbrev pub alive_event : Emission
alive_event = record { tick = 0; kind = entity_alive; related = none }

abbrev pub terminated_event : ℕ → Emission
terminated_event tick = record { tick = tick; kind = world_terminated; related = none }

module _ {ℓ} {W : Type ℓ} (world : Driven W) where
  open world use {step, agents, is_agent, clock}

  -- The loop, with `n` ticks to go. It breaks when the entity is no agent any more.
  unfoldable pub run_ticks : ℕ → ℕ → List (ℕ × ℕ) → W → W × List Emission
  run_ticks zero tick known w = (w, [])
  run_ticks (suc n) tick known w =
      let w' = step w in
      let current = agents w' in
      let born = announce_all tick known current in
      let rest = run_ticks n (tick + 1) current w' in
      if is_agent w'
      then (rest.0, born ++ rest.1)
      else (w', born ++ (record { tick = tick + 1; kind = entity_died; related = none } ∷ []))

  -- From the first event to the last; the agent is the first known one. A snapshot that is saved
  -- before the last event changes neither the world's clock nor the events.
  unfoldable pub run_program : ℕ → ℕ → ℕ → W → W × List Emission
  run_program decisions ticks id w =
      let (w', events) = run_ticks (total_ticks decisions ticks) 0 ((id, 0) ∷ []) w in
      (w', alive_event ∷ events ++ (terminated_event (clock w') ∷ []))
