-- ===== src/Core/Seeding.antt =====
-- crates/ertw_core/src/lib.rs: `ErtwWorld::spawn_agent` and `ErtwWorld::seed_world`, and the controller
-- of crates/ertw_core/src/genesis.rs. A command to spawn appends a row to the entities; the components
-- that the physics engine adds to a body are left out.
pub mod Population
mod Tests
use ertw.Core.Registry.{register}
use ertw.Core.Genesis.{TerrainSpawn}
use ertw.Core.World.{Vec2}
use ertw.Core.Genesis.Plan.{
  terrain_plan, spawn_genesis_node, spawn_genesis, spawn_plan, TerrainNode,
}
use ertw.Core.Registry.Spawn.{spawn_agent, AgentBundle}
use ertw.Core.Rng.{Rng}
use ertw.Common.{◌+◌, false, [], some, ◌∷◌, ◌++◌, none, ℕ, List}
use ertw.Core.Components.{default_tuning, Entity}
use ertw.Core.Snapshot.{EntityRow, Simulation, Quat}

-- `Quat::IDENTITY`.
abbrev pub identity : Quat
identity = record { x = 0; y = 0; z = 0; w = 0x3f800000 }

unfoldable pub agent_row : Entity → AgentBundle → EntityRow
agent_row e b = record {
  entity = e;
  stable = none;
  transform = some (record { translation = b.position; rotation = identity });
  body_mass = some b.body_mass;
  linear = none;
  angular = none;
  physical = some b.physical;
  yield_threshold = some b.yield_threshold;
  conductivity = some b.conductivity;
  tags = some b.tags;
  impulse = some b.impulse;
  ledger = some b.ledger;
  node_rng = some b.node_rng;
  oscillator = some b.oscillator;
  chunk_origin = none;
  dead = false;
  marker = some b.marker;
  tuning = some b.tuning;
  clamp = some b.clamp;
  fabricate = some b.fabricate;
  reproduction = some b.reproduction;
  joint = none;
}

unfoldable pub terrain_row : Entity → TerrainNode → EntityRow
terrain_row e n = record {
  entity = e;
  stable = none;
  transform = some (record { translation = n.position; rotation = identity });
  body_mass = some n.body_mass;
  linear = none;
  angular = none;
  physical = some n.physical;
  yield_threshold = some n.yield_threshold;
  conductivity = some n.conductivity;
  tags = some n.tags;
  impulse = some n.impulse;
  ledger = some n.ledger;
  node_rng = some n.node_rng;
  oscillator = some n.oscillator;
  chunk_origin = some n.chunk_origin;
  dead = false;
  marker = none;
  tuning = none;
  clamp = none;
  fabricate = none;
  reproduction = none;
  joint = none;
}

-- A spawn takes the next entity.
unfoldable pub spawn_row {ℓ} :
    {S : Type ℓ} → Simulation S → (Entity → EntityRow) → Simulation S × Entity
spawn_row sim row = (
  record sim { rows = sim.rows ++ (row sim.next_entity ∷ []); next_entity = sim.next_entity + 1 },
  sim.next_entity,
)

module _ {ℓ} {S : Type ℓ} where
  -- `ErtwWorld::spawn_agent`.
  unfoldable pub inject : Simulation S → S → Vec2 → Simulation S × Entity
  inject sim s pos =
      let (agents, bundle) = spawn_agent sim.agents s pos default_tuning in
      spawn_row (record sim { agents = agents }) (λ e. agent_row e bundle)

  -- One agent of the plan, whose controller is registered first.
  unfoldable pub seed_agent : S → Simulation S → Vec2 × ℕ → Simulation S × Entity
  seed_agent genesis sim (pos, node_rng) =
      let (agents, controller) = register sim.agents genesis in
      spawn_row (record sim { agents = agents })
        (λ e. agent_row e (spawn_genesis controller pos node_rng 0))

  unfoldable pub seed_agents : S → List (Vec2 × ℕ) → Simulation S → Simulation S × List Entity
  seed_agents genesis [] sim = (sim, [])
  seed_agents genesis (p ∷ plan) sim =
      let (sim1, e) = seed_agent genesis sim p in
      let (sim2, out) = seed_agents genesis plan sim1 in (sim2, e ∷ out)

  unfoldable pub seed_terrain : List TerrainSpawn → Simulation S → Simulation S
  seed_terrain [] sim = sim
  seed_terrain (t ∷ plan) sim =
      seed_terrain plan (spawn_row sim (λ e. terrain_row e (spawn_genesis_node t))).0

  -- Both plans are made before anything is spawned.
  unfoldable pub seed_world : Rng → S → Simulation S → ℕ → ℕ → Simulation S × List Entity
  seed_world rng genesis sim nx ny =
      let (chunks, agent_plan) = spawn_plan rng sim.chunks nx ny in
      let (sim1, out) = seed_agents genesis agent_plan (record sim { chunks = chunks }) in
      (seed_terrain (terrain_plan rng chunks nx ny) sim1, out)
