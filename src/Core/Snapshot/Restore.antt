-- ===== src/Core/Snapshot/Restore.antt =====
-- crates/ertw_core/src/snapshot.rs: `restore`. The entities that a new world spawns are numbered from
-- `first` on.
use ertw.Core.StableIds.{observe}
use ertw.Core.Genesis.Plan.{insert_all}
use ertw.Core.Fields.{set_time, new_sampler, Noise}
use ertw.Core.Registry.{register, insert, get, retain_ids, WorldAgents}
use ertw.Core.Snapshot.{
  snapshot_schema_version, WorldSnapshot, CanonicalAgent, CanonicalNode, Simulation, EntityRow,
  Rotations,
}
use ertw.Float.Order.{fmax, F32}
use ertw.Common.{
  ◌>>=◌, ◌+◌, ◌==◌, not, ◌++◌, if◌then◌else◌, false, [], some, ◌∷◌, none, Option, List, ℕ,
}
use ertw.Core.Genesis.{new_manager, ChunkManager}
use ertw.Core.Components.{
  ClampState, default_clamp, ReproductionState, Physical, Oscillator, EnergyLedger, ChunkOrigin,
  Entity,
}
use mathlib.Core.Option

pub data RestoreError : Type 0 where
  unsupported_schema : RestoreError

pub data Restoration {ℓ} (A : Type ℓ) : Type ℓ where
  ok : A → Restoration A
  err : RestoreError → Restoration A

-- `ErtwWorld::new`.
unfoldable pub new_simulation {ℓ} : {S : Type ℓ} → Entity → ℕ → Simulation S
new_simulation first seed = record {
  rows = [];
  next_stable = 0;
  seed = seed;
  step = 0;
  sampler = new_sampler;
  chunks = new_manager seed;
  agents = record { controllers = []; next_id = 0 };
  next_entity = first;
}

unfoldable pub restore_active_chunks : ChunkManager → List ChunkOrigin → ChunkManager
restore_active_chunks manager chunks = record manager { active = insert_all [] chunks }

unfoldable pub ledger_of : ℕ → F32 × F32 × F32 × F32 × F32 × F32 × F32 × F32 → EnergyLedger
ledger_of born_step (a, b, c, d, e, f, g, h) = record {
  harvested = a;
  consumed_from_others = b;
  vented = c;
  dissipated = d;
  spent_on_actuation = e;
  invested_in_fabrication = f;
  invested_in_offspring = g;
  transferred_out = h;
  born_step = born_step;
}

unfoldable pub oscillator_of : F32 × F32 × F32 → Oscillator
oscillator_of (freq, phase, baseline_freq) = record {
  freq = freq;
  phase = phase;
  baseline_freq = baseline_freq;
}

unfoldable pub body_of : F32 × F32 × F32 → Physical
body_of (mass, structure, energy) = record { mass = mass; structure = structure; energy = energy }

unfoldable pub reproduction_of : F32 × F32 → ReproductionState
reproduction_of (surplus, cooldown) = record {
  surplus_seconds = surplus;
  cooldown_seconds = cooldown;
}

-- What a node is spawned with, its agent aside. 0.05 is the least mass of the body.
unfoldable pub base_row : Rotations → Entity → CanonicalNode → EntityRow
base_row rotations e n =
    let physical = body_of n.physical in
    record {
      entity = e;
      stable = some n.stable_id;
      transform =
          some
            (record { translation = n.position; rotation = rotations.from_rotation_z n.rotation });
      body_mass = some (fmax physical.mass 0x3d4ccccd);
      linear = some n.linear_velocity;
      angular = some n.angular_velocity;
      physical = some physical;
      yield_threshold = some n.yield_threshold;
      conductivity = some n.conductivity;
      tags = some n.tags;
      impulse = some (record { value = 0; source = none });
      ledger = some (ledger_of n.born_step n.energy_ledger);
      node_rng = some n.node_rng;
      oscillator = Option.map oscillator_of n.oscillator;
      chunk_origin = n.chunk_origin;
      dead = n.dead;
      marker = none;
      tuning = none;
      clamp = none;
      fabricate = none;
      reproduction = none;
      joint = none;
    }

unfoldable pub with_agent : EntityRow → CanonicalAgent → ℕ → EntityRow
with_agent r a controller = record r {
  marker =
      some (record { generation = a.generation; lineage = a.lineage; controller = controller });
  tuning = some (record {
    sensor_radius = a.sensor_radius;
    max_neighbors = a.max_neighbors;
    yield_threshold = a.yield_threshold;
    osc_baseline = a.oscillator_baseline;
  });
  clamp = some (record default_clamp { cooldown = a.clamp_cooldown });
  fabricate = some a.fabricate_cooldown;
  reproduction = some (reproduction_of a.reproduction);
}

-- The variables of the first loop.
pub record Restoring {ℓ} (S : Type ℓ) : Type ℓ where
  pub agents : WorldAgents S
  -- The controllers that are left, by stable identifier.
  pub controllers : List (ℕ × S)
  pub entities : List (ℕ × Entity)
  pub next_entity : Entity
  pub next_stable : ℕ

-- The entity that has no component but the joint.
abbrev pub joint_row : Entity → Entity → Entity → EntityRow
joint_row e owner target = record {
  entity = e;
  stable = none;
  transform = none;
  body_mass = none;
  linear = none;
  angular = none;
  physical = none;
  yield_threshold = none;
  conductivity = none;
  tags = none;
  impulse = none;
  ledger = none;
  node_rng = none;
  oscillator = none;
  chunk_origin = none;
  dead = false;
  marker = none;
  tuning = none;
  clamp = none;
  fabricate = none;
  reproduction = none;
  joint = some (record { owner = owner; target = target });
}

-- `get_mut::<ClampState>(owner)`, on the row of the owner.
unfoldable pub hold_fast : Entity → Entity → ClampState → ClampState
hold_fast target joint c = record c { target = some target; joint = some joint }

unfoldable pub set_clamp : List EntityRow → Entity → Entity → Entity → List EntityRow
set_clamp [] owner target joint = []
set_clamp (r ∷ rows) owner target joint =
    let rest = set_clamp rows owner target joint in
    if r.entity == owner
    then record r { clamp = Option.map (hold_fast target joint) r.clamp } ∷ rows
    else r ∷ rest

-- Owner and target of a node's clamp, if the node and the target were restored.
unfoldable pub linked_by : List (ℕ × Entity) → CanonicalNode → Option (Entity × Entity)
linked_by entities n = do
  agent ← n.agent
  target_id ← agent.clamp_target
  owner ← get entities n.stable_id
  target ← get entities target_id
  some (owner, target)

-- One round of the second loop, on the rows and the entity of the next spawn.
unfoldable pub link_node :
    Option (Entity × Entity) → List EntityRow × Entity → List EntityRow × Entity
link_node none (rows, next) = (rows, next)
link_node (some (owner, target)) (rows, next) =
    (set_clamp (rows ++ (joint_row next owner target ∷ [])) owner target next, next + 1)

unfoldable pub link_nodes :
    List (ℕ × Entity) → List CanonicalNode → List EntityRow × Entity → List EntityRow × Entity
link_nodes entities [] s = s
link_nodes entities (n ∷ nodes) s = link_nodes entities nodes (link_node (linked_by entities n) s)

module _ {ℓ} {S : Type ℓ} where
  -- `controllers.remove`.
  unfoldable pub remove_id : List (ℕ × S) → ℕ → List (ℕ × S)
  remove_id controllers id = retain_ids (λ k. not (k == id)) controllers

  -- An agent comes back where it has a controller.
  unfoldable pub restore_agent :
      ℕ → EntityRow → Option CanonicalAgent → Restoring S → EntityRow × Restoring S
  restore_agent id r none st = (r, st)
  restore_agent id r (some a) st = elim (get st.controllers id) [
    | none ↦ (r, st)
    | some c ↦
        let (agents, controller) = register st.agents c in
        (
          with_agent r a controller,
          record st { agents = agents; controllers = remove_id st.controllers id },
        )
  ]

  -- The node is spawned, entered in the map and seen by the allocator.
  unfoldable pub spawn_node : Rotations → CanonicalNode → Restoring S → EntityRow × Restoring S
  spawn_node rotations n st =
      let e = st.next_entity in
      restore_agent n.stable_id (base_row rotations e n) n.agent (record st {
        entities = insert st.entities n.stable_id e;
        next_entity = e + 1;
        next_stable = observe st.next_stable n.stable_id;
      })

  unfoldable pub spawn_nodes :
      Rotations → List CanonicalNode → Restoring S → List EntityRow × Restoring S
  spawn_nodes rotations [] st = ([], st)
  spawn_nodes rotations (n ∷ nodes) st =
      let (r, st') = spawn_node rotations n st in
      let (rows, last) = spawn_nodes rotations nodes st' in (r ∷ rows, last)

  -- Clock, fields and chunks come first, then the nodes, then the clamps.
  unfoldable pub restore_world :
      Noise → Rotations → Entity → WorldSnapshot → List (ℕ × S) → Simulation S
  restore_world noise rotations first snapshot controllers =
      let sim : Simulation S = new_simulation first snapshot.seed in
      let (rows, st) = spawn_nodes rotations snapshot.nodes (record {
        agents = sim.agents;
        controllers = controllers;
        entities = [];
        next_entity = sim.next_entity;
        next_stable = sim.next_stable;
      }) in
      let (linked, next) = link_nodes st.entities snapshot.nodes (rows, st.next_entity) in
      record sim {
        rows = linked;
        next_stable = st.next_stable;
        step = snapshot.simulation_tick;
        sampler = set_time noise sim.sampler snapshot.field_time;
        chunks = restore_active_chunks sim.chunks snapshot.active_chunks;
        agents = st.agents;
        next_entity = next;
      }

  unfoldable pub restore :
      Noise → Rotations → Entity → WorldSnapshot → List (ℕ × S) → Restoration (Simulation S)
  restore noise rotations first snapshot controllers =
      if snapshot.schema_version == snapshot_schema_version
      then ok (restore_world noise rotations first snapshot controllers)
      else err unsupported_schema
