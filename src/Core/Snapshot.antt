-- ===== src/Core/Snapshot.antt =====
-- crates/ertw_core/src/snapshot.rs: the canonical snapshot of a world, and `capture`. The entities of
-- the world are the rows of a table, in the order of a query; a map is an association list.
pub mod Restore
pub mod Maps
pub mod Rows
pub mod Spawned
pub mod Linked
pub mod Final
pub mod Members
pub mod Lookup
pub mod Settled
pub mod Reads
pub mod Roundtrip
pub mod Ids
pub mod Restored
pub mod Ordered
pub mod Captured
mod Tests
use mathlib.Core.Option
use ertw.Core.Genesis.{ChunkManager}
use ertw.Core.Tags.{CustomTags}
use ertw.Core.Registry.{WorldAgents, insert, get}
use Prim.Native.String.{String}
use ertw.Core.Fields.{FieldSampler}
use ertw.Core.StableIds.{ensure_stable_ids, Named}
use ertw.Common.{
  leb, true, if◌then◌else◌, none, ◌>>=◌, [], false, some, map, ◌∷◌, map_or, Bool, Option, ℕ, List,
}
use ertw.Core.Components.{
  ClampJoint, ReproductionState, Oscillator, ImpulseAccum, AgentTuning, AgentMarker, ClampState,
  ChunkOrigin, Physical, EnergyLedger, Entity,
}
use ertw.Core.World.{Vec2}
use ertw.Float.Order.{F32}

-- A quaternion of the crate glam.
pub record Quat : Type 0 where
  pub x : F32
  pub y : F32
  pub z : F32
  pub w : F32

-- `Quat::from_rotation_z` and the last angle of `to_euler(EulerRot::XYZ)`.
pub record Rotations : Type 0 where
  pub from_rotation_z : F32 → Quat
  pub euler_z : Quat → F32

pub record Transform : Type 0 where
  pub translation : Vec2
  pub rotation : Quat

pub record EntityRow : Type 0 where
  pub entity : Entity
  pub stable : Option ℕ
  pub transform : Option Transform
  pub body_mass : Option F32
  pub linear : Option Vec2
  pub angular : Option F32
  pub physical : Option Physical
  pub yield_threshold : Option F32
  pub conductivity : Option F32
  pub tags : Option CustomTags
  pub impulse : Option ImpulseAccum
  pub ledger : Option EnergyLedger
  pub node_rng : Option ℕ
  pub oscillator : Option Oscillator
  pub chunk_origin : Option ChunkOrigin
  pub dead : Bool
  pub marker : Option AgentMarker
  pub tuning : Option AgentTuning
  pub clamp : Option ClampState
  pub fabricate : Option F32
  pub reproduction : Option ReproductionState
  pub joint : Option ClampJoint

-- The resources and the entities of an `ErtwWorld` that a snapshot is about.
pub record Simulation {ℓ} (S : Type ℓ) : Type ℓ where
  pub rows : List EntityRow
  pub next_stable : ℕ
  pub seed : ℕ
  pub step : ℕ
  pub sampler : FieldSampler
  pub chunks : ChunkManager
  pub agents : WorldAgents S
  -- The entity of the next spawn.
  pub next_entity : Entity

pub record CanonicalAgent : Type 0 where
  pub generation : ℕ
  pub lineage : ℕ
  pub sensor_radius : F32
  pub max_neighbors : ℕ
  pub yield_threshold : F32
  pub oscillator_baseline : F32
  pub reproduction : F32 × F32
  pub fabricate_cooldown : F32
  pub clamp_target : Option ℕ
  pub clamp_cooldown : F32

pub record CanonicalNode : Type 0 where
  pub stable_id : ℕ
  pub position : Vec2
  pub rotation : F32
  pub linear_velocity : Vec2
  pub angular_velocity : F32
  pub physical : F32 × F32 × F32
  pub yield_threshold : F32
  pub conductivity : F32
  pub tags : ℕ
  pub oscillator : Option (F32 × F32 × F32)
  pub node_rng : ℕ
  pub chunk_origin : Option ChunkOrigin
  pub dead : Bool
  pub energy_ledger : F32 × F32 × F32 × F32 × F32 × F32 × F32 × F32
  pub born_step : ℕ
  pub agent : Option CanonicalAgent

pub record WorldSnapshot : Type 0 where
  pub schema_version : ℕ
  pub seed : ℕ
  pub simulation_tick : ℕ
  pub field_time : F32
  pub agent_checkpoint : Option String
  pub active_chunks : List ChunkOrigin
  pub nodes : List CanonicalNode

abbrev pub snapshot_schema_version : ℕ
snapshot_schema_version = 2

-- `ensure_stable_ids` on the rows.
unfoldable pub named_of : EntityRow → Named
named_of r = record {
  entity = r.entity;
  is_physical = map_or false (λ _. true) r.physical;
  stable = r.stable;
}

unfoldable pub with_ids : List EntityRow → List Named → List EntityRow
with_ids [] named = []
with_ids (r ∷ rows) [] = r ∷ rows
with_ids (r ∷ rows) (n ∷ named) = record r { stable = n.stable } ∷ with_ids rows named

unfoldable pub ensure_ids {ℓ} : {S : Type ℓ} → Simulation S → Simulation S
ensure_ids sim =
    let (next, named) = ensure_stable_ids sim.next_stable (map named_of sim.rows) in
    record sim { rows = with_ids sim.rows named; next_stable = next }

-- One more entry of a `HashMap`, where there is a key and a value.
unfoldable pub put_entry {ℓ} : {B : Type ℓ} → Option ℕ → Option B → List (ℕ × B) → List (ℕ × B)
put_entry none v m = m
put_entry (some k) none m = m
put_entry (some k) (some v) m = insert m k v

module _ {ℓ κ} {A : Type ℓ} {B : Type κ} where
  -- `collect` into a `HashMap`: a later entry replaces an earlier one.
  unfoldable pub collect : (A → Option ℕ) → (A → Option B) → List (ℕ × B) → List A → List (ℕ × B)
  collect key value m [] = m
  collect key value m (r ∷ rows) = collect key value (put_entry (key r) (value r) m) rows

  unfoldable pub filter_map : (A → Option B) → List A → List B
  filter_map f [] = []
  filter_map f (r ∷ rows) = map_or (filter_map f rows) (λ b. b ∷ filter_map f rows) (f r)

unfoldable pub stable_ids_of : List EntityRow → List (Entity × ℕ)
stable_ids_of rows = collect (λ r. some r.entity) (λ r. r.stable) [] rows

-- The target by its identifier, and the cooldown.
unfoldable pub clamp_view : List (Entity × ℕ) → ClampState → Option ℕ × F32
clamp_view ids c = (c.target >>= get ids, c.cooldown)

unfoldable pub clamp_states_of : List (Entity × ℕ) → List EntityRow → List (ℕ × (Option ℕ × F32))
clamp_states_of ids rows =
    collect (λ r. get ids r.entity) (λ r. Option.map (clamp_view ids) r.clamp) [] rows

unfoldable pub chunk_origins_of : List (Entity × ℕ) → List EntityRow → List (ℕ × ChunkOrigin)
chunk_origins_of ids rows = collect (λ r. get ids r.entity) (λ r. r.chunk_origin) [] rows

-- A set is a map whose values say nothing.
abbrev pub when : Bool → Option (Unit {0})
when true = some tt
when false = none

unfoldable pub dead_nodes_of : List (Entity × ℕ) → List EntityRow → List (ℕ × Unit {0})
dead_nodes_of ids rows = collect (λ r. get ids r.entity) (λ r. when r.dead) [] rows

-- What `capture` collects before it reads the nodes.
pub record Lookups : Type 0 where
  pub clamps : List (ℕ × (Option ℕ × F32))
  pub origins : List (ℕ × ChunkOrigin)
  pub dead : List (ℕ × Unit {0})

unfoldable pub lookups_of : List EntityRow → Lookups
lookups_of rows =
    let ids = stable_ids_of rows in
    record {
      clamps = clamp_states_of ids rows;
      origins = chunk_origins_of ids rows;
      dead = dead_nodes_of ids rows;
    }

unfoldable pub values_of : EnergyLedger → F32 × F32 × F32 × F32 × F32 × F32 × F32 × F32
values_of l = (
  l.harvested, l.consumed_from_others, l.vented, l.dissipated, l.spent_on_actuation,
  l.invested_in_fabrication, l.invested_in_offspring, l.transferred_out,
)

unfoldable pub canonical_agent :
    Lookups → ℕ → EntityRow → AgentMarker → AgentTuning → CanonicalAgent
canonical_agent maps id r marker tuning = record {
  generation = marker.generation;
  lineage = marker.lineage;
  sensor_radius = tuning.sensor_radius;
  max_neighbors = tuning.max_neighbors;
  yield_threshold = tuning.yield_threshold;
  oscillator_baseline = tuning.osc_baseline;
  reproduction = map_or (0, 0) (λ s. (s.surplus_seconds, s.cooldown_seconds)) r.reproduction;
  fabricate_cooldown = map_or 0 (λ f. f) r.fabricate;
  clamp_target = get maps.clamps id >>= λ s. s.0;
  clamp_cooldown = map_or 0 (λ s. s.1) (get maps.clamps id);
}

-- `sort_by_key`, which is stable.
unfoldable pub insert_node : CanonicalNode → List CanonicalNode → List CanonicalNode
insert_node n [] = n ∷ []
insert_node n (m ∷ nodes) =
    let rest = insert_node n nodes in
    if leb n.stable_id m.stable_id then n ∷ m ∷ nodes else m ∷ rest

unfoldable pub sort_nodes : List CanonicalNode → List CanonicalNode
sort_nodes [] = []
sort_nodes (n ∷ nodes) = insert_node n (sort_nodes nodes)

module _ (rotations : Rotations) where
  open rotations use {euler_z}

  -- The row of the query, where it has the components that the query asks for.
  unfoldable pub canonical_node : Lookups → EntityRow → Option CanonicalNode
  canonical_node maps r = do
    id ← r.stable
    transform ← r.transform
    physical ← r.physical
    yield_threshold ← r.yield_threshold
    conductivity ← r.conductivity
    tags ← r.tags
    some (record {
      stable_id = id;
      position = transform.translation;
      rotation = euler_z transform.rotation;
      linear_velocity = map_or (record { x = 0; y = 0 }) (λ v. v) r.linear;
      angular_velocity = map_or 0 (λ v. v) r.angular;
      physical = (physical.mass, physical.structure, physical.energy);
      yield_threshold = yield_threshold;
      conductivity = conductivity;
      tags = tags;
      oscillator = Option.map (λ o. (o.freq, o.phase, o.baseline_freq)) r.oscillator;
      node_rng = map_or 0 (λ v. v) r.node_rng;
      chunk_origin = get maps.origins id;
      dead = map_or false (λ _. true) (get maps.dead id);
      energy_ledger = map_or (0, 0, 0, 0, 0, 0, 0, 0) values_of r.ledger;
      born_step = map_or 0 (λ l. l.born_step) r.ledger;
      agent = do
        marker ← r.marker
        tuning ← r.tuning
        some (canonical_agent maps id r marker tuning);
    })

  -- The world has its identifiers afterwards. The `Result` of the code is never an error.
  unfoldable pub capture {ℓ} :
      {S : Type ℓ} → Simulation S → Option String → Simulation S × WorldSnapshot
  capture sim checkpoint =
      let sim' = ensure_ids sim in
      (
        sim',
        record {
          schema_version = snapshot_schema_version;
          seed = sim'.seed;
          simulation_tick = sim'.step;
          field_time = sim'.sampler.time;
          agent_checkpoint = checkpoint;
          active_chunks = sim'.chunks.active;
          nodes = sort_nodes (filter_map (canonical_node (lookups_of sim'.rows)) sim'.rows);
        },
      )
