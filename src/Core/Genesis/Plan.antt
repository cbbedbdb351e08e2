-- ===== src/Core/Genesis/Plan.antt =====
-- crates/ertw_core/src/genesis.rs: the plans of the first population and of its terrain, and the
-- components of what they spawn. The grid is `nx` by `ny` chunks.
use Prim.Native.Nat.{bit_xor}
use ertw.Core.Genesis.{
  plan_chunks, to_u64, ChunkManager, TerrainSpawn, to_float, chunk_size, agents_per_chunk,
  insert_chunk, tag_bits,
}
use ertw.Core.Components.{
  ChunkOrigin, Physical, EnergyLedger, ImpulseAccum, Oscillator, default_ledger, default_tuning,
}
use ertw.Core.Registry.Spawn.{AgentBundle, spawn_with_bundle}
use ertw.Core.Rng.{Rng}
use ertw.Core.Tags.{CustomTags}
use ertw.Core.World.{Vec2}
use ertw.Float.Arith.{add, mul}
use ertw.Float.Order.{F32, fmax}
use ertw.Common.{ℕ, List, [], ◌∷◌, ◌++◌, ◌+◌, ◌*◌, ◌%◌, ◌^◌, suc, zero, none}

-- The chunk (cx, cy) of the grid.
unfoldable pub grid_chunk : ℕ → ℕ → ChunkOrigin
grid_chunk cx cy = record { x = 2 ^ 31 + cx; y = 2 ^ 31 + cy }

-- `seed ^ i.wrapping_mul(0x9E3779B1) ^ (cx << 32) ^ cy`.
unfoldable pub agent_seed : ℕ → ChunkOrigin → ℕ → ℕ
agent_seed seed c i =
    bit_xor (bit_xor (bit_xor seed (i * 0x9e3779b1 % 2 ^ 64)) (to_u64 c.x * 2 ^ 32 % 2 ^ 64))
      (to_u64 c.y)

module _ (rng : Rng) where
  open rng use {State, seed_from, gen_float}

  -- The agents of one chunk from the `i`-th on, `n` of them; each draws twice from 1.0..31.0.
  unfoldable pub plan_agents : ℕ → ChunkOrigin → ℕ → ℕ → State → List (Vec2 × ℕ) × State
  plan_agents seed c i zero s = ([], s)
  plan_agents seed c i (suc n) s =
      let (x, s1) = gen_float 0x3f800000 0x41f80000 s in
      let (y, s2) = gen_float 0x3f800000 0x41f80000 s1 in
      let (left, s3) = plan_agents seed c (suc i) n s2 in
      let pos : Vec2 = record {
        x = add (mul (to_float c.x) chunk_size) x;
        y = add (mul (to_float c.y) chunk_size) y;
      } in
      ((pos, agent_seed seed c i) ∷ left, s3)

  -- A column of the grid from `cy` on, and the columns from `cx` on, with one generator throughout.
  unfoldable pub plan_column : ℕ → ℕ → ℕ → ℕ → State → List (Vec2 × ℕ) × State
  plan_column seed cx cy zero s = ([], s)
  plan_column seed cx cy (suc n) s =
      let (agents, s1) = plan_agents seed (grid_chunk cx cy) 0 agents_per_chunk s in
      let (left, s2) = plan_column seed cx (suc cy) n s1 in (agents ++ left, s2)

  unfoldable pub plan_columns : ℕ → ℕ → ℕ → ℕ → State → List (Vec2 × ℕ) × State
  plan_columns seed ny cx zero s = ([], s)
  plan_columns seed ny cx (suc n) s =
      let (column, s1) = plan_column seed cx 0 ny s in
      let (left, s2) = plan_columns seed ny (suc cx) n s1 in (column ++ left, s2)

-- The chunks of the grid, column by column.
unfoldable pub grid_column : ℕ → ℕ → ℕ → List ChunkOrigin
grid_column cx cy zero = []
grid_column cx cy (suc n) = grid_chunk cx cy ∷ grid_column cx (suc cy) n

unfoldable pub grid : ℕ → ℕ → ℕ → List ChunkOrigin
grid ny cx zero = []
grid ny cx (suc n) = grid_column cx 0 ny ++ grid ny (suc cx) n

unfoldable pub insert_all : List ChunkOrigin → List ChunkOrigin → List ChunkOrigin
insert_all set [] = set
insert_all set (c ∷ chunks) = insert_all (insert_chunk set c) chunks

module _ (rng : Rng) where
  unfoldable pub spawn_plan : ChunkManager → ℕ → ℕ → ChunkManager × List (Vec2 × ℕ)
  spawn_plan m nx ny = (
    record m { active = insert_all m.active (grid ny 0 nx) },
    (plan_columns rng m.seed ny 0 nx (rng.seed_from m.seed)).0,
  )

  unfoldable pub terrain_plan : ChunkManager → ℕ → ℕ → List TerrainSpawn
  terrain_plan m nx ny = plan_chunks rng m (grid ny 0 nx)

-- The bundle of a genesis agent: that of a spawned one, with the seed of its place in the plan.
unfoldable pub spawn_genesis : ℕ → Vec2 → ℕ → ℕ → AgentBundle
spawn_genesis controller pos node_rng born_step =
    record (spawn_with_bundle controller pos default_tuning) {
      ledger = record default_ledger { born_step = born_step };
      node_rng = node_rng;
    }

-- The components of an inert node.
pub record TerrainNode : Type 0 where
  pub position : Vec2
  pub body_mass : F32
  pub physical : Physical
  pub yield_threshold : F32
  pub conductivity : F32
  pub tags : CustomTags
  pub impulse : ImpulseAccum
  pub ledger : EnergyLedger
  pub node_rng : ℕ
  pub oscillator : Oscillator
  pub chunk_origin : ChunkOrigin

unfoldable pub spawn_genesis_node : TerrainSpawn → TerrainNode
spawn_genesis_node s = record {
  position = s.pos;
  body_mass = fmax s.mass 0x3d4ccccd;
  physical = record { mass = s.mass; structure = s.structure; energy = s.energy };
  yield_threshold = s.structure;
  conductivity = s.conductivity;
  tags = tag_bits s.kind;
  impulse = record { value = 0; source = none };
  ledger = default_ledger;
  node_rng = s.node_rng;
  oscillator = record { freq = 0; phase = 0; baseline_freq = 0 };
  chunk_origin = s.chunk_origin;
}
