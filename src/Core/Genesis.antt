-- ===== src/Core/Genesis.antt =====
-- crates/ertw_core/src/genesis.rs: the plan of a chunk and the streaming of chunks. A chunk's i32
-- coordinates are kept 2 ^ 31 higher; a BTreeSet is an ascending list.
pub mod Stream
pub mod Plan
mod Tests
use Prim.Native.Nat.{bit_xor}
use ertw.Core.Components.{ChunkOrigin, ClampJoint, Entity}
use ertw.Core.Fragment.Divide.{despawn_physical_entities}
use ertw.Core.Rng.{Rng}
use ertw.Core.Spatial.{floor_i32, shifted}
use ertw.Core.Tags.{energy_convertible, thermal_vent, volatile_trap, shelter}
use ertw.Core.World.{Vec2, Command}
use ertw.Float.Arith.{add, mul, div, of_ℕ}
use ertw.Float.Order.{F32, negate}
use ertw.Common.{
  ℕ, Bool, Option, none, some, List, [], ◌∷◌, ◌++◌, ◌==◌, ◌&&◌, ◌||◌, not, if◌then◌else◌, ltb,
  false, ◌+◌, ◌-◌, ◌*◌, ◌%◌, ◌^◌, suc,
}

-- 32.0.
abbrev pub chunk_size : F32
chunk_size = 0x42000000

abbrev pub agents_per_chunk : ℕ
agents_per_chunk = 4

pub data TerrainKind : Type 0 where
  energy_source vent trap refuge : TerrainKind

unfoldable pub tag_bits : TerrainKind → ℕ
tag_bits energy_source = energy_convertible
tag_bits vent = thermal_vent
tag_bits trap = volatile_trap
tag_bits refuge = shelter

pub record TerrainSpawn : Type 0 where
  pub chunk_origin : ChunkOrigin
  pub pos : Vec2
  pub node_rng : ℕ
  pub kind : TerrainKind
  pub mass : F32
  pub structure : F32
  pub energy : F32
  pub conductivity : F32

pub record ChunkManager : Type 0 where
  pub active : List ChunkOrigin
  pub seed : ℕ

unfoldable pub new_manager : ℕ → ChunkManager
new_manager seed = record { active = []; seed = seed }

-- `c as u64`, which extends the sign, and `c as f32`.
unfoldable pub to_u64 : ℕ → ℕ
to_u64 c = (c + (2 ^ 64 - 2 ^ 31)) % 2 ^ 64

unfoldable pub to_float : ℕ → F32
to_float c = if ltb c (2 ^ 31) then negate (of_ℕ (2 ^ 31 - c)) else of_ℕ (c - 2 ^ 31)

unfoldable pub same_chunk : ChunkOrigin → ChunkOrigin → Bool
same_chunk c d = c.x == d.x && (c.y == d.y)

unfoldable pub comes_first : ChunkOrigin → ChunkOrigin → Bool
comes_first c d = ltb c.x d.x || c.x == d.x && ltb c.y d.y

unfoldable pub insert_chunk : List ChunkOrigin → ChunkOrigin → List ChunkOrigin
insert_chunk [] c = c ∷ []
insert_chunk (d ∷ set) c =
    let rest = insert_chunk set c in
    if same_chunk d c then d ∷ set else if comes_first c d then c ∷ d ∷ set else d ∷ rest

unfoldable pub has_chunk : List ChunkOrigin → ChunkOrigin → Bool
has_chunk [] c = false
has_chunk (d ∷ set) c = same_chunk d c || has_chunk set c

unfoldable pub difference : List ChunkOrigin → List ChunkOrigin → List ChunkOrigin
difference [] other = []
difference (c ∷ set) other =
    let rest = difference set other in if has_chunk other c then rest else c ∷ rest

-- The five entries of a chunk: where in it, and of what kind.
abbrev pub entries : List (F32 × F32 × TerrainKind)
entries =
    (0x3e800000, 0x3e800000, energy_source)
    ∷ (0x3f400000, 0x3e800000, energy_source)
    ∷ (0x3e800000, 0x3f400000, vent)
    ∷ (0x3f400000, 0x3f400000, trap)
    ∷ (0x3f000000, 0x3f000000, refuge)
    ∷ []

-- Mass, structure, energy and conductivity of a kind.
unfoldable pub content_of : TerrainKind → F32 × F32 × F32 × F32
content_of energy_source = (0x3f800000, 0x41000000, 0x40c00000, 0x3f19999a)
content_of vent = (0x40000000, 0x41200000, 0x40800000, 0x3f19999a)
content_of trap = (0x3fc00000, 0x41000000, 0x41400000, 0x3f19999a)
content_of refuge = (0x3f800000, 0x41600000, 0x40000000, 0x3e4ccccd)

-- `seed ^ ((cx as u64) << 32) ^ cy as u64`.
unfoldable pub chunk_seed : ℕ → ChunkOrigin → ℕ
chunk_seed seed c = bit_xor (bit_xor seed (to_u64 c.x * 2 ^ 32 % 2 ^ 64)) (to_u64 c.y)

-- One coordinate: the chunk's corner, the place in it, and the jitter.
unfoldable pub placed : ℕ → F32 → F32 → F32
placed c fraction jitter = add (add (mul (to_float c) chunk_size) (mul fraction chunk_size)) jitter

module _ (rng : Rng) where
  open rng use {State, seed_from, gen_float}

  -- The entries from the `index`-th on; each draws twice from -0.5..0.5.
  unfoldable pub plan_entries :
      ℕ → ChunkOrigin → ℕ → List (F32 × F32 × TerrainKind) → State → List TerrainSpawn
  plan_entries seed c index [] s = []
  plan_entries seed c index ((fx, fy, kind) ∷ left) s =
      let (jx, s1) = gen_float 0xbf000000 0x3f000000 s in
      let (jy, s2) = gen_float 0xbf000000 0x3f000000 s1 in
      let (mass, structure, energy, conductivity) = content_of kind in
      record {
        chunk_origin = c;
        pos = record { x = placed c.x fx jx; y = placed c.y fy jy };
        node_rng = bit_xor (chunk_seed seed c) (index * 0x9e3779b1 % 2 ^ 64);
        kind = kind;
        mass = mass;
        structure = structure;
        energy = energy;
        conductivity = conductivity;
      }
      ∷ plan_entries seed c (suc index) left s2

  unfoldable pub terrain_plan_for_chunk : ChunkManager → ChunkOrigin → List TerrainSpawn
  terrain_plan_for_chunk m c =
      plan_entries m.seed c 0 entries (seed_from (bit_xor (chunk_seed m.seed c) 0xdeadbeef))

  unfoldable pub plan_chunks : ChunkManager → List ChunkOrigin → List TerrainSpawn
  plan_chunks m [] = []
  plan_chunks m (c ∷ chunks) = terrain_plan_for_chunk m c ++ plan_chunks m chunks

-- The chunk of a position.
unfoldable pub chunk_of : Vec2 → ChunkOrigin
chunk_of p = record { x = floor_i32 (div p.x chunk_size); y = floor_i32 (div p.y chunk_size) }

unfoldable pub chunk_at : ChunkOrigin → ℕ → ℕ → ChunkOrigin
chunk_at c i j = record { x = shifted c.x 1 i; y = shifted c.y 1 j }

-- The halo: the chunk and its eight neighbors, x by x.
unfoldable pub halo_column : ChunkOrigin → ℕ → List ChunkOrigin → List ChunkOrigin
halo_column c i set =
    insert_chunk (insert_chunk (insert_chunk set (chunk_at c i 0)) (chunk_at c i 1))
      (chunk_at c i 2)

unfoldable pub halo : ChunkOrigin → List ChunkOrigin → List ChunkOrigin
halo c set = halo_column c 2 (halo_column c 1 (halo_column c 0 set))

unfoldable pub desired_from : List Vec2 → List ChunkOrigin → List ChunkOrigin
desired_from [] set = set
desired_from (p ∷ agents) set = desired_from agents (halo (chunk_of p) set)

-- A row of the query over the nodes.
pub record Placed : Type 0 where
  pub entity : Entity
  pub position : Vec2
  pub origin : Option ChunkOrigin
  pub is_agent : Bool

unfoldable pub home_or : Option ChunkOrigin → Vec2 → ChunkOrigin
home_or none p = chunk_of p
home_or (some c) p = c

unfoldable pub to_despawn : List ChunkOrigin → List Placed → List Entity
to_despawn inactive [] = []
to_despawn inactive (n ∷ nodes) =
    let rest = to_despawn inactive nodes in
    if n.is_agent
    then rest
    else if has_chunk inactive (home_or n.origin n.position)
    then n.entity ∷ rest
    else rest

-- What a streaming comes to.
pub record Streamed : Type 0 where
  pub manager : ChunkManager
  pub spawned : List TerrainSpawn
  pub commands : List Command

module _ (rng : Rng) where
  unfoldable pub stream_now :
      ChunkManager → List Vec2 → List Placed → List (Entity × ClampJoint) → Streamed
  stream_now m agents nodes joints =
      let desired = desired_from agents [] in
      let gone = to_despawn (difference m.active desired) nodes in
      record {
        manager = record m { active = desired };
        spawned = plan_chunks rng m (difference desired m.active);
        commands = despawn_physical_entities gone joints;
      }

  -- Only every 120th step.
  unfoldable pub stream_chunks :
      ℕ → ChunkManager → List Vec2 → List Placed → List (Entity × ClampJoint) → Streamed
  stream_chunks step m agents nodes joints =
      if not (step % 120 == 0)
      then record { manager = m; spawned = []; commands = [] }
      else stream_now m agents nodes joints
