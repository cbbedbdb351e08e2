-- ===== src/Core/Genesis/Stream.antt =====
-- The chunks that are active after a streaming, and the nodes that go.
use ertw.Core.Rng.{Rng}
use ertw.Core.Genesis.{
  ChunkManager, home_or, chunk_at, stream_now, difference, insert_chunk, Placed, chunk_of,
  same_chunk, stream_chunks, to_despawn, desired_from, halo, halo_column, has_chunk,
}
use ertw.Core.World.{Vec2, despawn}
use ertw.Core.Actuation.Joints.{despawned, despawned-append}
use ertw.Core.Components.{ClampJoint, Entity, ChunkOrigin}
use ertw.Core.Fragment.Divide.{contains, joint_despawns, despawn_physical_entities}
use ertw.Common.{
  ap₂, ◌∙◌, map, ℕ, Bool, List, [], ◌∷◌, ◌==◌, ◌&&◌, ◌||◌, not, ◌≡◌, refl, arith, true, false, ◌%◌,
}

-- The chunk is one of three of a column around a chunk.
unfoldable pub near_column : ChunkOrigin → ChunkOrigin → ℕ → Bool
near_column c d i =
    same_chunk (chunk_at c i 0) d || same_chunk (chunk_at c i 1) d || same_chunk (chunk_at c i 2) d

-- The chunk is one of the nine around a chunk.
unfoldable pub near_chunk : ChunkOrigin → ChunkOrigin → Bool
near_chunk c d = near_column c d 0 || near_column c d 1 || near_column c d 2

-- The chunk is one of the nine around some agent.
unfoldable pub near_agents : List Vec2 → ChunkOrigin → Bool
near_agents [] d = false
near_agents (p ∷ agents) d = near_chunk (chunk_of p) d || near_agents agents d

-- Some row of the entity is no agent's, and its chunk was active and is around no agent.
unfoldable pub is_left : List ChunkOrigin → List Vec2 → List Placed → Entity → Bool
is_left active agents [] e = false
is_left active agents (n ∷ nodes) e =
    n.entity == e
      && (not n.is_agent
          && (has_chunk active (home_or n.origin n.position)
              && not (near_agents agents (home_or n.origin n.position))))
    || is_left active agents nodes e

has_chunk-insert_chunk :
    (set : List ChunkOrigin) (c d : ChunkOrigin)
    → has_chunk (insert_chunk set c) d ≡ (same_chunk c d || has_chunk set d)
unfolding has_chunk insert_chunk same_chunk
has_chunk-insert_chunk [] c d = refl
has_chunk-insert_chunk (b ∷ set) c d = ground (arith, has_chunk-insert_chunk set c d)

has_chunk-halo_column :
    (c d : ChunkOrigin) (i : ℕ) (set : List ChunkOrigin)
    → has_chunk (halo_column c i set) d ≡ (near_column c d i || has_chunk set d)
unfolding halo_column near_column
has_chunk-halo_column c d i set =
    let s1 = insert_chunk set (chunk_at c i 0) in
    let s2 = insert_chunk s1 (chunk_at c i 1) in
    ground (
      arith,
      has_chunk-insert_chunk set (chunk_at c i 0) d,
      has_chunk-insert_chunk s1 (chunk_at c i 1) d,
      has_chunk-insert_chunk s2 (chunk_at c i 2) d,
    )

has_chunk-halo :
    (c d : ChunkOrigin) (set : List ChunkOrigin)
    → has_chunk (halo c set) d ≡ (near_chunk c d || has_chunk set d)
unfolding halo near_chunk
has_chunk-halo c d set =
    let s1 = halo_column c 0 set in
    let s2 = halo_column c 1 s1 in
    ground (
      arith,
      has_chunk-halo_column c d 0 set,
      has_chunk-halo_column c d 1 s1,
      has_chunk-halo_column c d 2 s2,
    )

has_chunk-desired_from :
    (agents : List Vec2) (set : List ChunkOrigin) (d : ChunkOrigin)
    → has_chunk (desired_from agents set) d ≡ (near_agents agents d || has_chunk set d)
unfolding desired_from near_agents
has_chunk-desired_from [] set d = refl
has_chunk-desired_from (p ∷ agents) set d = ground (
  arith,
  has_chunk-desired_from agents (halo (chunk_of p) set) d,
  has_chunk-halo (chunk_of p) d set,
)

has_chunk-same :
    (set : List ChunkOrigin) (c d : ChunkOrigin)
    → same_chunk c d ≡ true
    → has_chunk set c ≡ has_chunk set d
unfolding has_chunk same_chunk
has_chunk-same [] c d h = refl
has_chunk-same (b ∷ set) c d h = ground (arith, h, has_chunk-same set c d)

has_chunk-difference :
    (set other : List ChunkOrigin) (d : ChunkOrigin)
    → has_chunk (difference set other) d ≡ (has_chunk set d && not (has_chunk other d))
unfolding has_chunk difference
has_chunk-difference [] other d = refl
has_chunk-difference (c ∷ set) other d =
    ground (arith, has_chunk-difference set other d, has_chunk-same other c d)

contains-to_despawn :
    (active : List ChunkOrigin) (agents : List Vec2) (nodes : List Placed) (e : Entity)
    → contains (to_despawn (difference active (desired_from agents [])) nodes) e
      ≡ is_left active agents nodes e
unfolding contains to_despawn is_left has_chunk
contains-to_despawn active agents [] e = refl
contains-to_despawn active agents (n ∷ nodes) e =
    let home = home_or n.origin n.position in
    ground (
      arith,
      has_chunk-difference active (desired_from agents []) home,
      has_chunk-desired_from agents [] home,
      contains-to_despawn active agents nodes e,
    )

-- The entity is a joint with an endpoint that goes.
unfoldable pub is_loose : (Entity → Bool) → List (Entity × ClampJoint) → Entity → Bool
is_loose goes [] e = false
is_loose goes ((j, joint) ∷ joints) e =
    j == e && (goes joint.owner || goes joint.target) || is_loose goes joints e

despawned-map : (gone : List Entity) (e : Entity) → despawned (map despawn gone) e ≡ contains gone e
unfolding despawned contains
despawned-map [] e = refl
despawned-map (x ∷ gone) e = ground (arith, despawned-map gone e)

despawned-joint_despawns :
    (gone : List Entity) (goes : Entity → Bool) (joints : List (Entity × ClampJoint)) (e : Entity)
    → ((x : Entity) → contains gone x ≡ goes x)
    → despawned (joint_despawns gone joints) e ≡ is_loose goes joints e
unfolding despawned joint_despawns is_loose
despawned-joint_despawns gone goes [] e h = refl
despawned-joint_despawns gone goes ((j, joint) ∷ joints) e h =
    ground (arith, h joint.owner, h joint.target, despawned-joint_despawns gone goes joints e h)

despawned-despawn_physical_entities :
    (gone : List Entity) (goes : Entity → Bool) (joints : List (Entity × ClampJoint)) (e : Entity)
    → ((x : Entity) → contains gone x ≡ goes x)
    → despawned (despawn_physical_entities gone joints) e ≡ (is_loose goes joints e || goes e)
unfolding despawn_physical_entities
despawned-despawn_physical_entities gone goes joints e h =
    despawned-append (joint_despawns gone joints) (map despawn gone) e
    ∙ ap₂ (λ a b. a || b) (despawned-joint_despawns gone goes joints e h)
        (despawned-map gone e ∙ h e)

-- Every 120th step makes exactly the chunks around the agents active. Its commands despawn exactly the
-- nodes that are no agents and whose chunk was active and is around no agent, and the joints with such
-- an endpoint.
pub stream_chunks_lem :
    (rng : Rng) (step : ℕ) (m : ChunkManager) (agents : List Vec2) (nodes : List Placed)
    (joints : List (Entity × ClampJoint)) (c : ChunkOrigin) (e : Entity)
    → step % 120 ≡ 0
    → (has_chunk (stream_chunks rng step m agents nodes joints).manager.active c
        ≡ near_agents agents c)
      × (despawned (stream_chunks rng step m agents nodes joints).commands e
          ≡ (is_loose (is_left m.active agents nodes) joints e || is_left m.active agents nodes e))
unfolding stream_chunks stream_now has_chunk
stream_chunks_lem rng step m agents nodes joints c e h = rw h (
  ground (arith, has_chunk-desired_from agents [] c),
  despawned-despawn_physical_entities
      (to_despawn (difference m.active (desired_from agents [])) nodes)
      (is_left m.active agents nodes) joints e (contains-to_despawn m.active agents nodes),
)
