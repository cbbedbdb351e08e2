-- ===== src/Core/Genesis/Tests.antt =====
-- One agent at the origin, and one node far away.
use ertw.Core.Actuation.Joints.{despawned}
use ertw.Core.Genesis.Stream.{stream_chunks_lem, is_loose, is_left, near_agents}
use ertw.Core.World.Samples.{least}
use ertw.Core.World.{Vec2}
use ertw.Core.Genesis.{stream_chunks, has_chunk, Placed, ChunkManager}
use ertw.Core.Components.{ChunkOrigin, ClampJoint, Entity}
use ertw.Common.{◌||◌, [], ◌∷◌, refl, ◌≡◌, some, none, true, false, List, ◌^◌, ◌+◌}

abbrev far : ChunkOrigin
far = record { x = 2 ^ 31 + 9; y = 2 ^ 31 }

abbrev manager : ChunkManager
manager = record { active = far ∷ []; seed = 7 }

abbrev agents : List Vec2
agents = record { x = 0; y = 0 } ∷ []

abbrev nodes : List Placed
nodes =
    record { entity = 1; position = record { x = 0; y = 0 }; origin = none; is_agent = true }
    ∷ record { entity = 2; position = record { x = 0; y = 0 }; origin = some far; is_agent = false }
    ∷ []

-- Entity 3 is a joint from the agent to the node.
abbrev joints : List (Entity × ClampJoint)
joints = (3, record { owner = 1; target = 2 }) ∷ []

stream_chunks_lem_example :
    (has_chunk (stream_chunks least 240 manager agents nodes joints).manager.active far
      ≡ near_agents agents far)
    × (despawned (stream_chunks least 240 manager agents nodes joints).commands 3 ≡ (
        is_loose (is_left manager.active agents nodes) joints 3
        || is_left manager.active agents nodes 3))
stream_chunks_lem_example = stream_chunks_lem least 240 manager agents nodes joints far 3 refl
