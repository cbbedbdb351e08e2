-- ===== src/Core/Actuation/Cleanup.antt =====
-- crates/ertw_core/src/actuation.rs: `cleanup_clamp_joints`. `entities` is the order in which the
-- query visits the clamps.
use ertw.Core.Actuation.{released, drop_joint}
use ertw.Core.Components.{ClampJoint, ClampState, Entity}
use ertw.Common.{
  none, some, ◌&&◌, ◌||◌, [], true, not, ◌==◌, map_or, false, ◌++◌, ◌∷◌, if◌then◌else◌, Bool, List,
}
use ertw.Core.World.{despawn, update, Command, World}

unfoldable pub is_physical : World → Entity → Bool
is_physical w e = elim (w.physical e) [ none ↦ false | some p ↦ true ]

unfoldable pub is_joint : List (Entity × ClampJoint) → Entity → Bool
is_joint [] e = false
is_joint ((j, joint) ∷ joints) e = j == e || is_joint joints e

-- The owner's clamp still names this joint.
unfoldable pub owner_matches : World → Entity → ClampJoint → Bool
owner_matches w e joint = elim (w.clamp joint.owner) [
  | none ↦ false
  | some c ↦ elim c.joint [ none ↦ false | some j ↦ j == e ]
]

-- The despawns of orphaned joints.
unfoldable pub orphans : World → List (Entity × ClampJoint) → List Command
orphans w [] = []
orphans w ((j, joint) ∷ joints) =
    let rest = orphans w joints in
    if not (is_physical w joint.owner) || not (owner_matches w j joint)
    then despawn j ∷ rest
    else rest

unfoldable pub is_intact : World → ClampState → Bool
is_intact w c = map_or true (is_physical w) c.target && map_or true (is_joint w.joints) c.joint

unfoldable pub reset_clamp : World → Entity → ClampState → World
reset_clamp w e c =
    if is_intact w c
    then w
    else (let w' = drop_joint w c.joint in record w' { clamp = update w'.clamp e released })

unfoldable pub reset_clamps : List Entity → World → World
reset_clamps [] w = w
reset_clamps (e ∷ entities) w = reset_clamps entities (map_or w (reset_clamp w e) (w.clamp e))

unfoldable pub cleanup_clamp_joints : List Entity → World → World
cleanup_clamp_joints entities w =
    reset_clamps entities (record w { commands = w.commands ++ orphans w w.joints })
