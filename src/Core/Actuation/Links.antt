-- ===== src/Core/Actuation/Links.antt =====
-- The clamps and joints over the steps of a world: what the systems do to them, in any order.
use ertw.Core.Actuation.Cleanup.{is_physical, cleanup_clamp_joints}
use ertw.Core.Actuation.{apply_clamp}
use ertw.Interface.Action.{ActionTensor}
use ertw.Core.World.{
  update, spawn_daughter, spawn_structure, queue, remove, despawn, spawn_joint, Command, World,
}
use ertw.Core.Components.{Physical, ClampState, ClampJoint, Entity}
use ertw.Common.{
  ◌+◌, arith, none, All-imp, true, All, ◌==◌, ap, some, if◌then◌else◌, ◌≤◌, ◌++◌, ◌≡◌, ◌<◌, ◌∷◌,
  Option, [], List, refl,
}

-- The joints that the queued commands will spawn.
unfoldable pub pending : List Command → List (Entity × ClampJoint)
pending [] = []
pending (spawn_joint j owner target ∷ commands) =
    (j, record { owner = owner; target = target }) ∷ pending commands
pending (_ ∷ commands) = pending commands

unfoldable pub without_joint : Entity → List (Entity × ClampJoint) → List (Entity × ClampJoint)
without_joint e [] = []
without_joint e ((j, joint) ∷ joints) =
    let rest = without_joint e joints in if j == e then rest else (j, joint) ∷ rest

-- What a command does to joints, clamps and bodies. The spawn of a node is a step of its own.
unfoldable pub apply_command : World → Command → World
apply_command w (spawn_joint j owner target) = record w {
  joints = w.joints ++ ((j, record { owner = owner; target = target }) ∷ []);
}
apply_command w (despawn e) = record w {
  joints = without_joint e w.joints;
  clamp = remove w.clamp e;
  physical = remove w.physical e;
}
apply_command w _ = w

unfoldable pub apply_commands : List Command → World → World
apply_commands [] w = w
apply_commands (c ∷ commands) w = apply_commands commands (apply_command w c)

unfoldable pub flush : World → World
flush w = apply_commands w.commands (record w { commands = [] })

pub data ClampStep : World → World → Type 0 where
  -- The clamp part of `apply_one` on one entity.
  drives :
      (w : World) (e : Entity) (action : ActionTensor) (found : Option Entity)
      → ClampStep w (apply_clamp w e action found)
  cleans : (w : World) (entities : List Entity) → ClampStep w (cleanup_clamp_joints entities w)
  -- Any system despawns an entity.
  buries : (w : World) (e : Entity) → ClampStep w (queue w (despawn e))
  flushes : (w : World) → ClampStep w (flush w)
  -- An agent or another node is spawned.
  bears :
      (w : World) (p : Physical) (c : ClampState)
      → c.joint ≡ none
      → ClampStep w (record w {
        physical = update w.physical w.next_entity p;
        clamp = update w.clamp w.next_entity c;
        next_entity = w.next_entity + 1;
      })
  -- Any system changes what bodies hold.
  changes :
      (w : World) (physical : Entity → Option Physical)
      → ((e : Entity) → is_physical (record w { physical = physical }) e ≡ is_physical w e)
      → ClampStep w (record w { physical = physical })

pub data ClampReach (start : World) : World → Type 0 where
  here : ClampReach start start
  next : {v w : World} → ClampReach start v → ClampStep v w → ClampReach start w

-- A joint's name was given out, and a clamp that bears it is its owner's.
abbrev pub IsLink : (Entity → Option ClampState) → Entity → Entity × ClampJoint → Type 0
IsLink clamps bound link =
    (link.0 < bound)
    × ((e : Entity) (c : ClampState) → clamps e ≡ some c → c.joint ≡ some link.0 → link.1.owner ≡ e)

pub record IsTidy (w : World) : Type 0 where
  pub body : (e : Entity) (c : ClampState) → w.clamp e ≡ some c → is_physical w e ≡ true
  pub given :
      (e : Entity) (c : ClampState) (j : Entity)
      → w.clamp e ≡ some c
      → c.joint ≡ some j
      → j < w.next_entity
  pub standing : All (IsLink w.clamp w.next_entity) w.joints
  pub coming : All (IsLink w.clamp w.next_entity) (pending w.commands)

pub pending-append : (a b : List Command) → pending (a ++ b) ≡ pending a ++ pending b
unfolding pending
pending-append [] b = refl
pending-append (spawn_joint j o t ∷ a) b =
    ap (λ l. (j, record { owner = o; target = t }) ∷ l) (pending-append a b)
pending-append (despawn e ∷ a) b = pending-append a b
pending-append (spawn_structure p m e ∷ a) b = pending-append a b
pending-append (spawn_daughter d ∷ a) b = pending-append a b

-- Links stay links where clamps are released, removed or left, and names are given out.
pub IsLink-imp :
    (clamps clamps' : Entity → Option ClampState) (bound bound' : Entity)
    → bound ≤ bound'
    → ((e : Entity) (c : ClampState) (j : Entity)
        → clamps' e ≡ some c
        → c.joint ≡ some j
        → j < bound
        → (d : ClampState) × (clamps e ≡ some d) × (d.joint ≡ some j))
    → (links : List (Entity × ClampJoint)) → All (IsLink clamps bound) links
    → All (IsLink clamps' bound') links
IsLink-imp clamps clamps' bound bound' le keep links h =
    All-imp {P = IsLink clamps bound} {Q = IsLink clamps' bound'}
      (λ link l. (
        omega (arith, l.0, le),
        λ e c g n. let (d, gd, nd) = keep e c (link.0) g n l.0 in l.1 e d gd nd,
      ))
      links h
