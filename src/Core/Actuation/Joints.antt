-- ===== src/Core/Actuation/Joints.antt =====
-- What `cleanup_clamp_joints` leaves.
use ertw.Core.Actuation.{drop_joint}
use ertw.Core.Components.{ClampState, ClampJoint, Entity}
use ertw.Core.World.{spawn_daughter, spawn_structure, spawn_joint, despawn, queue, World, Command}
use ertw.Core.Actuation.Cleanup.{
  is_physical, cleanup_clamp_joints, orphans, owner_matches, reset_clamps, reset_clamp,
}
use ertw.Common.{
  Bool-cases, zero, suc, get_elem?, ℕ, map_or, refl, inr, inl, Option-cases, some, arith, [], ◌==◌,
  true, ◌||◌, if◌then◌else◌, ◌∷◌, ◌≡◌, false, ◌++◌, Bool, List,
}

-- A command despawns the entity.
unfoldable pub despawned : List Command → Entity → Bool
despawned [] j = false
despawned (despawn e ∷ commands) j = e == j || despawned commands j
despawned (_ ∷ commands) j = despawned commands j

-- The joints that are left once the commands are applied.
unfoldable pub joints_left : List Command → List (Entity × ClampJoint) → List (Entity × ClampJoint)
joints_left commands [] = []
joints_left commands ((j, joint) ∷ joints) =
    let rest = joints_left commands joints in
    if despawned commands j then rest else (j, joint) ∷ rest

pub despawned-append :
    (a b : List Command) (j : Entity) → despawned (a ++ b) j ≡ (despawned a j || despawned b j)
unfolding despawned
despawned-append [] b j = refl
despawned-append (despawn e ∷ a) b j = ground (arith, despawned-append a b j)
despawned-append (spawn_joint e o t ∷ a) b j = despawned-append a b j
despawned-append (spawn_structure p m e ∷ a) b j = despawned-append a b j
despawned-append (spawn_daughter d ∷ a) b j = despawned-append a b j

-- One reset keeps the clamp of a joint that it does not despawn.
reset_clamp_keeps :
    (w : World) (e : Entity) (c : ClampState) (j : Entity) (joint : ClampJoint)
    → w.clamp e ≡ some c
    → despawned (reset_clamp w e c).commands j ≡ false
    → owner_matches w j joint ≡ true
    → (despawned w.commands j ≡ false) × (owner_matches (reset_clamp w e c) j joint ≡ true)
unfolding reset_clamp owner_matches drop_joint queue despawned
reset_clamp_keeps w e c j joint at left named = elim (Option-cases c.joint) [
  | inl q ↦ ground (arith, at, left, named, q)
  | inr (k, q) ↦ ground (arith, at, left, named, q, despawned-append w.commands (despawn k ∷ []) j)
]

-- One round of the loop over the clamps.
abbrev pub reset_one : Entity → World → World
reset_one e w = map_or w (reset_clamp w e) (w.clamp e)

reset_one_keeps :
    (e : Entity) (w : World) (j : Entity) (joint : ClampJoint)
    → despawned (reset_one e w).commands j ≡ false
    → owner_matches w j joint ≡ true
    → (despawned w.commands j ≡ false) × (owner_matches (reset_one e w) j joint ≡ true)
reset_one_keeps e w j joint left named = elim (Option-cases (w.clamp e)) [
  | inl q ↦ rw q (rw q at left, named)
  | inr (c, q) ↦ rw q (reset_clamp_keeps w e c j joint q (rw q at left) named)
]

reset_clamps_left :
    (entities : List Entity) (w : World) (j : Entity)
    → despawned (reset_clamps entities w).commands j ≡ false
    → despawned w.commands j ≡ false
unfolding reset_clamps reset_clamp drop_joint queue despawned
reset_clamps_left [] w j left = left
reset_clamps_left (e ∷ entities) w j left =
    let before = reset_clamps_left entities (reset_one e w) j left in
    elim (Option-cases (w.clamp e)) [
      | inl q ↦ rw q at before
      | inr (c, q) ↦ elim (Option-cases c.joint) [
        | inl n ↦ ground (arith, q, n, before)
        | inr (k, n) ↦ ground (arith, q, n, before, despawned-append w.commands (despawn k ∷ []) j)
      ]
    ]

reset_clamps_keeps :
    (entities : List Entity) (w : World) (j : Entity) (joint : ClampJoint)
    → despawned (reset_clamps entities w).commands j ≡ false
    → owner_matches w j joint ≡ true
    → owner_matches (reset_clamps entities w) j joint ≡ true
unfolding reset_clamps
reset_clamps_keeps [] w j joint left named = named
reset_clamps_keeps (e ∷ entities) w j joint left named =
    reset_clamps_keeps entities (reset_one e w) j joint left
      (reset_one_keeps e w j joint (reset_clamps_left entities (reset_one e w) j left) named).1

-- A joint whose owner is gone, or names another joint, is an orphan.
orphans_named :
    (w : World) (joints : List (Entity × ClampJoint)) (i : ℕ) (j : Entity) (joint : ClampJoint)
    → get_elem? joints i ≡ some (j, joint)
    → despawned (orphans w joints) j ≡ false
    → (is_physical w joint.owner ≡ true) × (owner_matches w j joint ≡ true)
unfolding orphans despawned
orphans_named w [] i j joint g left = absurd (cc)
orphans_named w ((k, other) ∷ joints) zero j joint g left = ground (arith, g, left)
orphans_named w ((k, other) ∷ joints) (suc i) j joint g left =
    ground (arith, left, orphans_named w joints i j joint g)

left_from :
    (commands : List Command) (joints : List (Entity × ClampJoint)) (i : ℕ) (j : Entity)
    (joint : ClampJoint)
    → get_elem? (joints_left commands joints) i ≡ some (j, joint)
    → (k : ℕ) × (get_elem? joints k ≡ some (j, joint)) × (despawned commands j ≡ false)
unfolding joints_left
left_from commands [] i j joint g = absurd (cc)
left_from commands ((k, other) ∷ joints) i j joint g = elim (Bool-cases (despawned commands k)) [
  | inl q ↦ let (n, h, left) = left_from commands joints i j joint (rw q at g) in (suc n, h, left)
  | inr q ↦ first (λ n. left_from commands joints n j joint) i (rw q at g) q
]
  where
    first :
        ((n : ℕ)
          → get_elem? (joints_left commands joints) n ≡ some (j, joint)
          → (m : ℕ) × (get_elem? joints m ≡ some (j, joint)) × (despawned commands j ≡ false))
        → (n : ℕ) → get_elem? ((k, other) ∷ joints_left commands joints) n ≡ some (j, joint)
        → despawned commands k ≡ false
        → (m : ℕ) × (get_elem? ((k, other) ∷ joints) m ≡ some (j, joint))
          × (despawned commands j ≡ false)
    first rest zero h q = (0, h, ground (arith, h, q))
    first rest (suc n) h q = let (m, r, left) = rest n h in (suc m, r, left)

-- The world whose clamps are visited: the orphans are despawned.
abbrev pub without_orphans : World → World
without_orphans w = record w { commands = w.commands ++ orphans w w.joints }

same_owner :
    (w : World) (j : Entity) (joint : ClampJoint)
    → owner_matches w j joint ≡ true
    → owner_matches (without_orphans w) j joint ≡ true
unfolding owner_matches
same_owner w j joint h = h

-- A joint that is left has a physical owner, whose clamp names it.
pub cleanup_joints :
    (entities : List Entity) (w : World) (i : ℕ) (j : Entity) (joint : ClampJoint)
    → get_elem? (joints_left (cleanup_clamp_joints entities w).commands w.joints) i
      ≡ some (j, joint)
    → (is_physical w joint.owner ≡ true)
      × (owner_matches (cleanup_clamp_joints entities w) j joint ≡ true)
unfolding cleanup_clamp_joints
cleanup_joints entities w i j joint g =
    let w0 = without_orphans w in
    let (k, h, left) = left_from (reset_clamps entities w0).commands w.joints i j joint g in
    let at_start = reset_clamps_left entities w0 j left in
    let (body, named) =
      orphans_named w w.joints k j joint h
        (ground (arith, at_start, despawned-append w.commands (orphans w w.joints) j)) in
    (body, reset_clamps_keeps entities w0 j joint left (same_owner w j joint named))
