-- ===== src/Core/Actuation/Sound.antt =====
-- Clamps and joints agree after `cleanup_clamp_joints`.
use ertw.Core.Actuation.Intact.{
  reset_clamps_clamp, reset_clamps_visited, reset_clamps_same, reset_clamps_held,
}
use ertw.Core.Fragment.Divide.{contains}
use ertw.Core.Actuation.Joints.{despawned-append, without_orphans, joints_left, despawned}
use ertw.Core.Components.{ClampJoint, ClampState, Entity}
use ertw.Core.Actuation.Cleanup.{
  cleanup_clamp_joints, owner_matches, is_physical, is_intact, is_joint, orphans,
}
use ertw.Core.World.{Command, World}
use mathlib.Core.Option.{some_inj}
use ertw.Common.{
  Option-cases, [], inr, ap, ◌∙◌, inl, sym, ◌==◌, map_or, arith, Bool-cases, suc, ◌∷◌, get_elem?,
  false, true, ℕ, some, ◌≡◌, List, refl,
}

-- A clamp names no joint but those of its own entity, and that is physical.
abbrev pub IsOwned : World → Type 0
IsOwned w =
    (e : Entity) (c : ClampState)
    → w.clamp e ≡ some c
    → (is_physical w e ≡ true)
      × ((i j : ℕ) (joint : ClampJoint)
          → c.joint ≡ some j
          → get_elem? w.joints i ≡ some (j, joint)
          → joint.owner ≡ e)

orphans_spare :
    (w : World) (joints : List (Entity × ClampJoint)) (j : Entity)
    → ((i : ℕ) (joint : ClampJoint)
        → get_elem? joints i ≡ some (j, joint)
        → (is_physical w joint.owner ≡ true) × (owner_matches w j joint ≡ true))
    → despawned (orphans w joints) j ≡ false
unfolding orphans despawned
orphans_spare w [] j h = refl
orphans_spare w ((k, joint) ∷ joints) j h =
    let rest = orphans_spare w joints j (λ i. h (suc i)) in
    elim (Bool-cases (k == j)) [
      | inl q ↦
          let same : k ≡ j = ground (arith, q) in
          let (body, named) = h 0 joint (ap (λ t. some (t, joint)) same) in
          ground (arith, rest, body, rw (sym same) at named, same)
      | inr q ↦ ground (arith, rest, q)
    ]

is_joint_at :
    (joints : List (Entity × ClampJoint)) (j : Entity)
    → is_joint joints j ≡ true
    → (i : ℕ) × (joint : ClampJoint) × (get_elem? joints i ≡ some (j, joint))
unfolding is_joint
is_joint_at [] j h = absurd (cc)
is_joint_at ((k, joint) ∷ joints) j h = elim (Bool-cases (k == j)) [
  | inl q ↦ let same : k ≡ j = ground (arith, q) in (0, joint, ap (λ t. some (t, joint)) same)
  | inr q ↦ let (i, x, g) = is_joint_at joints j (ground (arith, q, h)) in (suc i, x, g)
]

is_joint_left :
    (commands : List Command) (joints : List (Entity × ClampJoint)) (j : Entity)
    → is_joint joints j ≡ true
    → despawned commands j ≡ false
    → is_joint (joints_left commands joints) j ≡ true
unfolding is_joint joints_left
is_joint_left commands [] j h left = absurd (cc)
is_joint_left commands ((k, joint) ∷ joints) j h left = elim (Bool-cases (k == j)) [
  | inl q ↦
      let same : k ≡ j = ground (arith, q) in
      rw (ap (despawned commands) same ∙ left) (ground (arith, q))
  | inr q ↦
      let rest = is_joint_left commands joints j (ground (arith, q, h)) left in
      elim (Bool-cases (despawned commands k)) [
        | inl gone ↦ rw gone rest
        | inr stays ↦ rw stays (ground (arith, rest))
      ]
]

same_intact : (w : World) (c : ClampState) → is_intact (without_orphans w) c ≡ is_intact w c
unfolding is_intact is_physical
same_intact w c = refl

module _ (entities : List Entity) (w : World) (owned : IsOwned w)
    (fresh : (j : Entity) → despawned w.commands j ≡ false) where
  named :
      (e : Entity) (c : ClampState) (j : Entity) (joint : ClampJoint)
      → w.clamp e ≡ some c
      → c.joint ≡ some j
      → joint.owner ≡ e
      → owner_matches w j joint ≡ true
  unfolding owner_matches
  named e c j joint g n q = ground (arith, g, n, q)

  -- The joint of an intact clamp is despawned neither as an orphan nor by a reset.
  joint_stays :
      (e : Entity) (c : ClampState) (j : Entity)
      → w.clamp e ≡ some c
      → c.joint ≡ some j
      → is_intact w c ≡ true
      → is_joint w.joints j ≡ true
      → despawned (cleanup_clamp_joints entities w).commands j ≡ false
  unfolding cleanup_clamp_joints
  joint_stays e c j g n whole there =
      let w0 = without_orphans w in
      let (i, joint, at) = is_joint_at w.joints j there in
      let mine : joint.owner ≡ e = (owned e c g).1 i j joint n at in
      let calm : despawned (orphans w w.joints) j ≡ false = orphans_spare w w.joints j (λ k x h.
        let q : x.owner ≡ e = (owned e c g).1 k j x n h in
        (rw q (owned e c g).0, named e c j x g n q)) in
      reset_clamps_held entities w0 j
        (λ e' c' g' n'.
          let same : e' ≡ e = sym ((owned e' c' g').1 i j joint n' at) ∙ mine in
          let q : c' ≡ c = some_inj.0 (sym g' ∙ ap w.clamp same ∙ g) in
          same_intact w c' ∙ ap (is_intact w) q ∙ whole)
        (despawned-append w.commands (orphans w w.joints) j ∙ ground (arith, fresh j, calm))

  held :
      (e : Entity) (c : ClampState)
      → w.clamp e ≡ some c
      → is_intact w c ≡ true
      → (map_or true (is_physical w) c.target ≡ true)
        × (map_or true
              (is_joint (joints_left (cleanup_clamp_joints entities w).commands w.joints))
              c.joint
            ≡ true)
  unfolding is_intact
  held e c g whole = elim (Option-cases c.joint) [
    | inl n ↦ (ground (arith, whole), rw n)
    | inr (j, n) ↦
        let there : is_joint w.joints j ≡ true = ground (arith, whole, n) in
        (
          ground (arith, whole),
          rw n (
              is_joint_left (cleanup_clamp_joints entities w).commands w.joints j there
                (joint_stays e c j g n whole there)),
        )
  ]

  -- Where a clamp names no joint but those of its own physical entity, a visited clamp has a target
  -- that is physical, if any, and a joint that is left, if any.
  pub cleanup_clamps :
      (e : Entity) (c : ClampState)
      → contains entities e ≡ true
      → (cleanup_clamp_joints entities w).clamp e ≡ some c
      → (map_or true (is_physical w) c.target ≡ true)
        × (map_or true
              (is_joint (joints_left (cleanup_clamp_joints entities w).commands w.joints))
              c.joint
            ≡ true)
  unfolding cleanup_clamp_joints
  cleanup_clamps e c visited g =
      let w0 = without_orphans w in
      let whole : is_intact w c ≡ true =
        sym (same_intact w c)
        ∙ sym (reset_clamps_same entities w0 c)
        ∙ reset_clamps_visited entities w0 e visited c g in
      elim (reset_clamps_clamp entities w0 e c g) [
        | inl q ↦ rw q (refl, refl)
        | inr q ↦ held e c q whole
      ]
