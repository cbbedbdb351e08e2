-- ===== src/Core/Actuation/Intact.antt =====
-- The clamps after `cleanup_clamp_joints`.
use mathlib.Core.Path.{subst}
use ertw.Core.Fragment.Divide.{contains}
use ertw.Core.Actuation.Joints.{despawned-append, despawned, reset_one}
use ertw.Core.Actuation.{released, drop_joint}
use ertw.Core.World.{despawn, queue, World}
use ertw.Core.Actuation.Cleanup.{reset_clamps, is_physical, is_intact, reset_clamp}
use ertw.Core.Components.{ClampState, Entity}
use ertw.Common.{
  ◌==◌, [], ◌∷◌, false, List, Bool-cases, arith, inr, ◌⊎◌, inl, true, Option-cases, some, ◌∙◌, ◌≡◌,
  refl,
}

-- The clamp of one entity is intact, if it has one.
abbrev pub IsIntactAt : Entity → World → Type 0
IsIntactAt e w = (c : ClampState) → w.clamp e ≡ some c → is_intact w c ≡ true

-- A clamp after a round is released, or as it was.
pub reset_one_clamp :
    (e' : Entity) (w : World) (e : Entity) (c : ClampState)
    → (reset_one e' w).clamp e ≡ some c
    → (c ≡ released) ⊎ (w.clamp e ≡ some c)
unfolding reset_clamp drop_joint queue
reset_one_clamp e' w e c h = elim (Option-cases (w.clamp e')) [
  | inl q ↦ inr (rw q at h)
  | inr (k, q) ↦ elim (Option-cases k.joint) [
    | inl n ↦ ground (arith, q, n, h)
    | inr (j, n) ↦ ground (arith, q, n, h)
  ]
]

-- Whether a clamp is intact depends on nothing that a round changes.
reset_one_same :
    (e : Entity) (w : World) (c : ClampState) → is_intact (reset_one e w) c ≡ is_intact w c
unfolding reset_clamp drop_joint queue is_intact is_physical
reset_one_same e w c = elim (Option-cases (w.clamp e)) [
  | inl q ↦ rw q
  | inr (k, q) ↦ rw q (elim (Bool-cases (is_intact w k)) [
    | inl t ↦ rw t
    | inr f ↦ elim (Option-cases k.joint) [ inl n ↦ rw (f, n) | inr (j, n) ↦ rw (f, n) ]
  ])
]

pub released-is_intact : (w : World) → is_intact w released ≡ true
unfolding is_intact
released-is_intact w = refl

-- A round leaves a clamp intact that was.
reset_one_intact :
    (e' : Entity) (w : World) (e : Entity) → IsIntactAt e w → IsIntactAt e (reset_one e' w)
reset_one_intact e' w e h c g =
    reset_one_same e' w c
    ∙ elim (reset_one_clamp e' w e c g) [ inl q ↦ rw q (released-is_intact w) | inr q ↦ h c q ]

-- After the round of an entity its own clamp is intact.
reset_one_own : (e : Entity) (w : World) → IsIntactAt e (reset_one e w)
unfolding reset_clamp drop_joint queue
reset_one_own e w c g = reset_one_same e w c ∙ elim (Option-cases (w.clamp e)) [
  | inl q ↦ absurd (ground (arith, q, g))
  | inr (k, q) ↦ elim (Bool-cases (is_intact w k)) [
    | inl t ↦ ground (arith, q, t, g)
    | inr f ↦ elim (Option-cases k.joint) [
      | inl n ↦ ground (arith, q, f, n, g, released-is_intact w)
      | inr (j, n) ↦ ground (arith, q, f, n, g, released-is_intact w)
    ]
  ]
]

reset_clamps_intact :
    (entities : List Entity) (w : World) (e : Entity)
    → IsIntactAt e w
    → IsIntactAt e (reset_clamps entities w)
unfolding reset_clamps
reset_clamps_intact [] w e h = h
reset_clamps_intact (e' ∷ entities) w e h =
    reset_clamps_intact entities (reset_one e' w) e (reset_one_intact e' w e h)

pub reset_clamps_visited :
    (entities : List Entity) (w : World) (e : Entity)
    → contains entities e ≡ true
    → IsIntactAt e (reset_clamps entities w)
unfolding reset_clamps contains
reset_clamps_visited [] w e h = absurd (cc)
reset_clamps_visited (e' ∷ entities) w e h = elim (Bool-cases (e' == e)) [
  | inl q ↦
      reset_clamps_intact entities (reset_one e' w) e
        (subst (λ a. IsIntactAt e (reset_one a w)) (ground (arith, q)) (reset_one_own e w))
  | inr q ↦ reset_clamps_visited entities (reset_one e' w) e (ground (arith, q, h))
]

pub reset_clamps_same :
    (entities : List Entity) (w : World) (c : ClampState)
    → is_intact (reset_clamps entities w) c ≡ is_intact w c
unfolding reset_clamps
reset_clamps_same [] w c = refl
reset_clamps_same (e ∷ entities) w c =
    reset_clamps_same entities (reset_one e w) c ∙ reset_one_same e w c

pub reset_clamps_clamp :
    (entities : List Entity) (w : World) (e : Entity) (c : ClampState)
    → (reset_clamps entities w).clamp e ≡ some c
    → (c ≡ released) ⊎ (w.clamp e ≡ some c)
unfolding reset_clamps
reset_clamps_clamp [] w e c h = inr h
reset_clamps_clamp (e' ∷ entities) w e c h =
    elim (reset_clamps_clamp entities (reset_one e' w) e c h) [
      | inl q ↦ inl q
      | inr q ↦ reset_one_clamp e' w e c q
    ]

-- Every clamp that names the joint is intact.
abbrev pub IsHeldBy : Entity → World → Type 0
IsHeldBy j w =
    (e : Entity) (c : ClampState) → w.clamp e ≡ some c → c.joint ≡ some j → is_intact w c ≡ true

-- A reset spares the joint of an intact clamp.
spared :
    (w : World) (e : Entity) (c : ClampState) (j : Entity)
    → despawned w.commands j ≡ false
    → (c.joint ≡ some j → is_intact w c ≡ true)
    → despawned (reset_clamp w e c).commands j ≡ false
unfolding reset_clamp drop_joint queue despawned
spared w e c j left h = elim (Bool-cases (is_intact w c)) [
  | inl t ↦ rw (t, reset_clamp) left
  | inr f ↦ elim (Option-cases c.joint) [
    | inl n ↦ rw (f, n) left
    | inr (k, n) ↦
        rw (f, n) (ground (arith, left, despawned-append w.commands (despawn k ∷ []) j, n, f, h))
  ]
]

reset_one_held :
    (e : Entity) (w : World) (j : Entity)
    → IsHeldBy j w
    → despawned w.commands j ≡ false
    → (despawned (reset_one e w).commands j ≡ false) × IsHeldBy j (reset_one e w)
reset_one_held e w j h left = (
  kept,
  λ e' c g n. reset_one_same e w c ∙ elim (reset_one_clamp e w e' c g) [
    | inl q ↦ rw q (released-is_intact w)
    | inr q ↦ h e' c q n
  ],
)
  where
    kept : despawned (reset_one e w).commands j ≡ false
    kept = elim (Option-cases (w.clamp e)) [
      | inl q ↦ rw q left
      | inr (c, q) ↦ rw q (spared w e c j left (h e c q))
    ]

pub reset_clamps_held :
    (entities : List Entity) (w : World) (j : Entity)
    → IsHeldBy j w
    → despawned w.commands j ≡ false
    → despawned (reset_clamps entities w).commands j ≡ false
unfolding reset_clamps
reset_clamps_held [] w j h left = left
reset_clamps_held (e ∷ entities) w j h left =
    let (left', h') = reset_one_held e w j h left in
    reset_clamps_held entities (reset_one e w) j h' left'
