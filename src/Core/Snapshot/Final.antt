-- ===== src/Core/Snapshot/Final.antt =====
-- The rows of a restored world: those of the nodes, in their order, and behind them the joints.
use ertw.Core.Snapshot.Restore.{linked_by}
use mathlib.Core.Option.{some_inj}
use mathlib.Core.Path.{subst}
use ertw.Core.Snapshot.Maps.{IsAscending}
use ertw.Core.Snapshot.Linked.{
  link_own_entity, joint_after, own_links, joints_of, IsNumbered, own_joints,
}
use ertw.Core.Snapshot.{CanonicalNode, EntityRow}
use ertw.Common.{
  inr, zero, refl, inl, ◌∙◌, suc, [], Option-cases, ap, arith, All, ◌++◌, ◌∷◌, some, length, none,
  get_elem?, ◌+◌, ◌≡◌, ℕ, List,
}
use ertw.Core.Components.{Entity}

IsNumbered-append :
    (e : Entity) (rows js : List EntityRow)
    → IsNumbered e rows
    → IsNumbered (e + length rows) js
    → IsNumbered e (rows ++ js)
IsNumbered-append e [] js h k = subst (λ m. IsNumbered m js) (omega arith) k
IsNumbered-append e (r ∷ rows) js h k =
    (h.0, IsNumbered-append (e + 1) rows js h.1 (subst (λ m. IsNumbered m js) (omega arith) k))

pub numbered_entity :
    (e : Entity) (rows : List EntityRow) (i : ℕ) (r : EntityRow)
    → IsNumbered e rows
    → get_elem? rows i ≡ some r
    → r.entity ≡ e + i
numbered_entity e [] i r h g = absurd (cc)
numbered_entity e (s ∷ rows) zero r h g = ground (arith, h.0)
numbered_entity e (s ∷ rows) (suc i) r h g = numbered_entity (e + 1) rows i r h.1 g ∙ omega arith

pub numbered-IsAscending :
    (e : Entity) (rows : List EntityRow) → IsNumbered e rows → IsAscending (λ r. some r.entity) rows
numbered-IsAscending e rows h i j r s a b gr gs er es lt = omega (
  arith,
  numbered_entity e rows i r h gr,
  numbered_entity e rows j s h gs,
  some_inj.0 er,
  some_inj.0 es,
  lt,
)

module _ (entities : List (ℕ × Entity)) where
  own_links-IsNumbered :
      (nodes : List CanonicalNode) (rows : List EntityRow) (e next : Entity)
      → IsNumbered e rows
      → IsNumbered e (own_links entities nodes rows next)
  unfolding own_links
  own_links-IsNumbered [] rows e next h = h
  own_links-IsNumbered (n ∷ nodes) [] e next h = h
  own_links-IsNumbered (n ∷ nodes) (r ∷ rows) e next h = (
    link_own_entity (linked_by entities n) next r ∙ h.0,
    own_links-IsNumbered nodes rows (e + 1) (joint_after (linked_by entities n) next) h.1,
  )

  length-own_links :
      (nodes : List CanonicalNode) (rows : List EntityRow) (next : Entity)
      → length (own_links entities nodes rows next) ≡ length rows
  unfolding own_links
  length-own_links [] rows next = refl
  length-own_links (n ∷ nodes) [] next = refl
  length-own_links (n ∷ nodes) (r ∷ rows) next =
      ap suc (length-own_links nodes rows (joint_after (linked_by entities n) next))

  own_joints-IsNumbered :
      (nodes : List CanonicalNode) (next : Entity)
      → IsNumbered next (own_joints entities nodes next)
  unfolding own_joints joints_of joint_after
  own_joints-IsNumbered [] next = tt
  own_joints-IsNumbered (n ∷ nodes) next = elim (Option-cases (linked_by entities n)) [
    | inl q ↦ rw (q, joints_of, joint_after) (own_joints-IsNumbered nodes next)
    | inr (link, q) ↦ rw (q, joints_of, joint_after) (refl, own_joints-IsNumbered nodes (next + 1))
  ]

  -- The rows of a restored world.
  abbrev pub final_rows : List CanonicalNode → List EntityRow → Entity → List EntityRow
  final_rows nodes rows next = own_links entities nodes rows next ++ own_joints entities nodes next

  pub final_rows-IsNumbered :
      (nodes : List CanonicalNode) (rows : List EntityRow) (e : Entity)
      → IsNumbered e rows
      → IsNumbered e (final_rows nodes rows (e + length rows))
  final_rows-IsNumbered nodes rows e h =
      let next = e + length rows in
      IsNumbered-append e (own_links entities nodes rows next) (own_joints entities nodes next)
        (own_links-IsNumbered nodes rows e next h)
        (rw (length-own_links nodes rows next) (own_joints-IsNumbered nodes next))

-- A row that has nothing but a joint.
abbrev pub IsJoint : EntityRow → Type 0
IsJoint r = (r.stable ≡ none) × (r.physical ≡ none)

pub own_joints-IsJoint :
    (entities : List (ℕ × Entity)) (nodes : List CanonicalNode) (next : Entity)
    → All IsJoint (own_joints entities nodes next)
unfolding own_joints joints_of joint_after
own_joints-IsJoint entities [] next = tt
own_joints-IsJoint entities (n ∷ nodes) next = elim (Option-cases (linked_by entities n)) [
  | inl q ↦ rw (q, joints_of, joint_after) (own_joints-IsJoint entities nodes next)
  | inr (link, q) ↦
      rw (q, joints_of, joint_after) ((refl, refl), own_joints-IsJoint entities nodes (next + 1))
]
