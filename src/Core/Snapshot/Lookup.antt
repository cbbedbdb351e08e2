-- ===== src/Core/Snapshot/Lookup.antt =====
-- What `capture` looks up in a restored world is what the snapshot said.
use ertw.Core.Snapshot.Restore.{linked_by}
use mathlib.Core.Path.{subst}
use ertw.Core.Snapshot.Members.{row_of_node, stable-IsAscending}
use ertw.Core.Registry.{get}
use ertw.Core.Snapshot.Maps.{get-collect, IsAscending}
use ertw.Core.Snapshot.Final.{
  numbered_entity, own_joints-IsJoint, numbered-IsAscending, final_rows-IsNumbered, final_rows,
}
use ertw.Core.Snapshot.Linked.{link_own_stable, own_joints, IsNumbered}
use ertw.Core.Snapshot.Rows.{IsOrdered}
use ertw.Core.Components.{Entity}
use ertw.Core.Snapshot.Spawned.{IsPlaced, IsRows, has_node}
use ertw.Core.Snapshot.{collect, stable_ids_of, EntityRow, CanonicalNode, Rotations}
use mathlib.Core.Option.{some_inj}
use ertw.Common.{
  zero, inr, sym, arith, inl, suc, ◌∙◌, ◌==◌, ap, [], Bool-cases, ◌∷◌, ◌+◌, some, length, Option,
  get_elem?, true, ◌≡◌, ℕ, List, refl,
}

pub IsRows-IsNumbered :
    {S : Type 0} (rotations : Rotations) (controllers : List (ℕ × S)) (e : Entity)
    (nodes : List CanonicalNode) (rows : List EntityRow)
    → IsRows rotations controllers e nodes rows
    → IsNumbered e rows × (length rows ≡ length nodes)
IsRows-IsNumbered rotations controllers e [] [] h = (tt, refl)
IsRows-IsNumbered rotations controllers e [] (r ∷ rows) h = absurd h
IsRows-IsNumbered rotations controllers e (n ∷ nodes) [] h = absurd h
IsRows-IsNumbered rotations controllers e (n ∷ nodes) (r ∷ rows) h =
    let rest = IsRows-IsNumbered rotations controllers (e + 1) nodes rows h.1 in
    ((h.0.entity, rest.0), ap suc rest.1)

pub has_node_at :
    (nodes : List CanonicalNode) (id : ℕ)
    → has_node nodes id ≡ true
    → (i : ℕ) × (n : CanonicalNode) × (get_elem? nodes i ≡ some n) × (n.stable_id ≡ id)
unfolding has_node
has_node_at [] id h = absurd (cc)
has_node_at (n ∷ nodes) id h = elim (Bool-cases (n.stable_id == id)) [
  | inl q ↦ (0, n, refl, ground (arith, q))
  | inr q ↦ let (i, m, g, s) = has_node_at nodes id (ground (arith, q, h)) in (suc i, m, g, s)
]

pub placed_at :
    (entities : List (ℕ × Entity)) (e : Entity) (nodes : List CanonicalNode) (i : ℕ)
    (n : CanonicalNode)
    → IsPlaced entities e nodes
    → get_elem? nodes i ≡ some n
    → get entities n.stable_id ≡ some (e + i)
placed_at entities e [] i n p g = absurd (cc)
placed_at entities e (m ∷ nodes) zero n p g =
    subst (λ (t : CanonicalNode). get entities t.stable_id ≡ some (e + 0)) (some_inj.0 g)
      (p.0 ∙ ap some (omega arith))
placed_at entities e (m ∷ nodes) (suc i) n p g =
    placed_at entities (e + 1) nodes i n p.1 g ∙ ap some (omega arith)

module _ {S : Type 0} (rotations : Rotations) (controllers : List (ℕ × S))
    (nodes : List CanonicalNode) (rows : List EntityRow) (e : Entity) (entities : List (ℕ × Entity))
    (o : IsOrdered nodes) (rs : IsRows rotations controllers e nodes rows)
    (placed : IsPlaced entities e nodes) where
  abbrev pub world_rows : List EntityRow
  world_rows = final_rows entities nodes rows (e + length rows)

  abbrev ids : List (Entity × ℕ)
  ids = stable_ids_of world_rows

  world_rows-IsNumbered : IsNumbered e world_rows
  world_rows-IsNumbered =
      final_rows-IsNumbered entities nodes rows e
        (IsRows-IsNumbered rotations controllers e nodes rows rs).0

  -- An entity's identifier.
  get-ids : (i : ℕ) (r : EntityRow) → get_elem? world_rows i ≡ some r → get ids r.entity ≡ r.stable
  unfolding stable_ids_of get
  get-ids i r g =
      get-collect (λ (t : EntityRow). some t.entity) (λ t. t.stable) world_rows [] i r r.entity
        (numbered-IsAscending e world_rows world_rows-IsNumbered) g refl refl

  ids-IsAscending : IsAscending (λ (r : EntityRow). get ids r.entity) world_rows
  ids-IsAscending i j r s a b gr gs er es lt =
      stable-IsAscending rotations controllers entities nodes rows
        (own_joints entities nodes (e + length rows)) e (e + length rows) o rs
        (own_joints-IsJoint entities nodes (e + length rows)) i j r s a b gr gs
        (sym (get-ids i r gr) ∙ er) (sym (get-ids j s gs) ∙ es) lt

  -- A map that `capture` collects answers by the row of the node.
  pub get-collected :
      {B : Type 0} (value : EntityRow → Option B) (i : ℕ) (r : EntityRow) (id : ℕ)
      → get_elem? world_rows i ≡ some r
      → r.stable ≡ some id
      → get (collect (λ t. get ids t.entity) value [] world_rows) id ≡ value r
  unfolding get
  get-collected value i r id g q =
      get-collect (λ (t : EntityRow). get ids t.entity) value world_rows [] i r id ids-IsAscending g
        (get-ids i r g ∙ q) refl

  -- The entity of a node has the node's identifier.
  pub ids_of_node :
      (i : ℕ) (n : CanonicalNode) → get_elem? nodes i ≡ some n → get ids (e + i) ≡ some n.stable_id
  ids_of_node i n g =
      let (r, gr, f) =
        row_of_node rotations controllers entities nodes rows
          (own_joints entities nodes (e + length rows)) e (e + length rows) i n rs g in
      let stable : r.stable ≡ some n.stable_id =
        ap (λ (t : EntityRow). t.stable) f.linked
        ∙ link_own_stable (linked_by entities n) f.joint f.spawned
        ∙ f.is_row.stable in
      ap (get ids) (sym (numbered_entity e world_rows i r world_rows-IsNumbered gr))
      ∙ get-ids i r gr
      ∙ stable
