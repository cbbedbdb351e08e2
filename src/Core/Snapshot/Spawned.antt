-- ===== src/Core/Snapshot/Spawned.antt =====
-- The first loop of `restore`: one row for each node, and a map from identifiers to entities.
use ertw.Core.Registry.Laws.{get-insert}
use ertw.Core.StableIds.{observe}
use ertw.Core.Registry.{insert, get}
use ertw.Core.Snapshot.Rows.{
  restore_agent_state, IsRowOf, spawn_node-IsRowOf, restore_agent_controllers, IsOrdered, kept,
}
use ertw.Core.Components.{Entity}
use ertw.Core.Snapshot.Restore.{base_row, Restoring, spawn_nodes, spawn_node}
use ertw.Core.Snapshot.{EntityRow, CanonicalNode, Rotations}
use ertw.Common.{
  refl, length, ap, [], some, ◌||◌, ◌+◌, ◌∙◌, arith, ◌==◌, ◌<◌, ◌≢◌, ◌≡◌, ◌∷◌, false, All, Bool, ℕ,
  List,
}

-- Some node has the identifier.
unfoldable pub has_node : List CanonicalNode → ℕ → Bool
has_node [] id = false
has_node (n ∷ nodes) id = n.stable_id == id || has_node nodes id

has_node_later :
    (nodes : List CanonicalNode) (k : ℕ)
    → All (λ m. k < m.stable_id) nodes
    → has_node nodes k ≡ false
unfolding has_node
has_node_later [] k h = refl
has_node_later (n ∷ nodes) k h = ground (arith, has_node_later nodes k h.1, h.0)

-- The nodes are mapped to consecutive entities.
abbrev pub IsPlaced : List (ℕ × Entity) → Entity → List CanonicalNode → Type 0
IsPlaced entities e [] = Unit
IsPlaced entities e (n ∷ nodes) =
    (get entities n.stable_id ≡ some e) × IsPlaced entities (e + 1) nodes

module _ {S : Type 0} (rotations : Rotations) where
  abbrev pub IsRows : List (ℕ × S) → Entity → List CanonicalNode → List EntityRow → Type 0
  IsRows controllers e [] [] = Unit
  IsRows controllers e (n ∷ nodes) (r ∷ rows) =
      IsRowOf rotations (kept controllers n) e n r × IsRows controllers (e + 1) nodes rows
  IsRows controllers e _ _ = ⊥

  spawn_node_state :
      (n : CanonicalNode) (st : Restoring S)
      → ((spawn_node rotations n st).1.entities ≡ insert st.entities n.stable_id st.next_entity)
        × ((spawn_node rotations n st).1.next_entity ≡ st.next_entity + 1)
  unfolding spawn_node
  spawn_node_state n st =
      let e = st.next_entity in
      let st' : Restoring S = record st {
        entities = insert st.entities n.stable_id e;
        next_entity = e + 1;
        next_stable = observe st.next_stable n.stable_id;
      } in
      let h = restore_agent_state n.stable_id (base_row rotations e n) n.agent st' in (h.0, h.1)

  spawn_node_controllers :
      (n : CanonicalNode) (st : Restoring S) (j : ℕ)
      → n.stable_id ≢ j
      → get (spawn_node rotations n st).1.controllers j ≡ get st.controllers j
  unfolding spawn_node
  spawn_node_controllers n st j d =
      restore_agent_controllers n.stable_id (base_row rotations st.next_entity n) n.agent _ j d

  later_controllers :
      (controllers : List (ℕ × S)) (n : CanonicalNode) (st : Restoring S)
      (nodes : List CanonicalNode)
      → All (λ m. n.stable_id < m.stable_id) nodes
      → All (λ m. get st.controllers m.stable_id ≡ get controllers m.stable_id) nodes
      → All
          (λ m.
            get (spawn_node rotations n st).1.controllers m.stable_id ≡ get controllers m.stable_id)
          nodes
  later_controllers controllers n st [] lt same = tt
  later_controllers controllers n st (m ∷ nodes) lt same = (
    spawn_node_controllers n st m.stable_id (λ q. omega (arith, lt.0, q)) ∙ same.0,
    later_controllers controllers n st nodes lt.1 same.1,
  )

  pub spawn_nodes-IsRows :
      (controllers : List (ℕ × S)) (nodes : List CanonicalNode) (st : Restoring S)
      → IsOrdered nodes
      → All (λ m. get st.controllers m.stable_id ≡ get controllers m.stable_id) nodes
      → IsRows controllers st.next_entity nodes (spawn_nodes rotations nodes st).0
  unfolding spawn_nodes kept
  spawn_nodes-IsRows controllers [] st o same = tt
  spawn_nodes-IsRows controllers (n ∷ nodes) st o same = (
    rw same.0 at (spawn_node-IsRowOf rotations n st),
    rw (spawn_node_state n st).1 at (
        spawn_nodes-IsRows controllers nodes (spawn_node rotations n st).1 o.1
          (later_controllers controllers n st nodes o.0 same.1)),
  )

  pub get-spawn_nodes :
      (nodes : List CanonicalNode) (st : Restoring S) (k : ℕ)
      → has_node nodes k ≡ false
      → get (spawn_nodes rotations nodes st).1.entities k ≡ get st.entities k
  unfolding spawn_nodes has_node
  get-spawn_nodes [] st k h = refl
  get-spawn_nodes (n ∷ nodes) st k h =
      get-spawn_nodes nodes (spawn_node rotations n st).1 k (ground arith)
      ∙ ap (λ m. get m k) (spawn_node_state n st).0
      ∙ ground (arith, get-insert st.entities n.stable_id k st.next_entity)

  pub spawn_nodes-IsPlaced :
      (nodes : List CanonicalNode) (st : Restoring S)
      → IsOrdered nodes
      → IsPlaced (spawn_nodes rotations nodes st).1.entities st.next_entity nodes
  unfolding spawn_nodes
  spawn_nodes-IsPlaced [] st o = tt
  spawn_nodes-IsPlaced (n ∷ nodes) st o = (
    get-spawn_nodes nodes (spawn_node rotations n st).1 n.stable_id
          (has_node_later nodes n.stable_id o.0)
        ∙ ap (λ m. get m n.stable_id) (spawn_node_state n st).0
        ∙ ground (arith, get-insert st.entities n.stable_id n.stable_id st.next_entity),
    rw (spawn_node_state n st).1 at (spawn_nodes-IsPlaced nodes (spawn_node rotations n st).1 o.1),
  )

  pub spawn_nodes_next :
      (nodes : List CanonicalNode) (st : Restoring S)
      → (spawn_nodes rotations nodes st).1.next_entity ≡ st.next_entity + length nodes
  unfolding spawn_nodes
  spawn_nodes_next [] st = omega arith
  spawn_nodes_next (n ∷ nodes) st =
      omega (arith, spawn_nodes_next nodes (spawn_node rotations n st).1, (spawn_node_state n st).1)
