-- ===== src/Core/Snapshot/Restored.antt =====
-- `restore` and then `capture`.
use mathlib.Core.List.{append-nil}
use ertw.Core.Genesis.{comes_first}
use ertw.Core.Snapshot.Reads.{canonical-settle}
use mathlib.Core.Path.{subst}
use ertw.Core.Snapshot.Members.{stable_node, row_of_node}
use ertw.Core.Fields.{refresh_drift, set_time, Noise}
use ertw.Core.Snapshot.Restore.{
  link_nodes, ok, spawn_nodes, restore_active_chunks, new_simulation, restore_world, restore,
  Restoring,
}
use ertw.Core.Snapshot.Roundtrip.{
  insert_all_ascending, IsOrdered-map, sort_nodes_ordered, IsAscendingChunks, filter_map_nodes,
}
use ertw.Core.Snapshot.Final.{own_joints-IsJoint}
use ertw.Core.Snapshot.Final.{own_joints-IsJoint}
use ertw.Core.Snapshot.Linked.{link_nodes_lem, own_joints}
use ertw.Core.Snapshot.Ids.{ensure_ids_rows, restored-IsNamed, IsNamed}
use ertw.Core.Snapshot.Lookup.{IsRows-IsNumbered, world_rows}
use ertw.Core.Registry.{get}
use ertw.Core.Snapshot.Spawned.{
  get-spawn_nodes, spawn_nodes_next, spawn_nodes-IsPlaced, spawn_nodes-IsRows, has_node, IsPlaced,
  IsRows,
}
use ertw.Core.Snapshot.Rows.{IsOrdered}
use ertw.Core.Components.{ChunkOrigin, Entity}
use Prim.Native.String.{String}
use ertw.Core.Snapshot.Settled.{settle}
use ertw.Core.Snapshot.{
  snapshot_schema_version, capture, ensure_ids, sort_nodes, lookups_of, Simulation, filter_map,
  CanonicalNode, EntityRow, Lookups, WorldSnapshot, canonical_node, Rotations,
}
use ertw.Common.{
  ap₂, true, inr, inl, ◌∙◌, Option-cases, sym, [], suc, zero, suc, arith, ◌∷◌, some, All, get_elem?,
  ◌+◌, ◌≤◌, length, false, map, none, ◌≡◌, Option, ℕ, List, refl,
}

-- What a capture of the restored world is: the snapshot with every node settled.
unfoldable pub settled :
    {S : Type 0} → Rotations → WorldSnapshot → List (ℕ × S) → Option String → WorldSnapshot
settled rotations s controllers checkpoint = record s {
  agent_checkpoint = checkpoint;
  nodes = map (settle rotations controllers s.nodes) s.nodes;
}

settle_id :
    {S : Type 0} (rotations : Rotations) (controllers : List (ℕ × S)) (nodes : List CanonicalNode)
    (n : CanonicalNode)
    → (settle rotations controllers nodes n).stable_id ≡ n.stable_id
unfolding settle
settle_id rotations controllers nodes n = refl

canonical_nameless :
    (rotations : Rotations) (maps : Lookups) (r : EntityRow)
    → r.stable ≡ none
    → canonical_node rotations maps r ≡ none
unfolding canonical_node
canonical_nameless rotations maps r h = rw h

module _ {S : Type 0} (rotations : Rotations) (controllers : List (ℕ × S))
    (nodes : List CanonicalNode) (rows : List EntityRow) (e : Entity) (entities : List (ℕ × Entity))
    (o : IsOrdered nodes) (rs : IsRows rotations controllers e nodes rows)
    (placed : IsPlaced entities e nodes)
    (missing : (id : ℕ) → has_node nodes id ≡ false → get entities id ≡ none) where
  abbrev world : List EntityRow
  world = world_rows rotations controllers nodes rows e entities o rs placed

  read_back :
      filter_map (canonical_node rotations (lookups_of world)) world
      ≡ map (settle rotations controllers nodes) nodes
  read_back =
      let next = e + length rows in
      let js = own_joints entities nodes next in
      filter_map_nodes (canonical_node rotations (lookups_of world))
        (settle rotations controllers nodes) nodes world
        (λ i n g.
          let (r, gr, f) =
            row_of_node rotations controllers entities nodes rows js e next i n rs g in
          (
            r,
            gr,
            canonical-settle rotations controllers nodes rows e entities o rs placed missing i n g r
                gr f,
          ))
        (λ i r le gr. elim (Option-cases r.stable) [
          | inl q ↦ canonical_nameless rotations (lookups_of world) r q
          | inr (id, q) ↦
              let (n, g, p) =
                stable_node rotations controllers entities nodes rows js e next i r id rs
                  (own_joints-IsJoint entities nodes next) gr q in
              absurd (beyond nodes i n le g)
        ])
    where
      beyond :
          (ns : List CanonicalNode) (i : ℕ) (n : CanonicalNode)
          → length ns ≤ i
          → get_elem? ns i ≡ some n
          → ⊥
      beyond [] i n le g = cc
      beyond (m ∷ ns) zero n le g = omega (arith, le)
      beyond (m ∷ ns) (suc i) n le g = beyond ns i n (omega (arith, le)) g

  pub read_world :
      (sim : Simulation S)
      → sim.rows ≡ world
      → sort_nodes (
          filter_map
            (canonical_node rotations (lookups_of (ensure_ids sim).rows))
            (ensure_ids sim).rows)
        ≡ map (settle rotations controllers nodes) nodes
  read_world sim h =
      let next = e + length rows in
      let named : All IsNamed world =
        restored-IsNamed rotations controllers entities nodes rows (own_joints entities nodes next)
          e next rs (own_joints-IsJoint entities nodes next) in
      let same : (ensure_ids sim).rows ≡ world =
        ensure_ids_rows sim (subst (All IsNamed) (sym h) named) ∙ h in
      rw (same, read_back)
        (sort_nodes_ordered (map (settle rotations controllers nodes) nodes) (
          IsOrdered-map (settle rotations controllers nodes) (settle_id rotations controllers nodes)
            nodes o))

-- What the first loop starts from.
abbrev initial : {S : Type 0} → Entity → List (ℕ × S) → Restoring S
initial first controllers = record {
  agents = record { controllers = []; next_id = 0 };
  controllers = controllers;
  entities = [];
  next_entity = first;
  next_stable = 0;
}

same_controllers :
    {S : Type 0} (controllers : List (ℕ × S)) (nodes : List CanonicalNode)
    → All (λ m. get controllers m.stable_id ≡ get controllers m.stable_id) nodes
same_controllers controllers [] = tt
same_controllers controllers (n ∷ nodes) = (refl, same_controllers controllers nodes)

module _ {S : Type 0} (noise : Noise) (rotations : Rotations) (first : Entity) (s : WorldSnapshot)
    (controllers : List (ℕ × S)) (o : IsOrdered s.nodes) where
  restored_nodes :
      (checkpoint : Option String)
      → (capture rotations (restore_world noise rotations first s controllers) checkpoint).1.nodes
        ≡ map (settle rotations controllers s.nodes) s.nodes
  unfolding capture restore_world new_simulation get
  restored_nodes checkpoint =
      let st = initial first controllers in
      let (rows, last) = spawn_nodes rotations s.nodes st in
      let rs =
        spawn_nodes-IsRows rotations controllers s.nodes st o
          (same_controllers controllers s.nodes) in
      let placed = spawn_nodes-IsPlaced rotations s.nodes st o in
      let shape = IsRows-IsNumbered rotations controllers first s.nodes rows rs in
      let next : last.next_entity ≡ first + length rows =
        spawn_nodes_next rotations s.nodes st ∙ omega (arith, shape.1) in
      read_world rotations controllers s.nodes rows first last.entities o rs placed
        (λ id h. get-spawn_nodes rotations s.nodes st id h)
        (restore_world noise rotations first s controllers)
        (ap₂ (λ l n. (link_nodes last.entities s.nodes (l, n)).0) (sym (append-nil rows)) next
          ∙ link_nodes_lem last.entities s.nodes rows [] (first + length rows) first placed shape.0
              shape.1)

  restored_chunks :
      IsAscendingChunks s.active_chunks
      → (restore_world noise rotations first s controllers).chunks.active ≡ s.active_chunks
  unfolding restore_world restore_active_chunks
  restored_chunks up = insert_all_ascending [] s.active_chunks (nothing s.active_chunks) up
    where
      nothing : (chunks : List ChunkOrigin) → All (λ c. All (λ d. comes_first d c ≡ true) []) chunks
      nothing [] = tt
      nothing (c ∷ chunks) = (tt, nothing chunks)

same_fields :
    (a b : WorldSnapshot)
    → (a.schema_version ≡ b.schema_version)
      × (a.seed ≡ b.seed)
      × (a.simulation_tick ≡ b.simulation_tick)
      × (a.field_time ≡ b.field_time)
      × (a.agent_checkpoint ≡ b.agent_checkpoint)
      × (a.active_chunks ≡ b.active_chunks)
      × (a.nodes ≡ b.nodes)
    → a ≡ b
same_fields a b h = λ i. record {
  schema_version = h.0 i;
  seed = h.1 i;
  simulation_tick = h.2 i;
  field_time = h.3 i;
  agent_checkpoint = h.4 i;
  active_chunks = h.5 i;
  nodes = h.6 i;
}

same_snapshot :
    {S : Type 0} (noise : Noise) (rotations : Rotations) (first : Entity) (s : WorldSnapshot)
    (controllers : List (ℕ × S)) (checkpoint : Option String)
    → s.schema_version ≡ snapshot_schema_version
    → (restore_world noise rotations first s controllers).chunks.active ≡ s.active_chunks
    → (capture rotations (restore_world noise rotations first s controllers) checkpoint).1.nodes
      ≡ map (settle rotations controllers s.nodes) s.nodes
    → (capture rotations (restore_world noise rotations first s controllers) checkpoint).1
      ≡ settled rotations s controllers checkpoint
unfolding capture settled restore_world ensure_ids set_time refresh_drift new_simulation
same_snapshot noise rotations first s controllers checkpoint v q p =
    same_fields (capture rotations (restore_world noise rotations first s controllers) checkpoint).1
      (settled rotations s controllers checkpoint) (sym v, refl, refl, refl, refl, q, p)

-- Restoring a snapshot of this schema, with its nodes and its chunks in order, succeeds, and a
-- capture of the restored world is the snapshot again but for three things: the checkpoint is the
-- one given, an angle is what its quaternion gives back, and an agent is there where it has a
-- controller, its clamp where the target is a node of the snapshot.
pub capture-restore :
    {S : Type 0} (noise : Noise) (rotations : Rotations) (first : Entity) (s : WorldSnapshot)
    (controllers : List (ℕ × S)) (checkpoint : Option String)
    → s.schema_version ≡ snapshot_schema_version
    → IsOrdered s.nodes
    → IsAscendingChunks s.active_chunks
    → (sim : Simulation S) × (restore noise rotations first s controllers ≡ ok sim)
      × ((capture rotations sim checkpoint).1 ≡ settled rotations s controllers checkpoint)
unfolding restore
capture-restore noise rotations first s controllers checkpoint v o up =
    let sim = restore_world noise rotations first s controllers in
    (
      sim,
      ground (arith, v),
      same_snapshot noise rotations first s controllers checkpoint v
          (restored_chunks noise rotations first s controllers o up)
          (restored_nodes noise rotations first s controllers o checkpoint),
    )
