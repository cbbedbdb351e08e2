-- ===== src/Core/Snapshot/Captured.antt =====
-- A capture is a snapshot that can be restored.
use mathlib.Core.Path.{subst}
use ertw.Core.Snapshot.Restored.{capture-restore, settled}
use ertw.Core.StableIds.Laws.{ensure_stable_ids_lem}
use ertw.Core.Snapshot.Restore.{ok, restore}
use ertw.Core.Snapshot.Roundtrip.{IsAscendingChunks}
use ertw.Core.Fields.{Noise}
use ertw.Core.Snapshot.Rows.{IsOrdered}
use ertw.Core.Registry.{get}
use Prim.Native.String.{String}
use ertw.Core.StableIds.Unique.{IsUnique}
use ertw.Core.Components.{Entity}
use ertw.Core.Snapshot.Ordered.{sorted_rows-IsOrdered, HasOwnIds, IsDistinct}
use ertw.Core.Snapshot.{
  lookups_of, snapshot_schema_version, named_of, CanonicalNode, EntityRow, Lookups, ensure_ids,
  Rotations, Simulation, capture, canonical_node, with_ids,
}
use ertw.Core.StableIds.{
  assign, ensure_stable_ids, nameless, highest, observe, Named, name_rows, name_row,
}
use mathlib.Core.Option.{some_inj}
use ertw.Common.{
  ◌∙◌, ◌^◌, zero, ◌<◌, [], suc, length, sym, inr, ◌+◌, ap, inl, arith, ◌∷◌, some, Option-cases, ◌≡◌,
  get_elem?, map, ℕ, Option, List, refl,
}

name_row-entity :
    (assigned : List (Entity × ℕ)) (n : Named) → (name_row assigned n).entity ≡ n.entity
unfolding name_row
name_row-entity assigned n = elim (Option-cases (get assigned n.entity)) [
  | inl q ↦ rw (q, name_row)
  | inr (id, q) ↦ rw (q, name_row)
]

-- A row with its identifier, and the name that it got it from.
row_origin :
    (assigned : List (Entity × ℕ)) (rows : List EntityRow) (i : ℕ) (r : EntityRow)
    → get_elem? (with_ids rows (name_rows assigned (map named_of rows))) i ≡ some r
    → (old : EntityRow) × (get_elem? rows i ≡ some old)
      × (get_elem? (name_rows assigned (map named_of rows)) i
          ≡ some (name_row assigned (named_of old)))
      × (r.stable ≡ (name_row assigned (named_of old)).stable)
unfolding with_ids name_rows
row_origin assigned [] i r g = absurd (cc)
row_origin assigned (t ∷ rows) zero r g =
    (t, refl, refl, ap (λ (u : EntityRow). u.stable) (sym (some_inj.0 g)))
row_origin assigned (t ∷ rows) (suc i) r g = row_origin assigned rows i r g

canonical_id :
    (rotations : Rotations) (maps : Lookups) (r : EntityRow) (n : CanonicalNode)
    → canonical_node rotations maps r ≡ some n
    → r.stable ≡ some n.stable_id
unfolding canonical_node
canonical_id rotations maps r n h = ground arith

capture_schema :
    {S : Type 0} (rotations : Rotations) (sim : Simulation S) (checkpoint : Option String)
    → (capture rotations sim checkpoint).1.schema_version ≡ snapshot_schema_version
unfolding capture
capture_schema rotations sim checkpoint = refl

capture_chunks :
    {S : Type 0} (rotations : Rotations) (sim : Simulation S) (checkpoint : Option String)
    → sim.chunks.active ≡ (capture rotations sim checkpoint).1.active_chunks
unfolding capture ensure_ids
capture_chunks rotations sim checkpoint = refl

module _ {S : Type 0} (sim : Simulation S) (distinct : IsDistinct sim.rows)
    (unique : IsUnique (map named_of sim.rows))
    (few : observe sim.next_stable (highest (map named_of sim.rows))
        + length (nameless (map named_of sim.rows))
      < 2 ^ 64) where
  ensure_ids-HasOwnIds : HasOwnIds (ensure_ids sim).rows
  unfolding ensure_ids ensure_stable_ids named_of
  ensure_ids-HasOwnIds i j r s id gr gs er es =
      let names = map named_of sim.rows in
      let assigned = (assign (observe sim.next_stable (highest names)) (nameless names)).0 in
      let (r0, g0, n0, q0) = row_origin assigned sim.rows i r gr in
      let (s0, h0, m0, p0) = row_origin assigned sim.rows j s gs in
      let same =
        (ensure_stable_ids_lem sim.next_stable names unique few).0 i j
          (name_row assigned (named_of r0)) (name_row assigned (named_of s0)) id n0 m0 (sym q0 ∙ er)
          (sym p0 ∙ es) in
      distinct i j r0 s0 g0 h0 (
        sym (name_row-entity assigned (named_of r0))
        ∙ same
        ∙ name_row-entity assigned (named_of s0))

  pub capture-IsOrdered :
      (rotations : Rotations) (checkpoint : Option String)
      → IsOrdered (capture rotations sim checkpoint).1.nodes
  unfolding capture
  capture-IsOrdered rotations checkpoint =
      sorted_rows-IsOrdered (canonical_node rotations (lookups_of (ensure_ids sim).rows))
        (λ r n q. canonical_id rotations (lookups_of (ensure_ids sim).rows) r n q)
        (ensure_ids sim).rows ensure_ids-HasOwnIds

  -- A world whose entities have different identifiers, as far as they have any, and whose active
  -- chunks are in order, is captured as a snapshot that restores; a capture of the restored world
  -- is that snapshot settled.
  pub recapture :
      (noise : Noise) (rotations : Rotations) (first : Entity) (controllers : List (ℕ × S))
      (checkpoint next : Option String)
      → IsAscendingChunks sim.chunks.active
      → (again : Simulation S) × (restore noise rotations first
            (capture rotations sim checkpoint).1
            controllers
          ≡ ok again)
        × ((capture rotations again next).1
            ≡ settled rotations (capture rotations sim checkpoint).1 controllers next)
  recapture noise rotations first controllers checkpoint next up =
      capture-restore noise rotations first (capture rotations sim checkpoint).1 controllers next
        (capture_schema rotations sim checkpoint) (capture-IsOrdered rotations checkpoint)
        (subst IsAscendingChunks (capture_chunks rotations sim checkpoint) up)
