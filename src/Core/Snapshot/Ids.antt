-- ===== src/Core/Snapshot/Ids.antt =====
-- `ensure_stable_ids` leaves a world alone whose physical entities all have identifiers.
use ertw.Core.Snapshot.Restore.{linked_by}
use ertw.Core.Snapshot.Final.{IsJoint}
use ertw.Core.Snapshot.Spawned.{IsRows}
use ertw.Core.Components.{Entity}
use ertw.Core.Snapshot.Linked.{joint_after, link_own_stable, own_links}
use ertw.Core.Registry.{get}
use ertw.Core.StableIds.{
  nameless_row, Named, assign, ensure_stable_ids, name_row, name_rows, nameless,
}
use ertw.Core.Snapshot.{
  CanonicalNode, Simulation, named_of, Rotations, ensure_ids, with_ids, EntityRow,
}
use ertw.Common.{
  ◌+◌, ◌∙◌, true, false, sym, map_or, All-imp, inr, ◌++◌, inl, Option-cases, some, ap, Bool, ◌∷◌,
  [], ℕ, map, All, none, List, ◌≡◌, refl,
}

-- A row without an identifier is not physical.
abbrev pub IsNamed : EntityRow → Type 0
IsNamed r = r.stable ≡ none → r.physical ≡ none

nameless-nil : (rows : List EntityRow) → All IsNamed rows → nameless (map named_of rows) ≡ []
unfolding nameless named_of nameless_row
nameless-nil [] h = refl
nameless-nil (r ∷ rows) h = elim (Option-cases r.stable) [
  | inl q ↦ rw (q, h.0 q, nameless_row) (nameless-nil rows h.1)
  | inr (id, q) ↦ rw q (
      nameless_row_some (map_or false (λ _. true) r.physical) id r.entity _ ∙ nameless-nil rows h.1)
]
  where
    nameless_row_some :
        (b : Bool) (id : ℕ) (e : Entity) (rest : List Entity)
        → nameless_row b (some id) e rest ≡ rest
    nameless_row_some true id e rest = refl
    nameless_row_some false id e rest = refl

name_rows-nil : (rows : List Named) → name_rows [] rows ≡ rows
unfolding name_rows name_row get
name_rows-nil [] = refl
name_rows-nil (r ∷ rows) = ap (λ l. r ∷ l) (name_rows-nil rows)

with_ids_same : (rows : List EntityRow) → with_ids rows (map named_of rows) ≡ rows
unfolding with_ids named_of
with_ids_same [] = refl
with_ids_same (r ∷ rows) = ap (λ l. r ∷ l) (with_ids_same rows)

pub ensure_ids_rows :
    {S : Type 0} (sim : Simulation S) → All IsNamed sim.rows → (ensure_ids sim).rows ≡ sim.rows
unfolding ensure_ids ensure_stable_ids assign
ensure_ids_rows sim h =
    rw (nameless-nil sim.rows h, assign, name_rows-nil (map named_of sim.rows))
      (with_ids_same sim.rows)

module _ {S : Type 0} (rotations : Rotations) (controllers : List (ℕ × S)) where
  pub restored-IsNamed :
      (entities : List (ℕ × Entity)) (nodes : List CanonicalNode) (rows js : List EntityRow)
      (e next : Entity)
      → IsRows rotations controllers e nodes rows
      → All IsJoint js
      → All IsNamed (own_links entities nodes rows next ++ js)
  unfolding own_links
  restored-IsNamed entities [] [] js e next h k =
      All-imp {P = IsJoint} {Q = IsNamed} (λ r j _. j.1) js k
  restored-IsNamed entities [] (r ∷ rows) js e next h k = absurd h
  restored-IsNamed entities (n ∷ nodes) [] js e next h k = absurd h
  restored-IsNamed entities (n ∷ nodes) (r ∷ rows) js e next h k = (
    λ q.
        let s = sym (link_own_stable (linked_by entities n) next r ∙ h.0.stable) ∙ q in absurd (cc),
    restored-IsNamed entities nodes rows js (e + 1) (joint_after (linked_by entities n) next) h.1 k,
  )
