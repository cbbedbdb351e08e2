-- ===== src/Core/Snapshot/Members.antt =====
-- Which row of a restored world is which node's.
use mathlib.Core.Option.{some_inj}
use ertw.Core.Snapshot.Restore.{linked_by}
use mathlib.Core.Path.{subst}
use ertw.Core.Snapshot.Maps.{IsAscending}
use ertw.Core.Snapshot.Final.{IsJoint}
use ertw.Core.Snapshot.Spawned.{IsRows}
use ertw.Core.Snapshot.Linked.{link_own_stable, joint_after, link_own, own_links}
use ertw.Core.Components.{Entity}
use ertw.Core.Snapshot.Rows.{kept, IsRowOf, IsOrdered}
use ertw.Core.Snapshot.{EntityRow, CanonicalNode, Rotations}
use ertw.Common.{
  refl, ◌∙◌, ◌+◌, sym, ap, none, zero, [], suc, arith, ◌++◌, ◌<◌, ◌∷◌, some, ◌≡◌, get_elem?, All, ℕ,
  List,
}

pub All-get_elem? :
    {A : Type 0} (P : A → Type 0) (xs : List A) (i : ℕ) (x : A)
    → All P xs
    → get_elem? xs i ≡ some x
    → P x
All-get_elem? P [] i x h g = absurd (cc)
All-get_elem? P (y ∷ xs) zero x h g = subst P (cc) h.0
All-get_elem? P (y ∷ xs) (suc i) x h g = All-get_elem? P xs i x h.1 g

ordered-lt :
    (nodes : List CanonicalNode) (i j : ℕ) (n m : CanonicalNode)
    → IsOrdered nodes
    → get_elem? nodes i ≡ some n
    → get_elem? nodes j ≡ some m
    → i < j
    → n.stable_id < m.stable_id
ordered-lt [] i j n m o gn gm lt = absurd (cc)
ordered-lt (k ∷ nodes) zero zero n m o gn gm lt = absurd (omega (arith, lt))
ordered-lt (k ∷ nodes) zero (suc j) n m o gn gm lt =
    subst (λ (t : CanonicalNode). t.stable_id < m.stable_id) (some_inj.0 gn)
      (All-get_elem? (λ t. k.stable_id < t.stable_id) nodes j m o.0 gm)
ordered-lt (k ∷ nodes) (suc i) zero n m o gn gm lt = absurd (omega (arith, lt))
ordered-lt (k ∷ nodes) (suc i) (suc j) n m o gn gm lt =
    ordered-lt nodes i j n m o.1 gn gm (omega (arith, lt))

module _ {S : Type 0} (rotations : Rotations) (controllers : List (ℕ × S)) where
  -- The row of a node: as it was spawned, with the clamp that its own link set.
  pub record IsFinal (entities : List (ℕ × Entity)) (n : CanonicalNode) (r : EntityRow)
      : Type 0 where
    pub spawned : EntityRow
    pub joint : Entity
    pub e : Entity
    pub is_row : IsRowOf rotations (kept controllers n) e n spawned
    pub linked : r ≡ link_own (linked_by entities n) joint spawned

  -- The row at the place of a node is that node's.
  pub row_of_node :
      (entities : List (ℕ × Entity)) (nodes : List CanonicalNode) (rows js : List EntityRow)
      (e next : Entity) (i : ℕ) (n : CanonicalNode)
      → IsRows rotations controllers e nodes rows
      → get_elem? nodes i ≡ some n
      → (r : EntityRow) × (get_elem? (own_links entities nodes rows next ++ js) i ≡ some r)
        × IsFinal entities n r
  unfolding own_links
  row_of_node entities [] rows js e next i n h g = absurd (cc)
  row_of_node entities (m ∷ nodes) [] js e next i n h g = absurd h
  row_of_node entities (m ∷ nodes) (r ∷ rows) js e next zero n h g =
      let q : m ≡ n = some_inj.0 g in
      (
        link_own (linked_by entities m) next r,
        refl,
        record {
          spawned = r;
          joint = next;
          e = e;
          is_row = subst (λ t. IsRowOf rotations (kept controllers t) e t r) q h.0;
          linked = ap (λ t. link_own (linked_by entities t) next r) q;
        },
      )
  row_of_node entities (m ∷ nodes) (r ∷ rows) js e next (suc i) n h g =
      row_of_node entities nodes rows js (e + 1) (joint_after (linked_by entities m) next) i n h.1 g

  -- A row with an identifier stands at the place of the node that has it.
  pub stable_node :
      (entities : List (ℕ × Entity)) (nodes : List CanonicalNode) (rows js : List EntityRow)
      (e next : Entity) (i : ℕ) (r : EntityRow) (id : ℕ)
      → IsRows rotations controllers e nodes rows
      → All IsJoint js
      → get_elem? (own_links entities nodes rows next ++ js) i ≡ some r
      → r.stable ≡ some id
      → (n : CanonicalNode) × (get_elem? nodes i ≡ some n) × (n.stable_id ≡ id)
  unfolding own_links
  stable_node entities [] [] js e next i r id h joints g q =
      let stable : r.stable ≡ none = (All-get_elem? IsJoint js i r joints g).0 in absurd (cc)
  stable_node entities [] (t ∷ rows) js e next i r id h joints g q = absurd h
  stable_node entities (m ∷ nodes) [] js e next i r id h joints g q = absurd h
  stable_node entities (m ∷ nodes) (t ∷ rows) js e next zero r id h joints g q = (
    m,
    refl,
    some_inj.0 (
        sym h.0.stable
        ∙ sym (link_own_stable (linked_by entities m) next t)
        ∙ ap (λ (u : EntityRow). u.stable) (some_inj.0 g)
        ∙ q),
  )
  stable_node entities (m ∷ nodes) (t ∷ rows) js e next (suc i) r id h joints g q =
      stable_node entities nodes rows js (e + 1) (joint_after (linked_by entities m) next) i r id
        h.1 joints g q

  pub stable-IsAscending :
      (entities : List (ℕ × Entity)) (nodes : List CanonicalNode) (rows js : List EntityRow)
      (e next : Entity)
      → IsOrdered nodes
      → IsRows rotations controllers e nodes rows
      → All IsJoint js
      → IsAscending (λ r. r.stable) (own_links entities nodes rows next ++ js)
  stable-IsAscending entities nodes rows js e next o h joints i j r s a b gr gs er es lt =
      let (n, gn, qn) = stable_node entities nodes rows js e next i r a h joints gr er in
      let (m, gm, qm) = stable_node entities nodes rows js e next j s b h joints gs es in
      omega (arith, ordered-lt nodes i j n m o gn gm lt, qn, qm)
