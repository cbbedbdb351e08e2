-- ===== src/Core/Snapshot/Ordered.antt =====
-- What `capture` lists is in strict order of the identifiers.
use ertw.Core.Snapshot.Rows.{IsOrdered}
use ertw.Core.Snapshot.{filter_map, CanonicalNode, EntityRow, sort_nodes, insert_node}
use ertw.Common.{
  ap, ◌∙◌, All-imp, ◌<◌, inr, Option-cases, inl, arith, suc, leb, [], Bool-cases, ◌≢◌, ◌∷◌, some,
  ◌≡◌, All, get_elem?, Option, ℕ, List, refl,
}

-- A row for each entity.
abbrev pub IsDistinct : List EntityRow → Type 0
IsDistinct rows =
    (i j : ℕ) (r s : EntityRow)
    → get_elem? rows i ≡ some r
    → get_elem? rows j ≡ some s
    → r.entity ≡ s.entity
    → i ≡ j

-- No two of the rows have one identifier.
abbrev pub HasOwnIds : List EntityRow → Type 0
HasOwnIds rows =
    (i j : ℕ) (r s : EntityRow) (id : ℕ)
    → get_elem? rows i ≡ some r
    → get_elem? rows j ≡ some s
    → r.stable ≡ some id
    → s.stable ≡ some id
    → i ≡ j

insert_node-All :
    (P : CanonicalNode → Type 0) (n : CanonicalNode) (nodes : List CanonicalNode)
    → P n
    → All P nodes
    → All P (insert_node n nodes)
unfolding insert_node
insert_node-All P n [] p h = (p, tt)
insert_node-All P n (m ∷ nodes) p h = elim (Bool-cases (leb n.stable_id m.stable_id)) [
  | inl q ↦ rw q (p, h)
  | inr q ↦ rw q (h.0, insert_node-All P n nodes p h.1)
]

sort_nodes-All :
    (P : CanonicalNode → Type 0) (nodes : List CanonicalNode)
    → All P nodes
    → All P (sort_nodes nodes)
unfolding sort_nodes
sort_nodes-All P [] h = tt
sort_nodes-All P (n ∷ nodes) h =
    insert_node-All P n (sort_nodes nodes) h.0 (sort_nodes-All P nodes h.1)

insert_node-IsOrdered :
    (n : CanonicalNode) (nodes : List CanonicalNode)
    → All (λ m. m.stable_id ≢ n.stable_id) nodes
    → IsOrdered nodes
    → IsOrdered (insert_node n nodes)
unfolding insert_node
insert_node-IsOrdered n [] d o = (tt, tt)
insert_node-IsOrdered n (m ∷ nodes) d o = elim (Bool-cases (leb n.stable_id m.stable_id)) [
  | inl q ↦
      let lt : n.stable_id < m.stable_id = ground (arith, q, d.0) in
      rw q (
        (
          lt,
          All-imp {P = λ (k : CanonicalNode). m.stable_id < k.stable_id}
              {Q = λ (k : CanonicalNode). n.stable_id < k.stable_id} (λ k h. omega (arith, lt, h))
              nodes o.0,
        ),
        o,
      )
  | inr q ↦ rw q (
    insert_node-All (λ k. m.stable_id < k.stable_id) n nodes (ground (arith, q)) o.0,
    insert_node-IsOrdered n nodes d.1 o.1,
  )
]

module _ (f : EntityRow → Option CanonicalNode)
    (names : (r : EntityRow) (n : CanonicalNode) → f r ≡ some n → r.stable ≡ some n.stable_id) where
  filter_map_fresh :
      (rows : List EntityRow) (id : ℕ)
      → ((i : ℕ) (r : EntityRow) → get_elem? rows i ≡ some r → r.stable ≢ some id)
      → All (λ m. m.stable_id ≢ id) (filter_map f rows)
  unfolding filter_map
  filter_map_fresh [] id h = tt
  filter_map_fresh (r ∷ rows) id h =
      let rest = filter_map_fresh rows id (λ i s g. h (suc i) s g) in
      elim (Option-cases (f r)) [
        | inl q ↦ rw q rest
        | inr (n, q) ↦ rw q ((λ e. h 0 r refl (names r n q ∙ ap some e)), rest)
      ]

  pub sorted_rows-IsOrdered :
      (rows : List EntityRow) → HasOwnIds rows → IsOrdered (sort_nodes (filter_map f rows))
  unfolding filter_map sort_nodes
  sorted_rows-IsOrdered [] h = tt
  sorted_rows-IsOrdered (r ∷ rows) h =
      let rest =
        sorted_rows-IsOrdered rows
          (λ i j s t id gs gt es et. omega (arith, h (suc i) (suc j) s t id gs gt es et)) in
      elim (Option-cases (f r)) [
        | inl q ↦ rw q rest
        | inr (n, q) ↦ rw q (
            insert_node-IsOrdered n (sort_nodes (filter_map f rows))
              (sort_nodes-All (λ m. m.stable_id ≢ n.stable_id) (filter_map f rows)
                (filter_map_fresh rows n.stable_id (λ i s g e.
                  absurd (omega (arith, h 0 (suc i) r s n.stable_id refl g (names r n q) e)))))
              rest)
      ]
