-- ===== src/Core/Snapshot/Roundtrip.antt =====
-- Capture after restore.
use mathlib.Core.List.{append_assoc, append-nil}
use mathlib.Core.Path.{subst}
use ertw.Core.Snapshot.Rows.{IsOrdered}
use ertw.Core.Components.{ChunkOrigin}
use ertw.Core.Genesis.Plan.{insert_all}
use ertw.Core.Genesis.{same_chunk, comes_first, insert_chunk}
use ertw.Core.Snapshot.{insert_node, EntityRow, CanonicalNode, sort_nodes, filter_map}
use mathlib.Core.Option.{some_inj}
use ertw.Common.{
  suc, none, All-append, ◌≤◌, sym, length, ◌++◌, arith, ◌∙◌, some, [], map, ◌<◌, ap, get_elem?,
  true, All, ℕ, Option, ◌∷◌, ◌≡◌, List, refl,
}

-- The chunks of an ascending list come in their order.
abbrev pub IsAscendingChunks : List ChunkOrigin → Type 0
IsAscendingChunks [] = Unit
IsAscendingChunks (c ∷ chunks) = All (λ d. comes_first c d ≡ true) chunks × IsAscendingChunks chunks

pub filter_map_nodes :
    (f : EntityRow → Option CanonicalNode) (h : CanonicalNode → CanonicalNode)
    (nodes : List CanonicalNode) (rows : List EntityRow)
    → ((i : ℕ) (n : CanonicalNode)
        → get_elem? nodes i ≡ some n
        → (r : EntityRow) × (get_elem? rows i ≡ some r) × (f r ≡ some (h n)))
    → ((i : ℕ) (r : EntityRow) → length nodes ≤ i → get_elem? rows i ≡ some r → f r ≡ none)
    → filter_map f rows ≡ map h nodes
unfolding filter_map
filter_map_nodes f h [] [] at rest = refl
filter_map_nodes f h [] (r ∷ rows) at rest = rw (rest 0 r (omega arith) refl) (
    filter_map_nodes f h [] rows (λ i n g. absurd (cc))
      (λ i s le g. rest (suc i) s (omega arith) g))
filter_map_nodes f h (n ∷ nodes) [] at rest = let (r, g, q) = at 0 n refl in absurd (cc)
filter_map_nodes f h (n ∷ nodes) (r ∷ rows) at rest =
    let (s, g, q) = at 0 n refl in
    rw (ap f (some_inj.0 g) ∙ q) (
      ap (λ l. h n ∷ l)
        (filter_map_nodes f h nodes rows (λ i m gm. at (suc i) m gm)
          (λ i t le gt. rest (suc i) t (omega (arith, le)) gt)))

pub sort_nodes_ordered : (nodes : List CanonicalNode) → IsOrdered nodes → sort_nodes nodes ≡ nodes
unfolding sort_nodes insert_node
sort_nodes_ordered [] o = refl
sort_nodes_ordered (n ∷ []) o = refl
sort_nodes_ordered (n ∷ m ∷ nodes) o =
    ap (insert_node n) (sort_nodes_ordered (m ∷ nodes) o.1) ∙ ground (arith, o.0.0)

module _ (h : CanonicalNode → CanonicalNode)
    (keeps : (n : CanonicalNode) → (h n).stable_id ≡ n.stable_id) where
  All-map :
      (id : ℕ) (nodes : List CanonicalNode)
      → All (λ m. id < m.stable_id) nodes
      → All (λ m. id < m.stable_id) (map h nodes)
  All-map id [] a = tt
  All-map id (n ∷ nodes) a = (omega (arith, keeps n, a.0), All-map id nodes a.1)

  pub IsOrdered-map : (nodes : List CanonicalNode) → IsOrdered nodes → IsOrdered (map h nodes)
  IsOrdered-map [] o = tt
  IsOrdered-map (n ∷ nodes) o = (
    subst (λ id. All (λ m. id < m.stable_id) (map h nodes)) (sym (keeps n))
        (All-map n.stable_id nodes o.0),
    IsOrdered-map nodes o.1,
  )

insert_chunk_last :
    (set : List ChunkOrigin) (c : ChunkOrigin)
    → All (λ d. comes_first d c ≡ true) set
    → insert_chunk set c ≡ set ++ (c ∷ [])
unfolding insert_chunk comes_first same_chunk
insert_chunk_last [] c h = refl
insert_chunk_last (d ∷ set) c h = ground (arith, h.0, insert_chunk_last set c h.1)

pub insert_all_ascending :
    (set chunks : List ChunkOrigin)
    → All (λ c. All (λ d. comes_first d c ≡ true) set) chunks
    → IsAscendingChunks chunks
    → insert_all set chunks ≡ set ++ chunks
unfolding insert_all
insert_all_ascending set [] h a = rw append-nil
insert_all_ascending set (c ∷ chunks) h a =
    ap (λ s. insert_all s chunks) (insert_chunk_last set c h.0)
    ∙ insert_all_ascending (set ++ (c ∷ [])) chunks (later set c chunks h.1 a.0) a.1
    ∙ append_assoc set (c ∷ []) chunks
  where
    later :
        (set : List ChunkOrigin) (c : ChunkOrigin) (chunks : List ChunkOrigin)
        → All (λ b. All (λ d. comes_first d b ≡ true) set) chunks
        → All (λ d. comes_first c d ≡ true) chunks
        → All (λ b. All (λ d. comes_first d b ≡ true) (set ++ (c ∷ []))) chunks
    later set c [] h k = tt
    later set c (b ∷ chunks) h k = (
      All-append (λ d. comes_first d b ≡ true) set (c ∷ []) h.0 (k.0, tt),
      later set c chunks h.1 k.1,
    )
