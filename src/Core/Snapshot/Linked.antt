-- ===== src/Core/Snapshot/Linked.antt =====
-- The second loop of `restore`: each clamp goes to the row of its own owner, and the joints come last.
use mathlib.Core.List.{append_assoc, append-nil}
use mathlib.Core.Option.{some_inj}
use ertw.Core.Registry.{get}
use ertw.Core.Snapshot.Spawned.{IsPlaced}
use ertw.Core.Snapshot.{CanonicalNode, EntityRow}
use ertw.Core.Components.{Entity}
use ertw.Core.Snapshot.Restore.{joint_row, hold_fast, set_clamp, link_nodes, link_node, linked_by}
use ertw.Common.{
  length, ◌∙◌, sym, refl, ap, arith, ◌<◌, ◌≢◌, ◌++◌, none, ◌≡◌, ◌∷◌, [], ◌+◌, some, ℕ, List, Option,
}
use mathlib.Core.Option

-- The clamp of a row as its own node links it.
unfoldable pub link_own : Option (Entity × Entity) → Entity → EntityRow → EntityRow
link_own none joint r = r
link_own (some (owner, target)) joint r = record r {
  clamp = Option.map (hold_fast target joint) r.clamp;
}

unfoldable pub joint_after : Option (Entity × Entity) → Entity → Entity
joint_after none next = next
joint_after (some link) next = next + 1

unfoldable pub joints_of : Option (Entity × Entity) → Entity → List EntityRow
joints_of none next = []
joints_of (some (owner, target)) next = joint_row next owner target ∷ []

-- The rows after the second loop in closed form.
unfoldable pub own_links :
    List (ℕ × Entity) → List CanonicalNode → List EntityRow → Entity → List EntityRow
own_links entities (n ∷ nodes) (r ∷ rows) next =
    link_own (linked_by entities n) next r
    ∷ own_links entities nodes rows (joint_after (linked_by entities n) next)
own_links entities _ rows next = rows

unfoldable pub own_joints : List (ℕ × Entity) → List CanonicalNode → Entity → List EntityRow
own_joints entities [] next = []
own_joints entities (n ∷ nodes) next =
    joints_of (linked_by entities n) next
    ++ own_joints entities nodes (joint_after (linked_by entities n) next)

-- The owner of a link is the entity of the node.
linked_owner :
    (entities : List (ℕ × Entity)) (n : CanonicalNode) (owner target : Entity)
    → linked_by entities n ≡ some (owner, target)
    → get entities n.stable_id ≡ some owner
unfolding linked_by
linked_owner entities n owner target h = ground arith

link_node_past :
    (link : Option (Entity × Entity)) (r : EntityRow) (rows : List EntityRow) (next : Entity)
    → ((owner target : Entity) → link ≡ some (owner, target) → r.entity ≢ owner)
    → link_node link (r ∷ rows, next)
      ≡ (r ∷ (link_node link (rows, next)).0, (link_node link (rows, next)).1)
unfolding link_node set_clamp
link_node_past none r rows next h = refl
link_node_past (some (owner, target)) r rows next h = ground (arith, h owner target refl)

link_nodes_past :
    (entities : List (ℕ × Entity)) (nodes : List CanonicalNode) (r : EntityRow)
    (rows : List EntityRow) (next e : Entity)
    → IsPlaced entities e nodes
    → r.entity < e
    → (link_nodes entities nodes (r ∷ rows, next)).0
      ≡ r ∷ (link_nodes entities nodes (rows, next)).0
unfolding link_nodes
link_nodes_past entities [] r rows next e p lt = refl
link_nodes_past entities (n ∷ nodes) r rows next e p lt =
    let link = linked_by entities n in
    let (rows', next') = link_node link (rows, next) in
    ap (λ s. (link_nodes entities nodes s).0)
      (link_node_past link r rows next (λ owner target q same.
        omega (arith, lt, some_inj.0 (sym (p.0) ∙ linked_owner entities n owner target q), same)))
    ∙ link_nodes_past entities nodes r rows' next' (e + 1) p.1 (omega (arith, lt))

abbrev pub IsNumbered : Entity → List EntityRow → Type 0
IsNumbered e [] = Unit
IsNumbered e (r ∷ rows) = (r.entity ≡ e) × IsNumbered (e + 1) rows

pub link_own_entity :
    (link : Option (Entity × Entity)) (joint : Entity) (r : EntityRow)
    → (link_own link joint r).entity ≡ r.entity
unfolding link_own
link_own_entity none joint r = refl
link_own_entity (some (owner, target)) joint r = refl

pub link_own_stable :
    (link : Option (Entity × Entity)) (joint : Entity) (r : EntityRow)
    → (link_own link joint r).stable ≡ r.stable
unfolding link_own
link_own_stable none joint r = refl
link_own_stable (some (owner, target)) joint r = refl

pub link_own_origin :
    (link : Option (Entity × Entity)) (joint : Entity) (r : EntityRow)
    → (link_own link joint r).chunk_origin ≡ r.chunk_origin
unfolding link_own
link_own_origin none joint r = refl
link_own_origin (some (owner, target)) joint r = refl

pub link_own_dead :
    (link : Option (Entity × Entity)) (joint : Entity) (r : EntityRow)
    → (link_own link joint r).dead ≡ r.dead
unfolding link_own
link_own_dead none joint r = refl
link_own_dead (some (owner, target)) joint r = refl

link_node_own :
    (link : Option (Entity × Entity)) (r : EntityRow) (rows js : List EntityRow) (next : Entity)
    → ((owner target : Entity) → link ≡ some (owner, target) → r.entity ≡ owner)
    → link_node link (r ∷ rows ++ js, next)
      ≡ (link_own link next r ∷ (rows ++ (js ++ joints_of link next)), joint_after link next)
unfolding link_node link_own joints_of joint_after set_clamp
link_node_own none r rows js next h = rw append-nil
link_node_own (some (owner, target)) r rows js next h =
    rw (append_assoc rows js (joint_row next owner target ∷ []))
      (ground (arith, h owner target refl))

pub link_nodes_lem :
    (entities : List (ℕ × Entity)) (nodes : List CanonicalNode) (rows js : List EntityRow)
    (next e : Entity)
    → IsPlaced entities e nodes
    → IsNumbered e rows
    → length rows ≡ length nodes
    → (link_nodes entities nodes (rows ++ js, next)).0
      ≡ own_links entities nodes rows next ++ (js ++ own_joints entities nodes next)
unfolding link_nodes own_links own_joints
link_nodes_lem entities [] [] js next e p num len = rw append-nil
link_nodes_lem entities [] (r ∷ rows) js next e p num len = absurd (omega (arith, len))
link_nodes_lem entities (n ∷ nodes) [] js next e p num len = absurd (omega (arith, len))
link_nodes_lem entities (n ∷ nodes) (r ∷ rows) js next e p num len =
    let link = linked_by entities n in
    let r' = link_own link next r in
    let next' = joint_after link next in
    let js' = js ++ joints_of link next in
    ap (λ s. (link_nodes entities nodes s).0)
      (link_node_own link r rows js next
        (λ owner target q. num.0 ∙ some_inj.0 (sym (p.0) ∙ linked_owner entities n owner target q)))
    ∙ link_nodes_past entities nodes r' (rows ++ js') next' (e + 1) p.1
        (omega (arith, link_own_entity link next r, num.0))
    ∙ ap (λ l. r' ∷ l)
        (link_nodes_lem entities nodes rows js' next' (e + 1) p.1 num.1 (omega (arith, len))
          ∙ ap (λ l. own_links entities nodes rows next' ++ l)
              (append_assoc js (joints_of link next) (own_joints entities nodes next')))
