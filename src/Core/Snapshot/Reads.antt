-- ===== src/Core/Snapshot/Reads.antt =====
-- `capture` reads the rows of a restored world back as the settled nodes.
use ertw.Core.Snapshot.Restore.{linked_by}
use ertw.Core.Snapshot.Members.{IsFinal}
use ertw.Core.Snapshot.Lookup.{ids_of_node, get-collected, placed_at, has_node_at, world_rows}
use ertw.Core.Registry.{get}
use ertw.Core.Snapshot.Spawned.{has_node, IsPlaced, IsRows}
use ertw.Core.Components.{Entity}
use ertw.Core.Snapshot.Settled.{
  kept_agent, linked_target, target_in, view_of_link, settle, known, settled_agent,
}
use ertw.Core.Snapshot.Linked.{link_own_dead, link_own_origin, link_own_stable, link_own}
use ertw.Core.Snapshot.Rows.{kept, seen_node, IsOrdered, seen_agent}
use ertw.Core.Snapshot.{
  clamp_view, clamp_states_of, dead_nodes_of, chunk_origins_of, lookups_of, stable_ids_of,
  CanonicalAgent, when, EntityRow, Lookups, CanonicalNode, canonical_agent, Rotations,
  canonical_node,
}
use mathlib.Core.Option
use ertw.Common.{
  ◌∙◌, sym, ap, ◌+◌, get_elem?, ◌>>=◌, none, some, ◌≡◌, Option, true, ℕ, false, List, map_or, Bool,
  refl,
}

canonical_link :
    (rotations : Rotations) (maps : Lookups) (link : Option (Entity × Entity)) (joint : Entity)
    (r : EntityRow)
    → canonical_node rotations maps (link_own link joint r) ≡ canonical_node rotations maps r
unfolding canonical_node link_own canonical_agent
canonical_link rotations maps none joint r = refl
canonical_link rotations maps (some (owner, target)) joint r = refl

dead_kept : (b : Bool) → map_or false (λ _. true) (when b) ≡ b
dead_kept true = refl
dead_kept false = refl

seen_agents :
    (nodes : List CanonicalNode) (maps : Lookups) (id : ℕ) (agent : Option CanonicalAgent)
    → ((a : CanonicalAgent)
        → agent ≡ some a
        → get maps.clamps id ≡ some (a.clamp_target >>= known nodes, a.clamp_cooldown))
    → Option.map (seen_agent maps id) agent ≡ Option.map (settled_agent nodes) agent
unfolding seen_agent settled_agent
seen_agents nodes maps id none h = refl
seen_agents nodes maps id (some a) h = rw (h a refl)

module _ {S : Type 0} (rotations : Rotations) (controllers : List (ℕ × S))
    (nodes : List CanonicalNode) (rows : List EntityRow) (e : Entity) (entities : List (ℕ × Entity))
    (o : IsOrdered nodes) (rs : IsRows rotations controllers e nodes rows)
    (placed : IsPlaced entities e nodes)
    (missing : (id : ℕ) → has_node nodes id ≡ false → get entities id ≡ none) where
  abbrev world : List EntityRow
  world = world_rows rotations controllers nodes rows e entities o rs placed

  there :
      (id : ℕ)
      → has_node nodes id ≡ true
      → (t : Entity) × (get entities id ≡ some t) × (get (stable_ids_of world) t ≡ some id)
  there id h =
      let (i, n, g, q) = has_node_at nodes id h in
      (
        e + i,
        ap (get entities) (sym q) ∙ placed_at entities e nodes i n placed g,
        ids_of_node rotations controllers nodes rows e entities o rs placed i n g ∙ ap some q,
      )

  module _ (i : ℕ) (n : CanonicalNode) (g : get_elem? nodes i ≡ some n) (r : EntityRow)
      (gr : get_elem? world i ≡ some r) (f : IsFinal rotations controllers entities n r) where
    final_stable : r.stable ≡ some n.stable_id
    final_stable =
        ap (λ (t : EntityRow). t.stable) f.linked
        ∙ link_own_stable (linked_by entities n) f.joint f.spawned
        ∙ f.is_row.stable

    origins_at : get (lookups_of world).origins n.stable_id ≡ n.chunk_origin
    unfolding lookups_of chunk_origins_of
    origins_at =
        get-collected rotations controllers nodes rows e entities o rs placed (λ t. t.chunk_origin)
          i r n.stable_id gr final_stable
        ∙ ap (λ (t : EntityRow). t.chunk_origin) f.linked
        ∙ link_own_origin (linked_by entities n) f.joint f.spawned
        ∙ f.is_row.origin

    dead_at : get (lookups_of world).dead n.stable_id ≡ when n.dead
    unfolding lookups_of dead_nodes_of
    dead_at =
        get-collected rotations controllers nodes rows e entities o rs placed (λ t. when t.dead) i r
          n.stable_id gr final_stable
        ∙ ap (λ (t : EntityRow). when t.dead) f.linked
        ∙ ap when (link_own_dead (linked_by entities n) f.joint f.spawned ∙ f.is_row.dead)

    clamps_at :
        (a : CanonicalAgent)
        → kept controllers n ≡ some a
        → get (lookups_of world).clamps n.stable_id
          ≡ some (a.clamp_target >>= known nodes, a.clamp_cooldown)
    unfolding lookups_of clamp_states_of
    clamps_at a k =
        let ids = stable_ids_of world in
        get-collected rotations controllers nodes rows e entities o rs placed
          (λ t. Option.map (clamp_view ids) t.clamp) i r n.stable_id gr final_stable
        ∙ ap (λ (t : EntityRow). Option.map (clamp_view ids) t.clamp) f.linked
        ∙ view_of_link ids (linked_by entities n) f.joint f.spawned (kept controllers n)
            f.is_row.clamp
        ∙ ap
            (Option.map
              (λ (b : CanonicalAgent). (target_in ids (linked_by entities n), b.clamp_cooldown)))
            k
        ∙ ap (λ t. some (t, a.clamp_cooldown))
            (linked_target entities ids nodes there missing n a (e + i)
              (kept_agent controllers n a k) (placed_at entities e nodes i n placed g))

    pub canonical-settle :
        canonical_node rotations (lookups_of world) r ≡ some (settle rotations controllers nodes n)
    unfolding seen_node settle
    canonical-settle =
        ap (canonical_node rotations (lookups_of world)) f.linked
        ∙ canonical_link rotations (lookups_of world) (linked_by entities n) f.joint f.spawned
        ∙ f.is_row.canonical (lookups_of world)
        ∙ rw (
          origins_at,
          dead_at,
          dead_kept n.dead,
          seen_agents nodes (lookups_of world) n.stable_id (kept controllers n) clamps_at,
        )
