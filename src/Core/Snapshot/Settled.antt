-- ===== src/Core/Snapshot/Settled.antt =====
-- A node after a restoration: what `capture` reads back.
use ertw.Core.Registry.{get}
use ertw.Core.Snapshot.Restore.{linked_by, hold_fast}
use ertw.Core.Snapshot.Spawned.{has_node}
use ertw.Core.Snapshot.Linked.{link_own}
use ertw.Core.Components.{Entity}
use ertw.Core.Snapshot.Rows.{fresh_clamp, kept}
use ertw.Core.Snapshot.{EntityRow, CanonicalAgent, CanonicalNode, clamp_view, Rotations}
use mathlib.Core.Option
use mathlib.Core.Option.{some_inj}
use ertw.Common.{
  inr, inl, Bool-cases, ap, false, arith, none, true, some, ◌≡◌, ◌>>=◌, if◌then◌else◌, Option, ℕ,
  List, refl,
}

-- An identifier that some node has.
unfoldable pub known : List CanonicalNode → ℕ → Option ℕ
known nodes id = if has_node nodes id then some id else none

-- The clamp of an agent holds on to a node that was restored.
unfoldable pub settled_agent : List CanonicalNode → CanonicalAgent → CanonicalAgent
settled_agent nodes a = record a { clamp_target = a.clamp_target >>= known nodes }

-- The node with the angle that its quaternion gives, and its agent if that has a controller.
unfoldable pub settle :
    {S : Type 0} → Rotations → List (ℕ × S) → List CanonicalNode → CanonicalNode → CanonicalNode
settle rotations controllers nodes n = record n {
  rotation = rotations.euler_z (rotations.from_rotation_z n.rotation);
  agent = Option.map (settled_agent nodes) (kept controllers n);
}

-- The target of a clamp by its identifier, as a row's link set it.
abbrev pub target_in : List (Entity × ℕ) → Option (Entity × Entity) → Option ℕ
target_in ids link = Option.map (λ p. p.1) link >>= get ids

pub view_of_link :
    (ids : List (Entity × ℕ)) (link : Option (Entity × Entity)) (joint : Entity) (r : EntityRow)
    (agent : Option CanonicalAgent)
    → r.clamp ≡ Option.map fresh_clamp agent
    → Option.map (clamp_view ids) (link_own link joint r).clamp
      ≡ Option.map (λ (a : CanonicalAgent). (target_in ids link, a.clamp_cooldown)) agent
unfolding clamp_view link_own fresh_clamp hold_fast
view_of_link ids none joint r none h = ap (Option.map (clamp_view ids)) h
view_of_link ids none joint r (some a) h = ap (Option.map (clamp_view ids)) h
view_of_link ids (some (owner, target)) joint r none h =
    ap (λ c. Option.map (clamp_view ids) (Option.map (hold_fast target joint) c)) h
view_of_link ids (some (owner, target)) joint r (some a) h =
    ap (λ c. Option.map (clamp_view ids) (Option.map (hold_fast target joint) c)) h

pub kept_agent :
    {S : Type 0} (controllers : List (ℕ × S)) (n : CanonicalNode) (a : CanonicalAgent)
    → kept controllers n ≡ some a
    → n.agent ≡ some a
unfolding kept
kept_agent controllers n a h = ground arith

module _ (entities : List (ℕ × Entity)) (ids : List (Entity × ℕ)) (nodes : List CanonicalNode)
    (there : (id : ℕ)
      → has_node nodes id ≡ true
      → (t : Entity) × (get entities id ≡ some t) × (get ids t ≡ some id))
    (missing : (id : ℕ) → has_node nodes id ≡ false → get entities id ≡ none) where
  target_of_owner :
      (owner : Entity) (target : Option ℕ)
      → target_in ids (target >>= λ id. get entities id >>= λ t. some (owner, t))
        ≡ (target >>= known nodes)
  unfolding known
  target_of_owner owner none = refl
  target_of_owner owner (some id) = elim (Bool-cases (has_node nodes id)) [
    | inl q ↦ let (t, g, k) = there id q in rw (q, g, k)
    | inr q ↦ rw (q, missing id q)
  ]

  pub linked_target :
      (n : CanonicalNode) (a : CanonicalAgent) (owner : Entity)
      → n.agent ≡ some a
      → get entities n.stable_id ≡ some owner
      → target_in ids (linked_by entities n) ≡ (a.clamp_target >>= known nodes)
  unfolding linked_by
  linked_target n a owner q g = rw (q, g) (target_of_owner owner a.clamp_target)
