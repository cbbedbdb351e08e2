-- ===== src/Core/Snapshot/Rows.antt =====
-- The rows that the nodes of a snapshot are restored to, before their clamps are.
use ertw.Core.Registry.Laws.{get-retain_ids}
use ertw.Float.Order.{F32}
use ertw.Core.Registry.{register, get}
use ertw.Core.Components.{Oscillator, Entity, default_clamp, ClampState}
use ertw.Core.Snapshot.Restore.{
  remove_id, Restoring, spawn_node, restore_agent, reproduction_of, with_agent, body_of, ledger_of,
  base_row, oscillator_of,
}
use ertw.Core.Snapshot.{
  canonical_agent, values_of, EntityRow, canonical_node, CanonicalNode, CanonicalAgent, Rotations,
  Lookups,
}
use ertw.Common.{
  ◌==◌, not, arith, inr, ◌≢◌, inl, Option-cases, refl, none, true, [], ◌≡◌, false, some, ◌<◌,
  map_or, ◌>>=◌, All, ◌∷◌, Option, ℕ, List,
}
use mathlib.Core.Option

-- The identifiers grow.
abbrev pub IsOrdered : List CanonicalNode → Type 0
IsOrdered [] = Unit
IsOrdered (n ∷ nodes) = All (λ m. n.stable_id < m.stable_id) nodes × IsOrdered nodes

module _ {S : Type 0} where
  -- The agent of a node that has a controller.
  unfoldable pub kept : List (ℕ × S) → CanonicalNode → Option CanonicalAgent
  kept controllers n = do agent ← n.agent; controller ← get controllers n.stable_id; some agent

-- What capture sees of a restored node.
unfoldable pub seen_agent : Lookups → ℕ → CanonicalAgent → CanonicalAgent
seen_agent maps id a = record a {
  clamp_target = get maps.clamps id >>= λ s. s.0;
  clamp_cooldown = map_or 0 (λ s. s.1) (get maps.clamps id);
}

unfoldable pub seen_node :
    Rotations → Lookups → Option CanonicalAgent → CanonicalNode → CanonicalNode
seen_node rotations maps agent n = record n {
  rotation = rotations.euler_z (rotations.from_rotation_z n.rotation);
  chunk_origin = get maps.origins n.stable_id;
  dead = map_or false (λ _. true) (get maps.dead n.stable_id);
  agent = Option.map (seen_agent maps n.stable_id) agent;
}

unfoldable pub fresh_clamp : CanonicalAgent → ClampState
fresh_clamp a = record default_clamp { cooldown = a.clamp_cooldown }

pub record IsRowOf (rotations : Rotations) (agent : Option CanonicalAgent) (e : Entity)
    (n : CanonicalNode) (r : EntityRow) : Type 0 where
  pub entity : r.entity ≡ e
  pub stable : r.stable ≡ some n.stable_id
  pub origin : r.chunk_origin ≡ n.chunk_origin
  pub dead : r.dead ≡ n.dead
  pub clamp : r.clamp ≡ Option.map fresh_clamp agent
  pub canonical :
      (maps : Lookups) → canonical_node rotations maps r ≡ some (seen_node rotations maps agent n)

oscillator_kept :
    (o : Option (F32 × F32 × F32))
    → Option.map
        (λ (v : Oscillator). (v.freq, v.phase, v.baseline_freq))
        (Option.map oscillator_of o)
      ≡ o
unfolding oscillator_of
oscillator_kept none = refl
oscillator_kept (some v) = refl

base_row-IsRowOf :
    (rotations : Rotations) (e : Entity) (n : CanonicalNode)
    → IsRowOf rotations none e n (base_row rotations e n)
unfolding base_row canonical_node seen_node ledger_of values_of body_of
base_row-IsRowOf rotations e n = record {
  entity = refl;
  stable = refl;
  origin = refl;
  dead = refl;
  clamp = refl;
  canonical = λ maps. rw (oscillator_kept n.oscillator);
}

with_agent-IsRowOf :
    (rotations : Rotations) (e : Entity) (n : CanonicalNode) (a : CanonicalAgent) (c : ℕ)
    → IsRowOf rotations (some a) e n (with_agent (base_row rotations e n) a c)
unfolding base_row canonical_node seen_node ledger_of values_of body_of with_agent fresh_clamp
    seen_agent canonical_agent reproduction_of
with_agent-IsRowOf rotations e n a c = record {
  entity = refl;
  stable = refl;
  origin = refl;
  dead = refl;
  clamp = refl;
  canonical = λ maps. rw (oscillator_kept n.oscillator);
}

module _ {S : Type 0} (rotations : Rotations) where
  restore_agent-IsRowOf :
      (e : Entity) (n : CanonicalNode) (o : Option CanonicalAgent) (st : Restoring S)
      → IsRowOf rotations
          (o >>= λ a. get st.controllers n.stable_id >>= λ _. some a)
          e
          n
          (restore_agent n.stable_id (base_row rotations e n) o st).0
  unfolding restore_agent register
  restore_agent-IsRowOf e n none st = base_row-IsRowOf rotations e n
  restore_agent-IsRowOf e n (some a) st = elim (Option-cases (get st.controllers n.stable_id)) [
    | inl q ↦ rw (q, restore_agent) (base_row-IsRowOf rotations e n)
    | inr (c, q) ↦ rw (q, restore_agent) (with_agent-IsRowOf rotations e n a st.agents.next_id)
  ]

  pub spawn_node-IsRowOf :
      (n : CanonicalNode) (st : Restoring S)
      → IsRowOf rotations (kept st.controllers n) st.next_entity n (spawn_node rotations n st).0
  unfolding spawn_node kept
  spawn_node-IsRowOf n st = restore_agent-IsRowOf st.next_entity n n.agent _

pub restore_agent_state :
    {S : Type 0} (id : ℕ) (r : EntityRow) (o : Option CanonicalAgent) (st : Restoring S)
    → ((restore_agent id r o st).1.entities ≡ st.entities)
      × ((restore_agent id r o st).1.next_entity ≡ st.next_entity)
      × ((restore_agent id r o st).1.next_stable ≡ st.next_stable)
unfolding restore_agent register
restore_agent_state id r none st = (refl, refl, refl)
restore_agent_state id r (some a) st = elim (Option-cases (get st.controllers id)) [
  | inl q ↦ rw (q, restore_agent) (refl, refl, refl)
  | inr (c, q) ↦ rw (q, restore_agent) (refl, refl, refl)
]

pub restore_agent_controllers :
    {S : Type 0} (id : ℕ) (r : EntityRow) (o : Option CanonicalAgent) (st : Restoring S) (j : ℕ)
    → id ≢ j
    → get (restore_agent id r o st).1.controllers j ≡ get st.controllers j
unfolding restore_agent register remove_id
restore_agent_controllers id r none st j d = refl
restore_agent_controllers id r (some a) st j d = elim (Option-cases (get st.controllers id)) [
  | inl q ↦ rw (q, restore_agent)
  | inr (c, q) ↦
      rw (q, restore_agent) (ground (arith, get-retain_ids (λ k. not (k == id)) st.controllers j))
]
