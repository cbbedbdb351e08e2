-- ===== src/Core/World.antt =====
-- The entities of the Bevy world as the systems of crates/ertw_core see them: for each component a
-- partial map from entities, and the commands that a system queued.
pub mod Accounts
pub mod Samples
use ertw.Core.Tags.{has, CustomTags}
use ertw.Core.Ledger.{Account}
use ertw.Common.{false, Bool, ℕ, List, none, some, ◌==◌, [], if◌then◌else◌, ◌∷◌, Option, ◌++◌}
use ertw.Core.Components.{
  ClampJoint, ImpulseAccum, ReproductionState, AgentTuning, AgentMarker, ClampState, Oscillator,
  EnergyLedger, Physical, Entity,
}
use ertw.Float.Order.{F32}

pub record Vec2 : Type 0 where
  pub x : F32
  pub y : F32

-- What the systems use of the geometry of `bevy::math`, which is not part of the program.
pub record Geometry : Type 0 where
  pub distance_squared : Vec2 → Vec2 → F32
  pub distance : Vec2 → Vec2 → F32
  -- `(a - b).length()`.
  pub speed_between : Vec2 → Vec2 → F32
  -- `pos + Vec2::new(ang.cos(), ang.sin()) * 0.8`.
  pub scattered : Vec2 → F32 → Vec2
  -- `pos + Vec2::from_angle(ang) * 2.0`.
  pub born_at : Vec2 → F32 → Vec2
  -- `pos + Vec2::X`.
  pub right_of : Vec2 → Vec2

-- A daughter of a fragmented node.
pub record Daughter : Type 0 where
  pub position : Vec2
  pub physical : Physical
  pub tags : CustomTags
  pub seed : ℕ
  pub born_step : ℕ

pub data Command : Type 0 where
  -- A `ClampJoint` from the owner to the target, as the entity that was reserved for it.
  spawn_joint : Entity → Entity → Entity → Command
  -- A fabricated structure: position, mass and energy.
  spawn_structure : Vec2 → F32 → F32 → Command
  spawn_daughter : Daughter → Command
  despawn : Entity → Command

pub record World : Type 0 where
  pub position : Entity → Option Vec2
  pub physical : Entity → Option Physical
  pub body_mass : Entity → Option F32
  pub ledger : Entity → Option EnergyLedger
  pub tags : Entity → Option CustomTags
  pub oscillator : Entity → Option Oscillator
  pub clamp : Entity → Option ClampState
  pub fabricate : Entity → Option F32
  pub marker : Entity → Option AgentMarker
  pub tuning : Entity → Option AgentTuning
  pub reproduction : Entity → Option ReproductionState
  pub velocity : Entity → Option Vec2
  pub conductivity : Entity → Option F32
  pub yield_threshold : Entity → Option F32
  pub node_rng : Entity → Option ℕ
  pub impulse : Entity → Option ImpulseAccum
  -- The entities with a `DeadNode`.
  pub dead : Entity → Bool
  -- The `ClampJoint`s, in the order of a query.
  pub joints : List (Entity × ClampJoint)
  -- Every entity that exists.
  pub alive : Entity → Bool
  pub commands : List Command
  -- The entity that the next spawn reserves.
  pub next_entity : Entity

-- A write to one entity's component.
abbrev pub update {ℓ} : {A : Type ℓ} → (Entity → Option A) → Entity → A → Entity → Option A
update f e v j = if e == j then some v else f j

-- Both mutable borrows of a node's reserve, where it has both components.
unfoldable pub account_of : World → Entity → Option Account
account_of w e = elim (w.physical e) [
  | none ↦ none
  | some p ↦ elim (w.ledger e) [ none ↦ none | some l ↦ some (record { physical = p; ledger = l }) ]
]

unfoldable pub set_account : World → Entity → Account → World
set_account w e a = record w {
  physical = update w.physical e a.physical;
  ledger = update w.ledger e a.ledger;
}

unfoldable pub queue : World → Command → World
queue w c = record w { commands = w.commands ++ (c ∷ []) }

-- `remove::<C>()` on one entity.
abbrev pub remove {ℓ} : {A : Type ℓ} → (Entity → Option A) → Entity → Entity → Option A
remove f e j = if e == j then none else f j

-- The tags of an entity that has the flag.
unfoldable pub is_tagged : World → ℕ → Entity → Bool
is_tagged w flag e = elim (w.tags e) [ none ↦ false | some t ↦ has t flag ]

-- What the spatial hash and the fields answer to a system.
pub record Senses : Type 0 where
  -- `spatial.query_radius(pos, radius, ..)`.
  pub query_radius : Vec2 → F32 → List Entity
  -- `sampler.sample(pos).thermal`.
  pub thermal : Vec2 → F32
  pub is_em_spike : Vec2 → Bool
