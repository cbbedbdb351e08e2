-- ===== src/Core/Components.antt =====
-- crates/ertw_core/src/components.rs: the components that an entity carries. An `Entity` is the
-- number that `to_bits` gives. Fields of f32 are bit patterns.
use ertw.Common.{ℕ, Option, none}
use ertw.Float.Order.{F32}

abbrev pub Entity : Type 0
Entity = ℕ

pub record Physical : Type 0 where
  pub mass : F32
  pub structure : F32
  pub energy : F32

pub record EnergyLedger : Type 0 where
  pub harvested : F32
  pub consumed_from_others : F32
  pub vented : F32
  pub dissipated : F32
  pub spent_on_actuation : F32
  pub invested_in_fabrication : F32
  pub invested_in_offspring : F32
  pub transferred_out : F32
  pub born_step : ℕ

abbrev pub default_ledger : EnergyLedger
default_ledger = record {
  harvested = 0;
  consumed_from_others = 0;
  vented = 0;
  dissipated = 0;
  spent_on_actuation = 0;
  invested_in_fabrication = 0;
  invested_in_offspring = 0;
  transferred_out = 0;
  born_step = 0;
}

pub data EnergyFlow : Type 0 where
  harvested consumed vented dissipated actuation fabrication offspring transferred : EnergyFlow

pub record AgentMarker : Type 0 where
  pub generation : ℕ
  pub lineage : ℕ
  pub controller : ℕ

pub record AgentTuning : Type 0 where
  pub sensor_radius : F32
  pub max_neighbors : ℕ
  pub yield_threshold : F32
  pub osc_baseline : F32

-- 12.0, 16, 8.0 and 1.0.
abbrev pub default_tuning : AgentTuning
default_tuning = record {
  sensor_radius = 0x41400000;
  max_neighbors = 16;
  yield_threshold = 0x41000000;
  osc_baseline = 0x3f800000;
}

pub record Oscillator : Type 0 where
  pub freq : F32
  pub phase : F32
  pub baseline_freq : F32

pub record ImpulseAccum : Type 0 where
  pub value : F32
  pub source : Option Entity

pub record ReproductionState : Type 0 where
  pub surplus_seconds : F32
  pub cooldown_seconds : F32

pub record ClampState : Type 0 where
  pub target : Option Entity
  pub joint : Option Entity
  pub cooldown : F32

abbrev pub default_clamp : ClampState
default_clamp = record { target = none; joint = none; cooldown = 0 }

pub record ClampJoint : Type 0 where
  pub owner : Entity
  pub target : Entity

pub record ChunkOrigin : Type 0 where
  pub x : ℕ
  pub y : ℕ
