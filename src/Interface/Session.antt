-- ===== src/Interface/Session.antt =====
-- crates/ertw_interface/src/lib.rs: what a lockstep session says in JSON, the metadata and the
-- lifecycle events. Texts are native strings; the token that is compared is its UTF-8 bytes.
use Prim.Native.String.{String}
use ertw.Float.Order.{F32}
use ertw.Common.{Option, List, ℕ}

pub data TransportMode : Type 0 where
  realtime lockstep : TransportMode

pub data TriggerSemantics : Type 0 where
  continuous level edge target : TriggerSemantics

pub record ProtocolMetadata : Type 0 where
  pub protocol_version : ℕ
  pub schema_version : ℕ
  pub fixed_timestep_seconds : F32
  pub physics_ticks_per_decision : ℕ
  pub observation_floats : ℕ
  pub action_floats : ℕ
  pub self_stride : ℕ
  pub neighbor_stride : ℕ
  pub field_count : ℕ
  pub max_neighbors : ℕ
  pub field_samples : ℕ
  pub field_channels : ℕ
  pub sensor_radius : F32
  pub action_min : List F32
  pub action_max : List F32
  pub action_semantics : List TriggerSemantics
  pub transport_mode : TransportMode
  pub world_seed : ℕ
  pub world_tick : ℕ
  pub world_id : ℕ
  pub session_id : ℕ
  pub resume_token : List ℕ
  pub stable_agent_id : ℕ
  pub snapshot_schema_version : ℕ
  pub capabilities : List String

pub data LifecycleKind : Type 0 where
  entity_alive entity_died entity_reproduced entity_replaced : LifecycleKind
  world_terminated session_attached session_detached : LifecycleKind

pub record LifecycleEvent : Type 0 where
  pub sequence : ℕ
  pub world_tick : ℕ
  pub kind : LifecycleKind
  pub subject_id : ℕ
  pub related_id : Option ℕ
  pub lineage_id : Option ℕ
  pub generation : Option ℕ
  pub reason : Option String

pub record PhysicalDelta : Type 0 where
  pub energy : F32
  pub structure : F32
  pub mass : F32
