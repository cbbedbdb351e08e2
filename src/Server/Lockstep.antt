-- ===== src/Server/Lockstep.antt =====
-- crates/ertw_server/src/lockstep.rs: the configuration and the frames of a lockstep session.
pub mod Program
pub mod Log
pub mod Transport
pub mod Agent
pub mod Attempt
pub mod Ready
pub mod Kept
pub mod Fuel
mod Tests
pub mod Answer
pub mod Install
pub mod Peers
pub mod Hold
pub mod Resume
use ertw.Core.Snapshot.{snapshot_schema_version}
use ertw.Interface.Action.{tau, sixteen, one, minus_sixteen, minus_one, action_stride}
use ertw.Interface.Wire.{u32, default_header, wire_header}
use ertw.Core.Actuation.{fixed_dt}
use ertw.Interface.Observation.{
  field_count, neighbor_stride, self_stride, observation_len, InterfaceConfig,
}
use ertw.Server.Connection.{write_all, and_then, Connection}
use ertw.Server.Frame.{header_bytes, encode_header, protocol_version}
use ertw.Server.Stream.{
  invalid_data, unexpected_eof, connection_reset, connection_aborted, broken_pipe, Result,
  ErrorKind,
}
use ertw.Interface.Session.{
  lockstep, lockstep, TriggerSemantics, edge, level, continuous, PhysicalDelta, LifecycleEvent,
  ProtocolMetadata,
}
use ertw.Common.{◌&&◌, ◌==◌, [], ◌∷◌, length, ◌+◌, false, true, max, Option, Bool, List, ℕ}

pub record LockstepConfig : Type 0 where
  pub physics_ticks_per_decision : ℕ
  pub world_seed : ℕ
  pub world_id : ℕ
  pub session_id : ℕ
  pub stable_agent_id : ℕ
  pub resume_token : List ℕ
  pub deltas : Bool
  pub interface_config : InterfaceConfig

pub record ResumeRequest : Type 0 where
  pub session_id : ℕ
  pub resume_token : List ℕ

pub record ObservationExtension : Type 0 where
  pub decision_sequence : ℕ
  pub delta : Option PhysicalDelta

-- `serde_json`, which the program calls: what it prints, and what it parses or the kind of the
-- error that its failure becomes.
pub record Json : Type 0 where
  pub of_metadata : ProtocolMetadata → List ℕ
  pub of_event : LifecycleEvent → List ℕ
  pub of_extension : ObservationExtension → List ℕ
  pub to_request : List ℕ → Result ResumeRequest

-- `physics_ticks_per_decision.max(1)`.
unfoldable pub ticks_of : LockstepConfig → ℕ
ticks_of config = max config.physics_ticks_per_decision 1

unfoldable pub metadata : LockstepConfig → ℕ → ProtocolMetadata
metadata config world_tick = record {
  protocol_version = protocol_version;
  schema_version = 1;
  fixed_timestep_seconds = fixed_dt;
  physics_ticks_per_decision = ticks_of config;
  observation_floats = observation_len config.interface_config;
  action_floats = action_stride;
  self_stride = self_stride;
  neighbor_stride = neighbor_stride;
  field_count = field_count;
  max_neighbors = config.interface_config.max_neighbors;
  field_samples = config.interface_config.field_samples;
  field_channels = config.interface_config.field_channels;
  sensor_radius = config.interface_config.sensor_radius;
  action_min = minus_one ∷ minus_one ∷ minus_one ∷ 0 ∷ 0 ∷ minus_sixteen ∷ 0 ∷ [];
  action_max = one ∷ one ∷ one ∷ one ∷ one ∷ sixteen ∷ tau ∷ [];
  action_semantics =
      continuous ∷ continuous ∷ continuous ∷ level ∷ edge ∷ TriggerSemantics.target
      ∷ TriggerSemantics.target ∷ [];
  transport_mode = lockstep;
  world_seed = config.world_seed;
  world_tick = world_tick;
  world_id = config.world_id;
  session_id = config.session_id;
  resume_token = config.resume_token;
  stable_agent_id = config.stable_agent_id;
  snapshot_schema_version = snapshot_schema_version;
  capabilities =
      "lockstep" ∷ "action_hold" ∷ "lifecycle_events" ∷ "reconnect_resume" ∷ "canonical_snapshots"
      ∷ "physical_deltas" ∷ [];
}

unfoldable pub json_header : ℕ → ℕ → ℕ → List ℕ → List ℕ
json_header kind step entity_id payload = encode_header (
    wire_header (record default_header {
      version = protocol_version;
      frame_kind = kind;
      frame_bytes = u32 (header_bytes + length payload);
      step = step;
      entity_id = entity_id;
    }))

-- `write_json_frame`, given the printed value.
unfoldable pub write_json_frame : ℕ → ℕ → ℕ → List ℕ → Connection → Result (Unit {0}) × Connection
write_json_frame kind step entity_id payload c =
    and_then (write_all (json_header kind step entity_id payload) c) (λ _. write_all payload)

unfoldable pub is_disconnect : ErrorKind → Bool
is_disconnect broken_pipe = true
is_disconnect connection_aborted = true
is_disconnect connection_reset = true
is_disconnect unexpected_eof = true
is_disconnect _ = false

unfoldable pub is_invalid : ErrorKind → Bool
is_invalid invalid_data = true
is_invalid _ = false

unfoldable pub same_bytes : List ℕ → List ℕ → Bool
same_bytes [] [] = true
same_bytes (x ∷ xs) (y ∷ ys) = x == y && same_bytes xs ys
same_bytes _ _ = false
