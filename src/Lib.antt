-- ===== src/Lib.antt =====
-- The ertw world, its interface and its server: a model of the program and what holds of it.
--
-- ertw is a physics world (crates/ertw_core) whose agents are controlled by whoever implements one
-- trait. Each step the world gathers a tensor of observations for an agent, asks its controller for a
-- tensor of actions, and applies it; energy, structure and the identity of nodes are then updated by
-- a chain of systems. A controller may live in another process: crates/ertw_server sends observations
-- and receives actions as binary frames whose words and tensors crates/ertw_interface defines.
--
-- Files and what they model:
--   Float and its children: the type f32 of the source as IEEE 754 bit patterns, with executable
--     rounding, arithmetic, comparison and casts, so that a f32 constant of the source is its pattern
--     and NaN, infinities and both zeros behave as in the code.
--   Interface.Wire, Interface.Action, Interface.Observation: crates/ertw_interface/src/lib.rs
--     (WireHeader, wire_header, ActionTensor::sanitize, to_f32, from_f32, ObservationTensor and its
--     flat layout).
--   Server.Frame, Server.Stream, Server.Remote: crates/ertw_server/src/lib.rs (encode_*, decode_*,
--     read_frame, RemoteAgent). A stream is the list of bytes that are there to read and the error that
--     a read meets behind them; the two channels of RemoteAgent are part of its state, and its act, one
--     round of its thread and the arrival of more bytes after a read that timed out are steps that
--     interleave in any order.
--   Interface.Session, Server.Connection, Server.Lockstep: the records of a lockstep session in
--     crates/ertw_interface/src/lib.rs, and crates/ertw_server/src/lockstep.rs (SessionTransport,
--     LockstepAgent, LockstepSession). A connection is the bytes that its peer will send and how many
--     it takes before a write fails; what accept returns, in order, is part of the transport. Ready,
--     Fuel, Kept, Install, Peers, Answer, Attempt, Resume and Hold are proofs. Server.Lockstep.Program:
--     crates/ertw_server/src/bin/ertw-lockstep.rs, the loop of ticks over a world that steps.
--   Core.Components, Core.Ledger: crates/ertw_core/src/components.rs. A method of EnergyLedger maps
--     the pair of ledger and Physical to the new pair.
--   Core.Tags: crates/ertw_core/src/tags.rs.
--   Core.World: the components of entities as partial maps, and the queued commands, in place of the
--     ECS. The order of a query is a list of entities that the systems take.
--   Core.Actuation: crates/ertw_core/src/actuation.rs (apply_actuators, apply_one and its parts,
--     nearest_neighbor, cleanup_clamp_joints); Core.Actuation.Links has the steps that change clamps
--     and joints, and how the ECS applies their commands. Core.Fragment: crates/ertw_core/src/fragmentation.rs.
--   Core.Registry, Core.Observe: crates/ertw_core/src/agents.rs (WorldAgents over the trait Agent,
--     spawn_agent, build_observation_with_scratch). Evaluator: crates/ertw_evaluator/src/lib.rs, whose
--     stable sort_by is an insertion sort here, as is that of the neighbors.
--   Core.Spatial: crates/ertw_core/src/spatial_hash.rs. Core.Fields: crates/ertw_core/src/fields.rs,
--     with apply_field_forces in Core.Fields.Forces.
--   Core.Genesis: crates/ertw_core/src/genesis.rs. Core.StableIds: crates/ertw_core/src/snapshot.rs
--     (StableIdAllocator, ensure_stable_ids). Core.Snapshot: capture and restore of the same file, over
--     the entities of the world as the rows of a table; Restored and Captured have the theorems.
--   Core.Lineage: crates/ertw_core/src/lineage.rs (reproduce_agents, and in
--     Core.Lineage.Outcomes record_agent_history and collect_competence). Core.Schedule:
--     crates/ertw_core/src/lib.rs (advance_sim_clock, gather_agent_actions, apply_agent_actions), and
--     Core.Seeding: spawn_agent and seed_world of the same file.
--   Core.Economy, Core.Economy.Harvest: crates/ertw_core/src/economy.rs.
--
-- Parameters: Core.Rng.Rng stands for the generators of the rand crates, with the documented ranges of
-- gen_range as its laws; Core.World.Geometry for the vector functions of bevy math; Core.World.Senses
-- for the answers of the spatial hash and the fields, over which the theorems quantify; Core.Fields.Noise
-- for the noise crate, Core.Observe.Optics and Core.Fields.Forces.Vectors for rotations and vectors and Core.Observe.Selection for
-- select_nth_unstable_by and sort_by, with the documented law of the selection and panics that may
-- come only where a distance is NaN; Core.Snapshot.Rotations for the quaternions of glam; Server.Lockstep.Json for serde_json; contacts of the
-- physics engine are a list of impacts.
--
-- Bounds: bytes and words are natural numbers with their bounds as hypotheses (IsByte, IsWord), u64
-- values are below 2 ^ 64. There is fuel in Float, where the loops that find an exponent and a square
-- root run for 1024 and 256 rounds, more than any f32 needs, and in Server.Lockstep.Transport.exchange,
-- where the bytes to come and the connections to come bound the rounds. All other loops follow a list.
--
-- Not modelled: the files of snapshots in crates/ertw_core; the arguments of the programs; rendering,
-- sockets, the ECS schedule and the physics solver, which are not the program's own logic.
pub mod Common
pub mod Float
pub mod Interface
pub mod Core
pub mod Server
pub mod Evaluator
