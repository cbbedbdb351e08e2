-- ===== src/Server/Lockstep/Transport.antt =====
-- crates/ertw_server/src/lockstep.rs: `SessionTransport`. What `accept` returns, in order, is part of
-- the state, and each accepted connection holds what its peer will send.
use ertw.Server.Frame.{
  decode_action, protocol_version, header_bytes, encode_observation, decode_header,
}
use ertw.Interface.Wire.{
  frame_observation_extension, frame_resume, word_at, frame_metadata, frame_lifecycle,
}
use Prim.Native.String.{String}
use ertw.Interface.Action.{ActionTensor}
use ertw.Interface.Observation.{ObservationTensor}
use ertw.Server.Connection.{write_all, receive_frame, and_then, Connection}
use ertw.Interface.Session.{session_detached, session_attached, LifecycleKind, LifecycleEvent}
use ertw.Server.Lockstep.{
  is_invalid, same_bytes, metadata, is_disconnect, ObservationExtension, ResumeRequest,
  write_json_frame, LockstepConfig, Json,
}
use ertw.Server.Stream.{invalid_data, err, ok, Result, ErrorKind}
use ertw.Common.{
  ◌+◌, drop, ◌-◌, zero, take, ◌&&◌, none, ◌^◌, suc, ◌==◌, Bool, ◌++◌, min, [], if◌then◌else◌, ◌∷◌,
  some, Option, ℕ, List,
}

-- What a call comes to: it ends, it waits for a peer for ever, it
-- panics, or the fuel is too small.
pub data Run {ℓ} (A : Type ℓ) : Type ℓ where
  finished : A → Run A
  waiting panicked out_of_fuel : Run A

pub record Transport : Type 0 where
  -- The results of `listener.accept()` to come.
  pub accepts : List (Result Connection)
  pub connection : Option Connection
  pub config : LockstepConfig
  pub lifecycle_sequence : ℕ
  pub pending_lifecycle : List LifecycleEvent

-- What becomes of an accepted connection.
pub data Verdict : Type 0 where
  refused admitted : Verdict
  failed : ErrorKind → Verdict

module _ (json : Json) where
  open json use {of_metadata, of_event, of_extension, to_request}

  unfoldable pub write_event : LifecycleEvent → Connection → Result (Unit {0}) × Connection
  write_event e = write_json_frame frame_lifecycle e.world_tick e.subject_id (of_event e)

  unfoldable pub write_events : List LifecycleEvent → Connection → Result (Unit {0}) × Connection
  write_events [] c = (ok tt, c)
  write_events (e ∷ events) c = and_then (write_event e c) (λ _. write_events events)

  -- The event of `emit_lifecycle`; the counter saturates.
  unfoldable pub next_event :
      Transport → ℕ → LifecycleKind → Option ℕ → Option String → LifecycleEvent
  next_event t world_tick kind related_id reason = record {
    sequence = min (2 ^ 64 - 1) (t.lifecycle_sequence + 1);
    world_tick = world_tick;
    kind = kind;
    subject_id = t.config.stable_agent_id;
    related_id = related_id;
    lineage_id = none;
    generation = none;
    reason = reason;
  }

  -- An event goes to the connection, or waits where there is none.
  unfoldable pub post :
      LifecycleEvent → Transport → Option Connection → Result (Unit {0}) × Transport
  post e t none = (
    ok tt,
    record t {
      lifecycle_sequence = e.sequence;
      pending_lifecycle = t.pending_lifecycle ++ (e ∷ []);
    },
  )
  post e t (some c) =
      let (r, c') = write_event e c in
      (r, record t { lifecycle_sequence = e.sequence; connection = some c' })

  unfoldable pub emit_lifecycle :
      Transport → ℕ → LifecycleKind → Option ℕ → Option String → Result (Unit {0}) × Transport
  emit_lifecycle t world_tick kind related_id reason =
      post (next_event t world_tick kind related_id reason) t t.connection

  -- What `attach` writes to a new connection: the metadata, then the events that waited.
  unfoldable pub greet : Transport → ℕ → Connection → Result (Unit {0}) × Connection
  greet t world_tick c =
      and_then
        (write_json_frame frame_metadata world_tick t.config.stable_agent_id
          (of_metadata (metadata t.config world_tick)) c)
        (λ _. write_events t.pending_lifecycle)

  -- `drain(..)` is not reached where the metadata cannot be written; after that the events are gone.
  unfoldable pub greeted : Transport → ℕ → Connection → Transport
  greeted t world_tick c =
      elim (write_json_frame frame_metadata world_tick t.config.stable_agent_id
        (of_metadata (metadata t.config world_tick)) c).0 [
          | err e ↦ t
          | ok u ↦ record t { pending_lifecycle = [] }
        ]

  -- The end of `attach`.
  unfoldable pub install :
      Transport → ℕ → Result (Unit {0}) × Connection → Result (Unit {0}) × Transport
  install t world_tick (err e, c) = (err e, t)
  install t world_tick (ok u, c) =
      emit_lifecycle (record t { connection = some c }) world_tick session_attached none
        (some "session attached")

  -- The body of `attach`, after the timeouts were set or could not be.
  unfoldable pub welcome :
      Option ErrorKind → Transport → Connection → ℕ → Result (Unit {0}) × Transport
  welcome (some e) t c world_tick = (err e, t)
  welcome none t c world_tick = install (greeted t world_tick c) world_tick (greet t world_tick c)

  -- A connection that fails on the way is dropped.
  unfoldable pub attach : Transport → Connection → ℕ → Result (Unit {0}) × Transport
  attach t c world_tick = welcome c.settings t c world_tick

  unfoldable pub is_ours : LockstepConfig → ResumeRequest → Bool
  is_ours config request =
      request.session_id == config.session_id && same_bytes request.resume_token config.resume_token

  unfoldable pub judge_request : LockstepConfig → Result ResumeRequest → Verdict
  judge_request config (err e) = failed e
  judge_request config (ok request) = if is_ours config request then admitted else refused

  unfoldable pub judge_header : LockstepConfig → List ℕ → Option (List ℕ) → Verdict
  judge_header config frame none = failed invalid_data
  judge_header config frame (some header) =
      if word_at header 2 == frame_resume
      then judge_request config (to_request (drop header_bytes frame))
      else refused

  unfoldable pub judge_frame : LockstepConfig → Result (List ℕ) → Verdict
  judge_frame config (err e) = failed e
  judge_frame config (ok frame) =
      judge_header config frame (decode_header (take header_bytes frame))

  -- The body of the loop, given the verdict on the next connection.
  unfoldable pub resolve :
      Verdict
      → Connection
      → Transport
      → ℕ
      → Run (Result (Unit {0}) × Transport)
      → Run (Result (Unit {0}) × Transport)
  resolve refused c t world_tick rest = rest
  resolve admitted c t world_tick rest = finished (attach t c world_tick)
  resolve (failed e) c t world_tick rest = finished (err e, t)

  -- The loop, over what `accept` returns.
  unfoldable pub resume_from :
      List (Result Connection) → Transport → ℕ → Run (Result (Unit {0}) × Transport)
  resume_from [] t world_tick = waiting
  resume_from (err e ∷ accepts) t world_tick = finished (err e, record t { accepts = accepts })
  resume_from (ok c ∷ accepts) t world_tick =
      let rest = resume_from accepts t world_tick in
      let (r, c') = receive_frame c in
      resolve (judge_frame t.config r) c' (record t { accepts = accepts }) world_tick rest

  unfoldable pub accept_resume : Transport → ℕ → Run (Result (Unit {0}) × Transport)
  accept_resume t world_tick = resume_from t.accepts t world_tick

  -- What the frame of an answer gives.
  unfoldable pub judge_action :
      ObservationTensor → Option (ℕ × ℕ × ActionTensor) → Result ActionTensor
  judge_action obs none = err invalid_data
  judge_action obs (some (step, entity, action)) =
      if step == obs.step && (entity == obs.entity_id) then ok action else err invalid_data

  -- The end of the closure of `exchange`: one frame in.
  unfoldable pub read_answer : ObservationTensor → Connection → Result ActionTensor × Connection
  read_answer obs c =
      and_then (receive_frame c) (λ frame c'. (judge_action obs (decode_action frame), c'))

  -- The closure of `exchange`: both frames out, then the answer.
  unfoldable pub attempt :
      LockstepConfig
      → ObservationTensor
      → ObservationExtension
      → Connection
      → Result ActionTensor × Connection
  attempt config obs extension c =
      and_then
        (and_then (write_all (encode_observation protocol_version obs) c) (λ _.
          write_json_frame frame_observation_extension obs.step config.stable_agent_id
            (of_extension extension)))
        (λ _. read_answer obs)

  abbrev pub paused : Option String
  paused = some "transport disconnected; world paused"

  -- Whether `exchange` goes around again after an error, and with which transport.
  unfoldable pub retry : ObservationTensor → ErrorKind → Transport → Option Transport
  retry obs e t =
      if is_disconnect e
      then some
          (emit_lifecycle (record t { connection = none }) obs.step session_detached none paused).1
      else if is_invalid e
      then some t
      else none

  unfoldable pub around :
      ErrorKind
      → Transport
      → (Transport → Run (Result ActionTensor × Transport))
      → Option Transport
      → Run (Result ActionTensor × Transport)
  around e t again none = finished (err e, t)
  around e t again (some t') = again t'

  unfoldable pub conclude :
      ObservationTensor
      → Result ActionTensor
      → Transport
      → (Transport → Run (Result ActionTensor × Transport))
      → Run (Result ActionTensor × Transport)
  conclude obs (ok action) t again = finished (ok action, t)
  conclude obs (err e) t again = around e t again (retry obs e t)

  -- One round, once the transport is ready.
  unfoldable pub round :
      ObservationTensor
      → ObservationExtension
      → (Transport → Run (Result ActionTensor × Transport))
      → Run (Result (Unit {0}) × Transport)
      → Run (Result ActionTensor × Transport)
  round obs extension again waiting = waiting
  round obs extension again out_of_fuel = out_of_fuel
  round obs extension again panicked = panicked
  round obs extension again (finished (err e, t)) = finished (err e, t)
  round obs extension again (finished (ok u, t)) = elim t.connection [
    | none ↦ panicked
    | some c ↦
        let (r, c') = attempt t.config obs extension c in
        conclude obs r (record t { connection = some c' }) again
  ]

  unfoldable pub ready_on : Option Connection → Transport → ℕ → Run (Result (Unit {0}) × Transport)
  ready_on none t world_tick = accept_resume t world_tick
  ready_on (some c) t world_tick = finished (ok tt, t)

  unfoldable pub ready : Transport → ℕ → Run (Result (Unit {0}) × Transport)
  ready t world_tick = ready_on t.connection t world_tick

  -- The loop of `exchange`, on fuel.
  unfoldable pub exchange :
      ℕ
      → ObservationTensor
      → ObservationExtension
      → Transport
      → Run (Result ActionTensor × Transport)
  exchange zero obs extension t = out_of_fuel
  exchange (suc fuel) obs extension t =
      round obs extension (exchange fuel obs extension) (ready t obs.step)
