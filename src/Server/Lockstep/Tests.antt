-- ===== src/Server/Lockstep/Tests.antt =====
-- A lockstep session at concrete inputs.
use ertw.Server.Lockstep.Log.{
  deaths-run_program, survives, reports-run_ticks, agents_after, agents_before, deaths, is_new,
  reports,
}
use ertw.Server.Lockstep.Program.{total_ticks, knows, run_program, run_ticks, Driven}
use ertw.Common.Bytes.{encode_words}
use ertw.Interface.Wire.{wire_header, frame_resume}
use ertw.Server.Lockstep.Fuel.{exchange-IsSettled}
use ertw.Server.Connection.{Connection}
use ertw.Server.Frame.{encode_header, protocol_version, encode_action}
use ertw.Server.Lockstep.Hold.{
  act_lockstep-IsDecided, IsDecided, act_lockstep_unpaused, act_ticks_held, act_ticks,
}
use ertw.Server.Lockstep.Agent.{physical_of, act_lockstep, LockstepAgent}
use ertw.Server.Lockstep.Resume.{accept_resume-IsResumed, IsResumed}
use ertw.Server.Lockstep.Answer.{exchange-IsAnswered, IsAnswered}
use ertw.Server.Lockstep.Ready.{reserve, supply, rounds_left, IsSettled, IsHonestTransport}
use ertw.Server.Lockstep.Transport.{finished, accept_resume, exchange, Transport}
use ertw.Interface.Action.{to_f32, default_action, ActionTensor}
use ertw.Interface.Observation.{default_config, ObservationTensor}
use ertw.Server.Lockstep.{json_header, ObservationExtension, LockstepConfig, Json}
use ertw.Server.Stream.{read_exact, read_frame, ok, unexpected_eof, broken_pipe}
use ertw.Common.{
  true, ltb, if◌then◌else◌, ◌+◌, arith, ◌≡◌, ◌++◌, replicate, false, ℕ, ◌∷◌, List, none, some, [],
  refl,
}

-- A printer that prints nothing, and a parser that takes all for the token of session 5.
abbrev json : Json
json = record {
  of_metadata = λ m. [];
  of_event = λ e. [];
  of_extension = λ e. [];
  to_request = λ bytes. ok (record { session_id = 5; resume_token = bytes });
}

abbrev config : LockstepConfig
config = record {
  physics_ticks_per_decision = 3;
  world_seed = 1;
  world_id = 2;
  session_id = 5;
  stable_agent_id = 4;
  resume_token = 7 ∷ 8 ∷ [];
  deltas = false;
  interface_config = record default_config { max_neighbors = 0; field_samples = 0 };
}

abbrev observed : ObservationTensor
observed = record {
  step = 7;
  entity_id = 9;
  config = record default_config { max_neighbors = 0; field_samples = 0 };
  self_state = replicate 8 0;
  field = [];
  neighbors = [];
}

abbrev steered : ActionTensor
steered = record default_action { clamp = 0x3f800000 }

abbrev extension : ObservationExtension
extension = record { decision_sequence = 1; delta = none }

abbrev peer : List ℕ → Connection
peer bytes = record {
  stream = record { incoming = bytes; ending = unexpected_eof };
  sent = [];
  room = 10000;
  refusal = broken_pipe;
  settings = none;
}

abbrev request : List ℕ
request = json_header frame_resume 0 4 config.resume_token ++ config.resume_token

abbrev answer : List ℕ
answer = encode_action protocol_version 7 9 steered

-- The session's own connection answers another step and then stops; a stranger connects, then the
-- peer with its token, which answers.
abbrev transport : Transport
transport = record {
  accepts = ok (peer (json_header 1 0 4 [])) ∷ ok (peer (request ++ answer)) ∷ [];
  connection = some (peer (encode_action protocol_version 6 9 steered));
  config = config;
  lifecycle_sequence = 1;
  pending_lifecycle = [];
}

abbrev detached : Transport
detached = record transport { connection = none }

transport-IsHonest : IsHonestTransport transport
transport-IsHonest = record {
  accepts_honest = (((λ e. cc), (λ e. cc)), (((λ e. cc), (λ e. cc)), tt));
  now_honest = ((λ e. cc), (λ e. cc));
}

exchange-IsSettled_example : IsSettled (exchange json 1000 observed extension transport)
unfolding rounds_left supply encode_action encode_header encode_words wire_header to_f32 reserve
    json_header
exchange-IsSettled_example =
    exchange-IsSettled json 1000 observed extension transport transport-IsHonest (omega arith)

exchange-IsAnswered_example :
    IsAnswered observed transport (exchange json 1000 observed extension transport)
exchange-IsAnswered_example = exchange-IsAnswered json 1000 observed extension transport

accept_resume-IsResumed_example :
    IsResumed json config none detached.accepts (accept_resume json detached 7)
accept_resume-IsResumed_example = accept_resume-IsResumed json detached 7

abbrev agent : LockstepAgent
agent = record {
  transport = transport;
  held_action = record default_action { fabricate = 0x3f800000; clamp = 0x3f800000 };
  remaining_ticks = 2;
  decision_sequence = 3;
  previous_physical = none;
}

abbrev due : LockstepAgent
due = record agent { remaining_ticks = 0 }

act_ticks_held_example :
    act_ticks json 5 agent (observed ∷ observed ∷ [])
    ≡ finished (record agent { remaining_ticks = 0 }, steered ∷ steered ∷ [])
act_ticks_held_example = act_ticks_held json 5 (observed ∷ observed ∷ []) agent (omega arith)

act_lockstep-IsDecided_example : IsDecided due (act_lockstep json 1000 due observed)
unfolding physical_of rounds_left supply encode_action encode_header encode_words wire_header to_f32
    reserve json_header
act_lockstep-IsDecided_example =
    act_lockstep-IsDecided json 1000 due observed (record { energy = 0; structure = 0; mass = 0 })
      refl refl transport-IsHonest (omega arith)

abbrev orphan : LockstepAgent
orphan = record due { transport = record detached { accepts = ok (peer []) ∷ [] } }

act_lockstep_unpaused_example :
    (a' : LockstepAgent) × (act_lockstep json 1 orphan observed ≡ finished (a', default_action))
    × (a'.transport.accepts ≡ [])
unfolding physical_of read_frame read_exact
act_lockstep_unpaused_example =
    act_lockstep_unpaused json 0 orphan observed (record { energy = 0; structure = 0; mass = 0 })
      (peer []) [] unexpected_eof refl refl refl refl refl

-- A world counts its steps. A second agent is there from the third on.
abbrev counted : Driven ℕ
counted = record {
  step = λ w. w + 1;
  agents = λ w. (1, 0) ∷ (if ltb w 3 then [] else (2, 1) ∷ []);
  is_agent = λ w. true;
  clock = λ w. w;
}

reports-run_ticks_example :
    reports (run_ticks counted 5 0 ((1, 0) ∷ []) 0).1 3 2
    ≡ is_new (agents_before counted ((1, 0) ∷ []) 0 2) (agents_after counted 0 2) 2
reports-run_ticks_example =
    reports-run_ticks counted 5 0 2 2 ((1, 0) ∷ []) 0 (omega arith) (refl, (refl, tt))

born_once : is_new (agents_before counted ((1, 0) ∷ []) 0 2) (agents_after counted 0 2) 2 ≡ true
unfolding is_new agents_before agents_after knows
born_once = refl

deaths-run_program_example :
    deaths (run_program counted 5 2 1 0).1 ≡ (if survives counted 0 (total_ticks 5 2) then 0 else 1)
deaths-run_program_example = deaths-run_program counted 5 2 1 0
