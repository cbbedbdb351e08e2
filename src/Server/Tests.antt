-- ===== src/Server/Tests.antt =====
-- Frames and remote controllers at concrete inputs.
use ertw.Interface.Wire.{wire_header}
use ertw.Common.Bytes.{read_words}
use ertw.Common.Bytes.{encode_words}
use ertw.Server.Stream.Laws.{read_frame_sound, read_frame_lem, IsFrame}
use ertw.Server.Remote.Laws.{receive-latest, latest, or_else, reachable_act-IsBanded}
use ertw.Common.{refl, length, none, true, ◌++◌, ◌≤◌, some, ◌≡◌, [], replicate, ℕ, ◌∷◌, arith, List}
use ertw.Server.Remote.{rounds, next, receive, thread_round, here, start, act, Remote}
use ertw.Interface.Action.Laws.{IsBanded}
use ertw.Server.Stream.{is_frame_header, unexpected_eof, Stream}
use ertw.Interface.Observation.{default_neighbor, default_config, ObservationTensor}
use ertw.Server.Frame.{
  max_frame_bytes, encode_hello, encode_header, protocol_version, encode_action, decode_action,
}
use ertw.Server.Frame.Laws.{decode_action-encode_action, IsTensor}
use ertw.Interface.Action.{sanitize, default_action, ActionTensor}

abbrev sample : ActionTensor
sample = record default_action { torque = 0x3f000000; clamp = 0x3f800000 }

sample-IsTensor : IsTensor sample
sample-IsTensor = record {
  x_fits = omega arith;
  y_fits = omega arith;
  torque_fits = omega arith;
  clamp_fits = omega arith;
  fabricate_fits = omega arith;
  freq_fits = omega arith;
  phase_fits = omega arith;
}

decode_action-encode_action_example :
    decode_action (encode_action protocol_version 7 9 sample) ≡ some (7, 9, sanitize sample)
decode_action-encode_action_example =
    decode_action-encode_action 7 9 sample (omega arith) (omega arith) sample-IsTensor

abbrev sent : List ℕ
sent = encode_action protocol_version 7 9 sample

abbrev observed : ObservationTensor
observed = record {
  step = 1;
  entity_id = 9;
  config = record default_config { max_neighbors = 1; field_samples = 1 };
  self_state = replicate 8 0;
  field = replicate 9 0;
  neighbors = default_neighbor ∷ [];
}

-- A peer that sends three bytes and hangs up, on a controller that has made one round.
abbrev short : Stream
short = record { incoming = 1 ∷ 2 ∷ 3 ∷ []; ending = unexpected_eof }

reachable_act-IsBanded_example : IsBanded (act observed (thread_round true (start true short))).1
reachable_act-IsBanded_example =
    reachable_act-IsBanded true short (thread_round true (start true short)) observed
      (omega arith, (omega arith, (omega arith, tt))) (next here (rounds (start true short) true))

-- A peer that answers at once, with a controller that was asked and made one round.
abbrev prompt : Stream
prompt = record { incoming = encode_action protocol_version 1 9 sample; ending = unexpected_eof }

abbrev waited : Remote
waited = thread_round true (act observed (start true prompt)).0

receive-latest_example :
    receive 1 9 ((0, 9, sample) ∷ (1, 8, sample) ∷ []) none
    ≡ or_else (latest 1 9 ((0, 9, sample) ∷ (1, 8, sample) ∷ [])) none
receive-latest_example = receive-latest 1 9 ((0, 9, sample) ∷ (1, 8, sample) ∷ []) none

abbrev hello : List ℕ
hello = encode_hello protocol_version default_config

hello-IsFrame : IsFrame hello
unfolding encode_hello encode_header encode_words is_frame_header wire_header read_words
hello-IsFrame = record { long = omega arith; header_passes = refl; sized = refl }

abbrev before : Stream
before = record { incoming = hello ++ (7 ∷ []); ending = unexpected_eof }

abbrev after : Stream
after = record { incoming = 7 ∷ []; ending = unexpected_eof }

read_frame_sound_example :
    IsFrame hello × (length hello ≤ max_frame_bytes) × (before.incoming ≡ hello ++ after.incoming)
read_frame_sound_example =
    read_frame_sound before after hello (read_frame_lem hello (7 ∷ []) unexpected_eof hello-IsFrame)
