-- ===== src/Server/Frame.antt =====
-- crates/ertw_server/src/lib.rs: encoding and decoding of frames. A frame is a list of bytes.
pub mod Laws
use Prim.Native.Nat.{bit_or}
use ertw.Interface.Action.{action_stride, to_f32, from_f32, ActionTensor}
use ertw.Interface.Wire.{
  wire_header_len, wire_magic, u32, frame_action, frame_observation, frame_hello, word_at,
  default_header, wire_header, WireHeader,
}
use ertw.Interface.Observation.{to_f32_vec, ObservationTensor, NeighborView, InterfaceConfig}
use ertw.Common.Bytes.{read_words, encode_words}
use ertw.Common.{
  drop, take, ◌&&◌, none, ◌+◌, [], some, ltb, ◌==◌, ◌++◌, suc, length, ◌^◌, ◌∷◌, if◌then◌else◌,
  Bool, Option, ◌*◌, List, ℕ,
}
use mathlib.Core.Option

abbrev pub header_bytes : ℕ
header_bytes = 56

abbrev pub max_frame_bytes : ℕ
max_frame_bytes = 16 * 1024 * 1024

-- `ertw_core::PROTOCOL_VERSION`.
abbrev pub protocol_version : ℕ
protocol_version = 4

unfoldable pub encode_header : List ℕ → List ℕ
encode_header words = encode_words words

unfoldable pub decode_header : List ℕ → Option (List ℕ)
decode_header bytes =
    if length bytes == header_bytes then some (read_words wire_header_len bytes) else none

unfoldable pub encode_hello : ℕ → InterfaceConfig → List ℕ
encode_hello version config = encode_header (
    wire_header (record default_header {
      version = version;
      frame_kind = frame_hello;
      frame_bytes = header_bytes;
      max_neighbors = u32 config.max_neighbors;
      field_samples = u32 config.field_samples;
      field_channels = u32 config.field_channels;
    }))

-- The number of real neighbors.
unfoldable pub count_valid : List NeighborView → ℕ
count_valid [] = 0
count_valid (n ∷ ns) = let rest = count_valid ns in if n.valid then suc rest else rest

unfoldable pub observation_header : ℕ → ObservationTensor → WireHeader
unfolding count_valid
observation_header version obs =
    let payload = to_f32_vec obs in
    record {
      version = version;
      frame_kind = frame_observation;
      frame_bytes = u32 (header_bytes + length payload * 4);
      step = obs.step;
      entity_id = obs.entity_id;
      max_neighbors = u32 obs.config.max_neighbors;
      neighbor_count = u32 (count_valid obs.neighbors);
      field_samples = u32 obs.config.field_samples;
      field_channels = u32 obs.config.field_channels;
      payload_floats = u32 (length payload);
    }

unfoldable pub encode_observation : ℕ → ObservationTensor → List ℕ
encode_observation version obs =
    encode_header (wire_header (observation_header version obs)) ++ encode_words (to_f32_vec obs)

unfoldable pub action_header : ℕ → ℕ → ℕ → WireHeader
action_header version step entity_id = record default_header {
  version = version;
  frame_kind = frame_action;
  frame_bytes = header_bytes + action_stride * 4;
  step = step;
  entity_id = entity_id;
  payload_floats = action_stride;
}

unfoldable pub encode_action : ℕ → ℕ → ℕ → ActionTensor → List ℕ
encode_action version step entity_id action =
    encode_header (wire_header (action_header version step entity_id))
    ++ encode_words (to_f32 action)

-- The tests of `decode_action` on the header and on the length of the frame.
unfoldable pub is_action_header : List ℕ → ℕ → Bool
is_action_header header len =
    (word_at header 0 == wire_magic)
    && (word_at header 1 == protocol_version)
    && (word_at header 2 == frame_action)
    && (word_at header 3 == len)
    && (word_at header 12 == action_stride)
    && (len == header_bytes + action_stride * 4)

-- `lo as u64 | ((hi as u64) << 32)`.
unfoldable pub join_words : ℕ → ℕ → ℕ
join_words lo hi = bit_or lo (hi * 2 ^ 32)

-- The action of a frame whose header passed.
unfoldable pub decode_payload : List ℕ → List ℕ → Option (ℕ × ℕ × ActionTensor)
decode_payload header bytes =
    Option.map
      (λ action. (
        join_words (word_at header 4) (word_at header 5),
        join_words (word_at header 6) (word_at header 7),
        action,
      ))
      (from_f32 (read_words action_stride (drop header_bytes bytes)))

unfoldable pub decode_action : List ℕ → Option (ℕ × ℕ × ActionTensor)
unfolding decode_header
decode_action bytes =
    if ltb (length bytes) header_bytes
    then none
    else elim (decode_header (take header_bytes bytes)) [
      | none ↦ none
      | some header ↦
          if is_action_header header (length bytes) then decode_payload header bytes else none
    ]
