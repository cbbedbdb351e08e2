-- ===== src/Server/Frame/Laws.antt =====
-- Frames survive the wire, and what is accepted as an action has exactly the layout of one.
use mathlib.Core.List.{append-nil}
use ertw.Common.Bytes.{encode_words, read_words}
use mathlib.Core.Path.{subst}
use ertw.Common.Bits.{bit_or_join}
use ertw.Common.Bytes.Laws.{read_words-encode_words, length-encode_words, IsWord}
use ertw.Common.{
  refl, [], true, drop-append, take-append, drop, ◌∙◌, some, ◌/◌, ◌++◌, take, arith, ◌≡◌, ◌^◌, List,
  length, All, ◌<◌, ℕ,
}
use ertw.Interface.Action.{from_f32, action_stride, to_f32, sanitize, ActionTensor}
use ertw.Server.Frame.{
  decode_payload, is_action_header, action_header, protocol_version, encode_action, decode_action,
  header_bytes, decode_header, join_words, encode_header,
}
use ertw.Interface.Wire.{wire_header_len, u32, wire_header, WireHeader}

-- The widths of the fields of a header.
pub record IsHeader (h : WireHeader) : Type 0 where
  pub version_fits : h.version < 2 ^ 8
  pub kind_fits : h.frame_kind < 2 ^ 32
  pub bytes_fit : h.frame_bytes < 2 ^ 32
  pub neighbors_fit : h.max_neighbors < 2 ^ 32
  pub count_fits : h.neighbor_count < 2 ^ 32
  pub samples_fit : h.field_samples < 2 ^ 32
  pub channels_fit : h.field_channels < 2 ^ 32
  pub payload_fits : h.payload_floats < 2 ^ 32

pub wire_header-IsWord : (h : WireHeader) → IsHeader h → All IsWord (wire_header h)
unfolding wire_header
wire_header-IsWord h v = omega arith

pub length-encode_header : (h : WireHeader) → length (encode_header (wire_header h)) ≡ header_bytes
unfolding encode_header wire_header
length-encode_header h = length-encode_words (wire_header h)

take-encode_header :
    (h : WireHeader) (rest : List ℕ)
    → take header_bytes (encode_header (wire_header h) ++ rest) ≡ encode_header (wire_header h)
take-encode_header h rest =
    let bytes = encode_header (wire_header h) in
    subst (λ n. take n (bytes ++ rest) ≡ bytes) (length-encode_header h) (take-append bytes rest)

drop-encode_header :
    (h : WireHeader) (rest : List ℕ)
    → drop header_bytes (encode_header (wire_header h) ++ rest) ≡ rest
drop-encode_header h rest =
    let bytes = encode_header (wire_header h) in
    subst (λ n. drop n (bytes ++ rest) ≡ rest) (length-encode_header h) (drop-append bytes rest)

read_header :
    (h : WireHeader)
    → IsHeader h
    → read_words wire_header_len (encode_header (wire_header h)) ≡ wire_header h
unfolding encode_header
read_header h v = rw (← append-nil (encode_words (wire_header h))) (read_wide h v)
  where
    read_wide :
        (h : WireHeader)
        → IsHeader h
        → read_words wire_header_len (encode_words (wire_header h) ++ []) ≡ wire_header h
    read_wide h v =
        unfold wire_header in read_words-encode_words (wire_header h) [] (wire_header-IsWord h v)

-- A header is read back from the first bytes of its frame.
pub decode_header-encode_header :
    (h : WireHeader) (rest : List ℕ)
    → IsHeader h
    → decode_header (take header_bytes (encode_header (wire_header h) ++ rest))
      ≡ some (wire_header h)
unfolding decode_header
decode_header-encode_header h rest v =
    rw (take-encode_header h rest, length-encode_header h, read_header h v)

-- Both halves of a u64 are joined again.
pub join_words_halves : (n : ℕ) → n < 2 ^ 64 → join_words (u32 n) (u32 (n / 2 ^ 32)) ≡ n
unfolding join_words
join_words_halves n h = bit_or_join 32 (u32 n) (u32 (n / 2 ^ 32)) (omega arith) ∙ omega arith

-- The fields of an action are f32 patterns.
pub record IsTensor (a : ActionTensor) : Type 0 where
  pub x_fits : a.force.x < 2 ^ 32
  pub y_fits : a.force.y < 2 ^ 32
  pub torque_fits : a.torque < 2 ^ 32
  pub clamp_fits : a.clamp < 2 ^ 32
  pub fabricate_fits : a.fabricate < 2 ^ 32
  pub freq_fits : a.osc_freq < 2 ^ 32
  pub phase_fits : a.osc_phase < 2 ^ 32

action_header-IsHeader :
    (step entity_id : ℕ) → IsHeader (action_header protocol_version step entity_id)
unfolding action_header
action_header-IsHeader step entity_id = omega arith

length_action :
    (step entity_id : ℕ) (a : ActionTensor)
    → length (
        encode_header (wire_header (action_header protocol_version step entity_id))
        ++ encode_words (to_f32 a))
      ≡ 84
unfolding encode_header wire_header encode_words to_f32
length_action step entity_id a = refl

action_header_passes :
    (step entity_id : ℕ)
    → is_action_header (wire_header (action_header protocol_version step entity_id)) 84 ≡ true
unfolding is_action_header wire_header action_header
action_header_passes step entity_id = refl

read_floats :
    (a : ActionTensor) → IsTensor a → read_words action_stride (encode_words (to_f32 a)) ≡ to_f32 a
read_floats a h = rw (← append-nil (encode_words (to_f32 a))) wide
  where
    wide : read_words action_stride (encode_words (to_f32 a) ++ []) ≡ to_f32 a
    wide = unfold to_f32 in read_words-encode_words (to_f32 a) [] (omega arith)

from_f32-to_f32 : (a : ActionTensor) → from_f32 (to_f32 a) ≡ some (sanitize a)
unfolding from_f32 to_f32
from_f32-to_f32 a = refl

decode_payload_lem :
    (step entity_id : ℕ) (a : ActionTensor)
    → step < 2 ^ 64
    → entity_id < 2 ^ 64
    → IsTensor a
    → decode_payload (wire_header (action_header protocol_version step entity_id)) (
        encode_header (wire_header (action_header protocol_version step entity_id))
        ++ encode_words (to_f32 a))
      ≡ some (step, entity_id, sanitize a)
unfolding decode_payload wire_header action_header
decode_payload_lem step entity_id a hs he ha = rw (
  drop-encode_header (action_header protocol_version step entity_id) (encode_words (to_f32 a)),
  read_floats a ha,
  join_words_halves step hs,
  join_words_halves entity_id he,
  from_f32-to_f32 a,
)

decode_frame :
    (bytes header : List ℕ)
    → length bytes ≡ 84
    → decode_header (take header_bytes bytes) ≡ some header
    → is_action_header header 84 ≡ true
    → decode_action bytes ≡ decode_payload header bytes
unfolding decode_action
decode_frame bytes header l d p = rw (l, d, l, p)

-- An action of 32-bit patterns that was encoded with a 64-bit step and entity decodes to its step, its entity and the sanitized action.
pub decode_action-encode_action :
    (step entity_id : ℕ) (a : ActionTensor)
    → step < 2 ^ 64
    → entity_id < 2 ^ 64
    → IsTensor a
    → decode_action (encode_action protocol_version step entity_id a)
      ≡ some (step, entity_id, sanitize a)
unfolding encode_action
decode_action-encode_action step entity_id a hs he ha =
    let header = wire_header (action_header protocol_version step entity_id) in
    let payload = encode_words (to_f32 a) in
    decode_frame (encode_header header ++ payload) header (length_action step entity_id a)
      (decode_header-encode_header (action_header protocol_version step entity_id) payload
        (action_header-IsHeader step entity_id))
      (action_header_passes step entity_id)
    ∙ decode_payload_lem step entity_id a hs he ha

-- A frame that decodes to an action has the length and the header words of one, and the action is
-- that of its floats, sanitized.
pub decode_action_sound :
    (bytes : List ℕ) (step entity_id : ℕ) (a : ActionTensor)
    → decode_action bytes ≡ some (step, entity_id, a)
    → (length bytes ≡ 84)
      × (is_action_header (read_words wire_header_len (take header_bytes bytes)) 84 ≡ true)
      × (from_f32 (read_words action_stride (drop header_bytes bytes)) ≡ some a)
unfolding decode_action decode_header decode_payload is_action_header
decode_action_sound bytes step entity_id a e = ground arith
