-- ===== src/Interface/Wire.antt =====
-- crates/ertw_interface/src/lib.rs: the frame kinds and the header of a frame. An array of u32 is
-- a list of words.
use ertw.Common.{zero, [], suc, ◌/◌, ◌^◌, ◌∷◌, ◌%◌, List, ℕ}

-- "ERTW", little-endian.
abbrev pub wire_magic : ℕ
wire_magic = 0x57545245

abbrev pub frame_hello : ℕ
frame_hello = 1

abbrev pub frame_observation : ℕ
frame_observation = 2

abbrev pub frame_action : ℕ
frame_action = 3

abbrev pub frame_metadata : ℕ
frame_metadata = 4

abbrev pub frame_lifecycle : ℕ
frame_lifecycle = 5

abbrev pub frame_resume : ℕ
frame_resume = 6

abbrev pub frame_snapshot : ℕ
frame_snapshot = 7

abbrev pub frame_observation_extension : ℕ
frame_observation_extension = 8

abbrev pub wire_header_len : ℕ
wire_header_len = 14

pub record WireHeader : Type 0 where
  pub version : ℕ
  pub frame_kind : ℕ
  pub frame_bytes : ℕ
  pub step : ℕ
  pub entity_id : ℕ
  pub max_neighbors : ℕ
  pub neighbor_count : ℕ
  pub field_samples : ℕ
  pub field_channels : ℕ
  pub payload_floats : ℕ

abbrev pub default_header : WireHeader
default_header = record {
  version = 0;
  frame_kind = 0;
  frame_bytes = 0;
  step = 0;
  entity_id = 0;
  max_neighbors = 0;
  neighbor_count = 0;
  field_samples = 0;
  field_channels = 0;
  payload_floats = 0;
}

-- `as u32`.
abbrev pub u32 : ℕ → ℕ
u32 n = n % 2 ^ 32

unfoldable pub wire_header : WireHeader → List ℕ
wire_header h =
    wire_magic
    ∷ h.version
    ∷ h.frame_kind
    ∷ h.frame_bytes
    ∷ u32 h.step
    ∷ u32 (h.step / 2 ^ 32)
    ∷ u32 h.entity_id
    ∷ u32 (h.entity_id / 2 ^ 32)
    ∷ h.max_neighbors
    ∷ h.neighbor_count
    ∷ h.field_samples
    ∷ h.field_channels
    ∷ h.payload_floats
    ∷ 0
    ∷ []

-- `header[i]`, on a header of the right length.
abbrev pub word_at : List ℕ → ℕ → ℕ
word_at [] i = 0
word_at (w ∷ ws) zero = w
word_at (w ∷ ws) (suc i) = word_at ws i
