-- ===== src/Interface/Observation.antt =====
-- crates/ertw_interface/src/lib.rs: `InterfaceConfig`, `NeighborView` and `ObservationTensor`, with
-- the flat layout of a tensor.
pub mod Laws
use Prim.Native.Nat.{bit_or, bit_and}
use ertw.Float.Arith.{to_unsigned, of_ℕ}
use ertw.Interface.Action.{one, vec2_zero, Vec2Lite}
use ertw.Common.{
  none, take, zero, replicate, ◌==◌, drop, ◌^◌, ◌/◌, some, length, suc, ltb, [], ◌++◌, ◌∷◌,
  if◌then◌else◌, false, Bool, ◌+◌, ◌*◌, List, Option, ℕ,
}
use mathlib.Core.Option
use ertw.Float.Order.{le, F32, clamp as bound}

pub record InterfaceConfig : Type 0 where
  pub max_neighbors : ℕ
  pub sensor_radius : F32
  pub field_samples : ℕ
  pub field_channels : ℕ

-- The sensor radius is 12.0.
abbrev pub default_config : InterfaceConfig
default_config = record {
  max_neighbors = 16;
  sensor_radius = 0x41400000;
  field_samples = 4;
  field_channels = 3;
}

abbrev pub neighbor_stride : ℕ
neighbor_stride = 15

abbrev pub field_count : ℕ
field_count = 3

abbrev pub self_stride : ℕ
self_stride = 8

abbrev pub field_len : InterfaceConfig → ℕ
field_len c = field_count * c.field_samples * c.field_channels

unfoldable pub observation_len : InterfaceConfig → ℕ
observation_len c = self_stride + field_len c + c.max_neighbors * neighbor_stride

pub record NeighborView : Type 0 where
  pub rel_pos : Vec2Lite
  pub rel_vel : Vec2Lite
  pub mass : F32
  pub structure : F32
  pub energy : F32
  pub tags : ℕ
  pub conductivity : F32
  pub osc_freq : F32
  pub osc_phase : F32
  pub valid : Bool

-- A padding ghost.
abbrev pub default_neighbor : NeighborView
default_neighbor = record {
  rel_pos = vec2_zero;
  rel_vel = vec2_zero;
  mass = 0;
  structure = 0;
  energy = 0;
  tags = 0;
  conductivity = 0;
  osc_freq = 0;
  osc_phase = 0;
  valid = false;
}

pub record ObservationTensor : Type 0 where
  pub step : ℕ
  pub entity_id : ℕ
  pub config : InterfaceConfig
  pub self_state : List F32
  pub field : List F32
  pub neighbors : List NeighborView

-- `none` is the panic of the assertion.
unfoldable pub new_observation : InterfaceConfig → Option ObservationTensor
new_observation c =
    if ltb 0 c.max_neighbors
    then some (record {
      step = 0;
      entity_id = 0;
      config = c;
      self_state = replicate self_stride 0;
      field = replicate (field_len c) 0;
      neighbors = replicate c.max_neighbors default_neighbor;
    })
    else none

-- `(tags >> k) & 0xFFFF` as f32.
unfoldable pub tag_chunk : ℕ → ℕ → F32
tag_chunk tags k = of_ℕ (bit_and (tags / 2 ^ k) 0xffff)

unfoldable pub flatten_neighbor : NeighborView → List F32
unfolding tag_chunk
flatten_neighbor n =
    n.rel_pos.x
    ∷ n.rel_pos.y
    ∷ n.rel_vel.x
    ∷ n.rel_vel.y
    ∷ n.mass
    ∷ n.structure
    ∷ n.energy
    ∷ tag_chunk n.tags 0
    ∷ tag_chunk n.tags 16
    ∷ tag_chunk n.tags 32
    ∷ tag_chunk n.tags 48
    ∷ n.conductivity
    ∷ n.osc_freq
    ∷ n.osc_phase
    ∷ (if n.valid then one else 0)
    ∷ []

unfoldable pub flatten_neighbors : List NeighborView → List F32
flatten_neighbors [] = []
flatten_neighbors (n ∷ ns) = flatten_neighbor n ++ flatten_neighbors ns

unfoldable pub to_f32_vec : ObservationTensor → List F32
to_f32_vec obs = obs.self_state ++ (obs.field ++ flatten_neighbors obs.neighbors)

-- `raw[TAG_k].clamp(0.0, 65535.0) as u16 as u64`.
unfoldable pub read_chunk : F32 → ℕ
read_chunk x = to_unsigned 16 (bound x 0 0x477fff00)

-- One block of the layout, and 0.5 as the threshold of the flag.
unfoldable pub read_neighbor : List F32 → NeighborView
unfolding read_chunk
read_neighbor (a ∷ b ∷ c ∷ d ∷ m ∷ s ∷ e ∷ t0 ∷ t1 ∷ t2 ∷ t3 ∷ k ∷ f ∷ p ∷ v ∷ _) = record {
  rel_pos = record { x = a; y = b };
  rel_vel = record { x = c; y = d };
  mass = m;
  structure = s;
  energy = e;
  tags =
      bit_or (bit_or (bit_or (read_chunk t0) (read_chunk t1 * 2 ^ 16)) (read_chunk t2 * 2 ^ 32))
        (read_chunk t3 * 2 ^ 48);
  conductivity = k;
  osc_freq = f;
  osc_phase = p;
  valid = le 0x3f000000 v;
}
read_neighbor _ = default_neighbor

-- The loop over the blocks of `neighbor_stride` floats.
unfoldable pub read_neighbors : ℕ → List F32 → List NeighborView
read_neighbors zero s = []
read_neighbors (suc n) s = read_neighbor s ∷ read_neighbors n (drop neighbor_stride s)

-- `none` is a panic: of the length, or of `new`.
unfoldable pub from_f32_slice : List F32 → InterfaceConfig → Option ObservationTensor
unfolding new_observation
from_f32_slice s c =
    if length s == observation_len c
    then Option.map {A = ObservationTensor}
        (λ obs. record obs {
          self_state = take self_stride s;
          field = take (field_len c) (drop self_stride s);
          neighbors = read_neighbors c.max_neighbors (drop (self_stride + field_len c) s);
        })
        (new_observation c)
    else none
