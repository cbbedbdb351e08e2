-- ===== src/Interface/Tests.antt =====
-- Tensors at concrete inputs.
use ertw.Common.{[], ◌+◌, ◌^◌, ◌∷◌, some, refl, ◌≡◌, arith, replicate}
use ertw.Interface.Observation.Laws.{from_f32_slice-to_f32_vec, IsShaped}
use ertw.Interface.Observation.{
  default_neighbor, field_len, self_stride, to_f32_vec, default_config, from_f32_slice,
  ObservationTensor, InterfaceConfig,
}

abbrev small : InterfaceConfig
small = record default_config { max_neighbors = 2; field_samples = 1 }

abbrev blank : ObservationTensor
blank = record {
  step = 5;
  entity_id = 6;
  config = small;
  self_state = replicate self_stride 0x3f800000;
  field = replicate (field_len small) 0;
  neighbors =
      default_neighbor ∷ record default_neighbor { tags = 2 ^ 63 + 5; mass = 0x3f000000 } ∷ [];
}

blank-IsShaped : IsShaped blank
blank-IsShaped = record {
  some_neighbors = omega arith;
  self_len = refl;
  field_fits = refl;
  neighbors_fit = refl;
}

from_f32_slice-to_f32_vec_example :
    from_f32_slice (to_f32_vec blank) blank.config ≡ some (record blank { step = 0; entity_id = 0 })
from_f32_slice-to_f32_vec_example =
    from_f32_slice-to_f32_vec blank blank-IsShaped (omega arith, (omega arith, tt))
