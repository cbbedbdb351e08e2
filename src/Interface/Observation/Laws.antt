-- ===== src/Interface/Observation/Laws.antt =====
-- The flat layout has the configured length, and parsing it gives the tensor back.
use mathlib.Core.List.{append_assoc}
use ertw.Interface.Action.{one}
use ertw.Float.Exact.{to_unsigned-of_ℕ}
use ertw.Common.Bits.{bit_and_low16, bit_or_join}
use ertw.Float.Order.{le, F32}
use Prim.Native.Nat.{bit_or}
use ertw.Common.{
  take_prefix, take, ap₂, ltb, drop_prefix, ◌==◌, true, false, true, some, if◌then◌else◌, Bool, ◌∙◌,
  All, drop, ◌+◌, refl, [], ap, ◌∷◌, ◌++◌, ◌%◌, length-append, ◌/◌, arith, ◌*◌, ◌≡◌, ◌^◌, length,
  List, ◌<◌, ℕ,
}
use ertw.Interface.Observation.{
  from_f32_slice, read_neighbors, field_len, neighbor_stride, self_stride, tag_chunk,
  observation_len, flatten_neighbor, read_neighbor, read_chunk, NeighborView, to_f32_vec,
  ObservationTensor, flatten_neighbors,
}

pub length-flatten_neighbors :
    (ns : List NeighborView) → length (flatten_neighbors ns) ≡ length ns * neighbor_stride
unfolding flatten_neighbors flatten_neighbor
length-flatten_neighbors [] = refl
length-flatten_neighbors (n ∷ ns) = omega (arith, length-flatten_neighbors ns)

-- The lengths that the fields of a tensor have by their types and by `new`.
pub record IsShaped (obs : ObservationTensor) : Type 0 where
  pub some_neighbors : 0 < obs.config.max_neighbors
  pub self_len : length obs.self_state ≡ self_stride
  pub field_fits : length obs.field ≡ field_len obs.config
  pub neighbors_fit : length obs.neighbors ≡ obs.config.max_neighbors

-- The flat form of an observation whose parts have the configured lengths has the length that the
-- configuration promises.
pub length-to_f32_vec :
    (obs : ObservationTensor) → IsShaped obs → length (to_f32_vec obs) ≡ observation_len obs.config
unfolding to_f32_vec observation_len
length-to_f32_vec obs h = omega (
  arith,
  length-append {0} obs.self_state (obs.field ++ flatten_neighbors obs.neighbors),
  length-append {0} obs.field (flatten_neighbors obs.neighbors),
  length-flatten_neighbors obs.neighbors,
  h.self_len,
  h.field_fits,
  ap (λ (t : ℕ). t * neighbor_stride) h.neighbors_fit,
)

abbrev pub IsTagged : NeighborView → Type 0
IsTagged n = n.tags < 2 ^ 64

read_chunk-tag_chunk : (tags k : ℕ) → read_chunk (tag_chunk tags k) ≡ tags / 2 ^ k % 65536
unfolding read_chunk tag_chunk
read_chunk-tag_chunk tags k =
    rw (bit_and_low16 (tags / 2 ^ k)) (to_unsigned-of_ℕ (tags / 2 ^ k % 65536) (omega arith))

join_two :
    (k lo hi whole : ℕ) → lo < 2 ^ k → lo + hi * 2 ^ k ≡ whole → bit_or lo (hi * 2 ^ k) ≡ whole
join_two k lo hi whole h e = bit_or_join k lo hi h ∙ e

-- Four chunks of 16 bits hold all of the tags.
join_chunks :
    (t : ℕ)
    → t < 2 ^ 64
    → bit_or
        (bit_or
          (bit_or (t / 2 ^ 0 % 65536) (t / 2 ^ 16 % 65536 * 2 ^ 16))
          (t / 2 ^ 32 % 65536 * 2 ^ 32))
        (t / 2 ^ 48 % 65536 * 2 ^ 48)
      ≡ t
join_chunks t h =
    rw
      (
        join_two 16 (t / 2 ^ 0 % 65536) (t / 2 ^ 16 % 65536) (t % 2 ^ 32) (omega arith)
            (omega arith),
        join_two 32 (t % 2 ^ 32) (t / 2 ^ 32 % 65536) (t % 2 ^ 48) (omega arith) (omega arith),
      )
      (join_two 48 (t % 2 ^ 48) (t / 2 ^ 48 % 65536) t (omega arith) (omega arith))

read_flag : (v : Bool) → le 0x3f000000 (if v then one else 0) ≡ v
unfolding le
read_flag true = refl
read_flag false = refl

read_neighbor-flatten :
    (n : NeighborView) (rest : List F32)
    → IsTagged n
    → read_neighbor (flatten_neighbor n ++ rest) ≡ n
unfolding read_neighbor flatten_neighbor
read_neighbor-flatten n rest h = rw (
  read_chunk-tag_chunk n.tags 0,
  read_chunk-tag_chunk n.tags 16,
  read_chunk-tag_chunk n.tags 32,
  read_chunk-tag_chunk n.tags 48,
  join_chunks n.tags h,
  read_flag n.valid,
)

drop_neighbor :
    (n : NeighborView) (rest : List F32) → drop neighbor_stride (flatten_neighbor n ++ rest) ≡ rest
unfolding flatten_neighbor
drop_neighbor n rest = refl

read_neighbors-flatten :
    (ns : List NeighborView)
    → All IsTagged ns
    → read_neighbors (length ns) (flatten_neighbors ns) ≡ ns
unfolding read_neighbors flatten_neighbors
read_neighbors-flatten [] h = refl
read_neighbors-flatten (n ∷ ns) h = rw (
  drop_neighbor n (flatten_neighbors ns),
  read_neighbor-flatten n (flatten_neighbors ns) h.0,
  read_neighbors-flatten ns h.1,
)

-- Where the flat form is cut.
drop_two :
    (n m : ℕ) (xs ys zs : List F32)
    → length xs ≡ n
    → length ys ≡ m
    → drop (n + m) (xs ++ (ys ++ zs)) ≡ zs
drop_two n m xs ys zs p q =
    rw (← append_assoc xs ys zs)
      (drop_prefix (n + m) (xs ++ ys) zs (length-append xs ys ∙ ap₂ ◌+◌ p q))

-- Parsing the flat form of such an observation, with 64-bit relation masks and any number of
-- neighbors but none at all, gives the tensor back, but for the step and the entity, which the frame's
-- header carries.
pub from_f32_slice-to_f32_vec :
    (obs : ObservationTensor)
    → IsShaped obs
    → All IsTagged obs.neighbors
    → from_f32_slice (to_f32_vec obs) obs.config ≡ some (record obs { step = 0; entity_id = 0 })
unfolding from_f32_slice
from_f32_slice-to_f32_vec obs h tagged =
    rw
      (
        length-to_f32_vec obs h,
        eq_self (observation_len obs.config),
        lt_test obs.config.max_neighbors h.some_neighbors,
      )
      (ap some (cut obs h tagged))
  where
    eq_self : (n : ℕ) → (n == n) ≡ true
    eq_self n = ground arith

    lt_test : (n : ℕ) → 0 < n → ltb 0 n ≡ true
    lt_test n p = ground arith

    cut :
        (o : ObservationTensor)
        → IsShaped o
        → All IsTagged o.neighbors
        → record o {
          step = 0;
          entity_id = 0;
          self_state = take self_stride (to_f32_vec o);
          field = take (field_len o.config) (drop self_stride (to_f32_vec o));
          neighbors =
              read_neighbors o.config.max_neighbors
                (drop (self_stride + field_len o.config) (to_f32_vec o));
        }
          ≡ record o { step = 0; entity_id = 0 }
    cut o v g =
        unfold to_f32_vec in
        rw (
          take_prefix 8 o.self_state (o.field ++ flatten_neighbors o.neighbors) v.self_len,
          drop_prefix 8 o.self_state (o.field ++ flatten_neighbors o.neighbors) v.self_len,
          take_prefix (field_len o.config) o.field (flatten_neighbors o.neighbors) v.field_fits,
          drop_two 8 (field_len o.config) o.self_state o.field (flatten_neighbors o.neighbors)
              v.self_len v.field_fits,
          ← v.neighbors_fit,
          read_neighbors-flatten o.neighbors g,
        )
