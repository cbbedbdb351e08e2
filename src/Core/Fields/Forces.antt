-- ===== src/Core/Fields/Forces.antt =====
-- crates/ertw_core/src/fields.rs: `apply_field_forces`. `nodes` is the order of the query, and
-- `has_body` tells which entities have the components of a body.
use ertw.Core.Tags.{magnetic, has, CustomTags}
use ertw.Common.{
  ◌>>=◌, not, ◌||◌, some, none, ◌++◌, leb, [], ◌∷◌, false, List, map_or, Bool, Option,
  if◌then◌else◌,
}
use ertw.Float.Arith.{div, add, sub, mul}
use ertw.Core.Fields.{sample, FieldSampler, Noise}
use ertw.Float.Order.{lt, is_neg, fmax, is_nan, negate, F32}
use ertw.Core.Components.{Physical, Entity}
use ertw.Core.World.{World, Vec2}

-- `length_squared` and `normalize_or_zero` of `bevy::math`.
pub record Vectors : Type 0 where
  pub length_squared : Vec2 → F32
  pub normalize_or_zero : Vec2 → Vec2

pub record Force : Type 0 where
  pub target : Entity
  pub force : Vec2

-- 0.35, 10.0 and 1.2.
abbrev pub drag_coefficient : F32
drag_coefficient = 0x3eb33333

abbrev pub magnetic_range : F32
magnetic_range = 0x41200000

abbrev pub magnetic_strength : F32
magnetic_strength = 0x3f99999a

unfoldable pub scale : Vec2 → F32 → Vec2
scale v k = record { x = mul v.x k; y = mul v.y k }

unfoldable pub negated : Vec2 → Vec2
negated v = record { x = negate v.x; y = negate v.y }

unfoldable pub difference : Vec2 → Vec2 → Vec2
difference a b = record { x = sub a.x b.x; y = sub a.y b.y }

unfoldable pub plus : Vec2 → Vec2 → Vec2
plus a b = record { x = add a.x b.x; y = add a.y b.y }

-- `f32::signum`.
unfoldable pub signum : F32 → F32
signum x = if is_nan x then x else if is_neg x then 0xbf800000 else 0x3f800000

-- A row of the query: position, `Physical` and tags.
unfoldable pub body_at : World → Entity → Option (Vec2 × Physical × CustomTags)
body_at w e = do
  position ← w.position e
  physical ← w.physical e
  tags ← w.tags e
  some (position, physical, tags)

unfoldable pub is_magnetic : World → Entity → Bool
is_magnetic w e = map_or false (λ b. has b.2 magnetic) (body_at w e)

unfoldable pub push : (Entity → Bool) → Entity → Vec2 → List Force
push has_body e f = if has_body e then record { target = e; force = f } ∷ [] else []

module _ (noise : Noise) (vectors : Vectors) (w : World) (sampler : FieldSampler)
    (has_body : Entity → Bool) where
  open vectors use {length_squared, normalize_or_zero}

  unfoldable pub drag_on : Vec2 → Vec2 → Physical → Vec2
  drag_on pos velocity physical =
      scale (scale (scale (negated velocity) (sample noise sampler pos).kinetic) drag_coefficient)
        physical.mass

  unfoldable pub drag_node : Entity → List Force
  drag_node e = elim (body_at w e) [
    | none ↦ []
    | some b ↦
        let velocity = map_or (record { x = 0; y = 0 }) (λ v. v) (w.velocity e) in
        push has_body e (drag_on (b.0) velocity (b.1))
  ]

  unfoldable pub drag_nodes : List Entity → List Force
  drag_nodes [] = []
  drag_nodes (e ∷ nodes) = drag_node e ++ drag_nodes nodes

  -- The force that draws the first to the second, unless they are too far apart.
  unfoldable pub pair_force : Vec2 → Vec2 → Option Vec2
  pair_force pos other =
      let delta = difference other pos in
      let distance_sq = fmax (length_squared delta) 0x3e800000 in
      if lt (mul magnetic_range magnetic_range) distance_sq
      then none
      else let midpoint = plus pos (scale delta 0x3f000000) in
        let polarity = signum (sample noise sampler midpoint).em in
        some (
          scale (scale (normalize_or_zero delta) polarity)
            (div magnetic_strength (fmax distance_sq 0x3f800000)))

  unfoldable pub push_pair : Entity → Entity → Option Vec2 → List Force
  push_pair e other none = []
  push_pair e other (some f) = push has_body e f ++ push has_body other (negated f)

  -- One node that is near a magnetic one.
  unfoldable pub attract : Entity → Vec2 → Entity → List Force
  attract e pos other =
      if leb other e || not (is_magnetic w other)
      then []
      else push_pair e other (w.position other >>= pair_force pos)

  unfoldable pub attract_all : Entity → Vec2 → List Entity → List Force
  attract_all e pos [] = []
  attract_all e pos (other ∷ nearby) = attract e pos other ++ attract_all e pos nearby

  unfoldable pub magnetize : (Vec2 → F32 → List Entity) → List Entity → List Force
  magnetize query_radius [] = []
  magnetize query_radius (e ∷ nodes) =
      let rest = magnetize query_radius nodes in
      if is_magnetic w e
      then map_or [] (λ pos. attract_all e pos (query_radius pos magnetic_range)) (w.position e)
        ++ rest
      else rest

  -- All forces, in the order in which they are applied.
  unfoldable pub apply_field_forces : (Vec2 → F32 → List Entity) → List Entity → List Force
  apply_field_forces query_radius nodes = drag_nodes nodes ++ magnetize query_radius nodes
