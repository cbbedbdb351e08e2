-- ===== src/Core/Fields.antt =====
-- crates/ertw_core/src/fields.rs: the three fields. The gradient noise of the crate `noise` and the
-- sine are parameters.
pub mod Forces
pub mod Balance
mod Tests
use ertw.Core.Actuation.{fixed_dt}
use ertw.Core.World.{Vec2}
use ertw.Float.Arith.{add, sub, mul, div}
use ertw.Float.Order.{F32, lt, fmax, negate, clamp}
use ertw.Common.{Bool, ◌||◌}

-- `get([x as f64, y as f64]) as f32` of each generator, and `f32::sin`.
pub record Noise : Type 0 where
  pub kinetic : F32 → F32 → F32
  pub thermal : F32 → F32 → F32
  pub em : F32 → F32 → F32
  pub sin : F32 → F32

pub record FieldSample : Type 0 where
  pub kinetic : F32
  pub thermal : F32
  pub em : F32

pub record FieldSampler : Type 0 where
  pub time : F32
  pub thermal_drift_period : F32
  pub kinetic_drift_period : F32
  pub em_drift_period : F32
  pub volatility : F32
  pub kinetic_scale : F32
  pub thermal_offset : F32
  pub em_offset : F32

-- The gradients of the three fields.
pub record Gradients : Type 0 where
  pub kinetic : Vec2
  pub thermal : Vec2
  pub em : Vec2

-- 0.5, 1.0, 0.3, 0.4, 0.25, 1.5, 2.0 and TAU.
abbrev half : F32
half = 0x3f000000

abbrev one : F32
one = 0x3f800000

-- `from_world`, but for the generators: periods of 120, 200 and 90 seconds, and 0.6.
abbrev pub new_sampler : FieldSampler
new_sampler = record {
  time = 0;
  thermal_drift_period = 0x42f00000;
  kinetic_drift_period = 0x43480000;
  em_drift_period = 0x42b40000;
  volatility = 0x3f19999a;
  kinetic_scale = one;
  thermal_offset = 0;
  em_offset = 0;
}

-- The end of `sample`: each channel in its band.
unfoldable pub bounded_sample : F32 → F32 → F32 → FieldSample
bounded_sample kinetic thermal em = record {
  kinetic = clamp kinetic 0 0x40000000;
  thermal = fmax thermal 0xbf800000;
  em = clamp em 0xbfc00000 0x3fc00000;
}

-- The difference of two samples, times the inverse of the step.
unfoldable pub slope : F32 → F32 → F32 → F32 → Vec2
slope inverse center x y = record { x = mul (sub x center) inverse; y = mul (sub y center) inverse }

module _ (noise : Noise) where
  unfoldable pub sample : FieldSampler → Vec2 → FieldSample
  sample f pos =
      let px = add pos.x half in
      let py = add pos.y half in
      bounded_sample (mul (add (mul (noise.kinetic px py) half) half) f.kinetic_scale)
        (add (mul (noise.thermal px py) half) f.thermal_offset) (add (noise.em px py) f.em_offset)

  -- `pos + Vec2::X * epsilon` adds zero to the other coordinate.
  unfoldable pub sample_with_gradient : FieldSampler → Vec2 → F32 → FieldSample × Gradients
  sample_with_gradient f pos epsilon =
      let center = sample f pos in
      let x = sample f (record { x = add pos.x epsilon; y = add pos.y 0 }) in
      let y = sample f (record { x = add pos.x 0; y = add pos.y epsilon }) in
      let inverse = div one epsilon in
      (
        center,
        record {
          kinetic = slope inverse center.kinetic x.kinetic y.kinetic;
          thermal = slope inverse center.thermal x.thermal y.thermal;
          em = slope inverse center.em x.em y.em;
        },
      )

  unfoldable pub drift : F32 → F32 → F32
  drift time period = noise.sin (mul time (div 0x40c90fdb period))

  unfoldable pub refresh_drift : FieldSampler → FieldSampler
  refresh_drift f = record f {
    kinetic_scale = sub one (mul 0x3ecccccd (drift f.time f.kinetic_drift_period));
    thermal_offset = mul 0x3ecccccd (drift f.time f.thermal_drift_period);
    em_offset = mul 0x3e800000 (drift f.time f.em_drift_period);
  }

  unfoldable pub set_time : FieldSampler → F32 → FieldSampler
  set_time f time = refresh_drift (record f { time = time })

  unfoldable pub advance_fields : FieldSampler → FieldSampler
  advance_fields f = refresh_drift (record f { time = add f.time fixed_dt })

  unfoldable pub is_em_spike : FieldSampler → Vec2 → Bool
  is_em_spike f pos =
      let em = (sample f pos).em in
      let limit = add one (mul 0x3e99999a f.volatility) in lt limit em || lt em (negate limit)
