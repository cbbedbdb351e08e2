-- ===== src/Interface/Action.antt =====
-- crates/ertw_interface/src/lib.rs: `Vec2Lite`, and `ActionTensor` with its bounds.
pub mod Laws
use ertw.Common.{none, some, [], Option, ◌∷◌, ◌&&◌, List, ℕ, Bool, if◌then◌else◌}
use ertw.Float.Arith.{div, rem_euclid, mul, add, sqrt}
use ertw.Float.Order.{F32, lt, is_finite, clamp as bound}

pub record Vec2Lite : Type 0 where
  pub x : F32
  pub y : F32

abbrev pub vec2_zero : Vec2Lite
vec2_zero = record { x = 0; y = 0 }

unfoldable pub vec2_length : Vec2Lite → F32
vec2_length v = sqrt (add (mul v.x v.x) (mul v.y v.y))

unfoldable pub length_squared : Vec2Lite → F32
length_squared v = add (mul v.x v.x) (mul v.y v.y)

unfoldable pub clamp_length_max : Vec2Lite → F32 → Vec2Lite
unfolding lt
clamp_length_max v max =
    let l = vec2_length v in
    if lt max l && lt 0 l then (let s = div max l in record { x = mul v.x s; y = mul v.y s }) else v

unfoldable pub vec2_is_finite : Vec2Lite → Bool
vec2_is_finite v = is_finite v.x && is_finite v.y

pub record ActionTensor : Type 0 where
  pub force : Vec2Lite
  pub torque : F32
  pub clamp : F32
  pub fabricate : F32
  pub osc_freq : F32
  pub osc_phase : F32

abbrev pub default_action : ActionTensor
default_action = record {
  force = vec2_zero;
  torque = 0;
  clamp = 0;
  fabricate = 0;
  osc_freq = 0;
  osc_phase = 0;
}

-- 1.0, -1.0, 16.0, -16.0 and `std::f32::consts::TAU`.
abbrev pub one : F32
one = 0x3f800000

abbrev pub minus_one : F32
minus_one = 0xbf800000

abbrev pub sixteen : F32
sixteen = 0x41800000

abbrev pub minus_sixteen : F32
minus_sixteen = 0xc1800000

abbrev pub tau : F32
tau = 0x40c90fdb

-- `if x.is_finite() { x } else { 0.0 }`.
unfoldable pub finite_or_zero : F32 → F32
finite_or_zero x = if is_finite x then x else 0

unfoldable pub sanitize : ActionTensor → ActionTensor
unfolding finite_or_zero vec2_is_finite
sanitize a = record {
  force = if vec2_is_finite a.force then clamp_length_max a.force one else vec2_zero;
  torque = bound (finite_or_zero a.torque) minus_one one;
  clamp = bound (finite_or_zero a.clamp) 0 one;
  fabricate = bound (finite_or_zero a.fabricate) 0 one;
  osc_freq = bound (finite_or_zero a.osc_freq) minus_sixteen sixteen;
  osc_phase = rem_euclid (finite_or_zero a.osc_phase) tau;
}

abbrev pub action_stride : ℕ
action_stride = 7

unfoldable pub to_f32 : ActionTensor → List F32
to_f32 a = a.force.x ∷ a.force.y ∷ a.torque ∷ a.clamp ∷ a.fabricate ∷ a.osc_freq ∷ a.osc_phase ∷ []

-- `none` is the panic of the assertion on the length.
unfoldable pub from_f32 : List F32 → Option ActionTensor
from_f32 (x ∷ y ∷ t ∷ c ∷ f ∷ q ∷ p ∷ []) = some (
    sanitize (record {
      force = record { x = x; y = y };
      torque = t;
      clamp = c;
      fabricate = f;
      osc_freq = q;
      osc_phase = p;
    }))
from_f32 _ = none
