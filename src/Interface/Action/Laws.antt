-- ===== src/Interface/Action/Laws.antt =====
-- What `sanitize` guarantees to the rest of the program, whatever an agent sent.
use mathlib.Core.Path.{subst}
use ertw.Common.Bytes.Laws.{IsWord}
use ertw.Float.Rem.{rem_euclid-IsWithin}
use ertw.Float.Arith.{rem_euclid, mul, div, float_runs}
use ertw.Float.Round.{round_runs}
use ertw.Common.{
  Bool-cases, inl, inr, ◌⊎◌, false, if◌then◌else◌, [], ◌∷◌, some, All, List, refl, true, ◌≡◌, arith,
  ◌^◌, ◌<◌,
}
use ertw.Interface.Action.{
  Vec2Lite, vec2_zero, vec2_length, vec2_is_finite, clamp_length_max, from_f32, sixteen,
  minus_sixteen, one, tau, minus_one, sanitize, ActionTensor, finite_or_zero,
}
use ertw.Float.Order.{clamp-IsWithin, le, lt, IsFinite, IsWithin, F32, clamp as bound}

finite_or_zero-IsFinite : (x : F32) → x < 2 ^ 32 → IsFinite (finite_or_zero x)
unfolding finite_or_zero
finite_or_zero-IsFinite x h = ground arith

-- A finite force that is not longer than 1.0, or a longer finite one divided by its length.
abbrev pub IsShort : Vec2Lite → Type 0
IsShort f =
    ((vec2_is_finite f ≡ true) × (lt one (vec2_length f) ≡ false))
    ⊎ ((v : Vec2Lite) × (vec2_is_finite v ≡ true)
        × (lt one (vec2_length v) ≡ true)
        × (f ≡ record {
          x = mul v.x (div one (vec2_length v));
          y = mul v.y (div one (vec2_length v));
        }))

-- The bands of the components, with the length of the force.
pub record IsBanded (a : ActionTensor) : Type 0 where
  pub force_band : IsShort a.force
  pub torque_band : IsWithin minus_one one a.torque
  pub clamp_band : IsWithin 0 one a.clamp
  pub fabricate_band : IsWithin 0 one a.fabricate
  pub freq_band : IsWithin minus_sixteen sixteen a.osc_freq
  pub phase_band : IsWithin 0 tau a.osc_phase

band :
    (x lo hi : F32)
    → x < 2 ^ 32
    → IsFinite lo
    → IsFinite hi
    → le lo hi ≡ true
    → IsWithin lo hi (bound (finite_or_zero x) lo hi)
band x lo hi h l u o = clamp-IsWithin (finite_or_zero x) lo hi (finite_or_zero-IsFinite x h) l u o

phase-IsWithin : (x : F32) → IsFinite x → IsWithin 0 tau (rem_euclid x tau)
phase-IsWithin x h = rem_euclid-IsWithin x tau h (omega arith) refl (omega arith)

positive : (x : F32) → lt one x ≡ true → lt 0 x ≡ true
unfolding lt
positive x h = ground (arith, h)

pub zero-IsShort : IsShort vec2_zero
unfolding vec2_is_finite vec2_length lt float_runs round_runs
zero-IsShort = inl (refl, refl)

force-IsShort :
    (f : Vec2Lite) → IsShort (if vec2_is_finite f then clamp_length_max f one else vec2_zero)
unfolding clamp_length_max
force-IsShort f = elim (Bool-cases (vec2_is_finite f)) [
  | inr n ↦ rw n zero-IsShort
  | inl y ↦ rw y (elim (Bool-cases (lt one (vec2_length f))) [
    | inr short ↦ rw short (inl (y, short))
    | inl long ↦ rw (long, positive (vec2_length f) long) (inr (f, y, long, refl))
  ])
]

-- Whatever 32-bit patterns an action holds, NaN and infinities too, the force, the torque, the
-- clamp, the fabricator and the oscillator drive of the sanitized one are within their bands.
pub sanitize-IsBanded :
    (a : ActionTensor)
    → a.torque < 2 ^ 32
    → a.clamp < 2 ^ 32
    → a.fabricate < 2 ^ 32
    → a.osc_freq < 2 ^ 32
    → a.osc_phase < 2 ^ 32
    → IsBanded (sanitize a)
unfolding sanitize le
sanitize-IsBanded a t c f q p = record {
  force_band = force-IsShort a.force;
  torque_band = band a.torque minus_one one t (omega arith) (omega arith) refl;
  clamp_band = band a.clamp 0 one c (omega arith) (omega arith) refl;
  fabricate_band = band a.fabricate 0 one f (omega arith) (omega arith) refl;
  freq_band = band a.osc_freq minus_sixteen sixteen q (omega arith) (omega arith) refl;
  phase_band = phase-IsWithin (finite_or_zero a.osc_phase) (finite_or_zero-IsFinite a.osc_phase p);
}

-- So is every action that was parsed from words of 32 bits.
pub from_f32-IsBanded :
    (words : List F32) (a : ActionTensor) → All IsWord words → from_f32 words ≡ some a → IsBanded a
unfolding from_f32
from_f32-IsBanded (x ∷ y ∷ t ∷ c ∷ f ∷ q ∷ p ∷ []) a h e =
    let raw : ActionTensor = record {
      force = record { x = x; y = y };
      torque = t;
      clamp = c;
      fabricate = f;
      osc_freq = q;
      osc_phase = p;
    } in
    let same : sanitize raw ≡ a = cc in
    subst IsBanded same
      (sanitize-IsBanded raw h.1.1.0 h.1.1.1.0 h.1.1.1.1.0 h.1.1.1.1.1.0 h.1.1.1.1.1.1.0)
from_f32-IsBanded _ a h e = cc
