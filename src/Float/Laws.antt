-- ===== src/Float/Laws.antt =====
-- Sums and differences of values that are not below zero.
use ertw.Common.{
  ◌*◌, ℕ, ◌+◌, ◌-◌, ◌^◌, ◌≤◌, ◌<◌, ◌≡◌, refl, Bool, true, false, arith, ◌&&◌, ◌⊎◌, inl, inr,
  le-or-lt,
}
use ertw.Float.Order.{F32, inf_mag, magnitude, neg_key, is_neg, negate, IsNonneg, IsReserve}
use ertw.Float.Round.{value, round}
use ertw.Float.Round.Laws.{round_mono, round-le-inf, round-value, value_mono}
use ertw.Float.Arith.{div, mul, add, sub, round_diff, pos_value, neg_value}

value-zero : value 0 ≡ 0
unfolding value
value-zero = refl

value-inf : value inf_mag ≡ 2 ^ 277
unfolding value
value-inf = refl

round-zero : round 0 1 ≡ 0
unfolding value
round-zero = round-value 0 (omega arith)

nonneg_values : (x : F32) → IsNonneg x → (pos_value x ≡ value (magnitude x)) × (neg_value x ≡ 0)
nonneg_values x h = ground (arith, value-zero)

negated_values :
    (x : F32)
    → IsNonneg x
    → (pos_value (negate x) ≡ 0)
      × (neg_value (negate x) ≡ value (magnitude x))
      × (magnitude (negate x) ≡ magnitude x)
negated_values x h = ground (arith, value-zero)

pub round_diff_nonneg :
    (b : Bool) (p n : ℕ)
    → n ≤ p
    → (magnitude (round_diff b p n) ≡ round (p - n) 1)
      × (neg_key (round_diff b p n) ≡ 0)
      × (round_diff b p n < 2 ^ 32)
unfolding round_diff
round_diff_nonneg true p n h = ground (arith, round-zero, round-le-inf (p - n) 1)
round_diff_nonneg false p n h = ground (arith, round-zero, round-le-inf (p - n) 1)

-- The sum of two finite values that are not below zero is the rounded sum.
pub add_reserve :
    (x y : F32)
    → IsReserve x
    → IsReserve y
    → (magnitude (add x y) ≡ round (value (magnitude x) + value (magnitude y)) 1)
      × IsNonneg (add x y)
unfolding add
add_reserve x y hx hy = ground (
  arith,
  nonneg_values x,
  nonneg_values y,
  round_diff_nonneg (is_neg x && is_neg y) (pos_value x + pos_value y) (neg_value x + neg_value y),
  round-le-inf (value (magnitude x) + value (magnitude y)) 1,
)

-- So is the difference, where the second is not larger.
pub sub_reserve :
    (x y : F32)
    → IsReserve x
    → IsReserve y
    → magnitude y ≤ magnitude x
    → (magnitude (sub x y) ≡ round (value (magnitude x) - value (magnitude y)) 1)
      × IsNonneg (sub x y)
unfolding sub add
sub_reserve x y hx hy h = ground (
  arith,
  nonneg_values x,
  negated_values y,
  value_mono (magnitude y) (magnitude x),
  round_diff_nonneg (is_neg x && is_neg (negate y)) (pos_value x + pos_value (negate y))
      (neg_value x + neg_value (negate y)),
  round-le-inf (value (magnitude x) - value (magnitude y)) 1,
)

add_finite_ge :
    (x y : F32)
    → IsReserve x
    → IsReserve y
    → IsNonneg (add x y) × (magnitude x ≤ magnitude (add x y)) × (magnitude y ≤ magnitude (add x y))
add_finite_ge x y hx hy =
    let s = add_reserve x y hx hy in
    (
      s.1,
      omega (
        arith,
        s.0,
        round-value (magnitude x) (omega arith),
        round_mono (value (magnitude x)) (value (magnitude x) + value (magnitude y)) 1 (omega arith)
            (omega arith),
      ),
      omega (
        arith,
        s.0,
        round-value (magnitude y) (omega arith),
        round_mono (value (magnitude y)) (value (magnitude x) + value (magnitude y)) 1 (omega arith)
            (omega arith),
      ),
    )

add_inf :
    (x y : F32)
    → IsNonneg x
    → IsNonneg y
    → (magnitude x ≡ inf_mag) ⊎ (magnitude y ≡ inf_mag)
    → IsNonneg (add x y) × (magnitude (add x y) ≡ inf_mag)
unfolding add
add_inf x y hx hy h = ground arith

-- A sum of values that are not below zero is not below either.
pub add-IsNonneg :
    (x y : F32)
    → IsNonneg x
    → IsNonneg y
    → IsNonneg (add x y) × (magnitude x ≤ magnitude (add x y)) × (magnitude y ≤ magnitude (add x y))
add-IsNonneg x y hx hy = elim (le-or-lt inf_mag (magnitude x)) [
  | inl a ↦ omega (arith, add_inf x y hx hy (inl (omega arith)))
  | inr a ↦ elim (le-or-lt inf_mag (magnitude y)) [
    | inl b ↦ omega (arith, add_inf x y hx hy (inr (omega arith)))
    | inr b ↦ add_finite_ge x y (hx.0, a, hx.2) (hy.0, b, hy.2)
  ]
]

sub_inf :
    (x y : F32)
    → IsNonneg x
    → IsReserve y
    → magnitude x ≡ inf_mag
    → IsNonneg (sub x y) × (magnitude (sub x y) ≡ inf_mag)
unfolding sub add
sub_inf x y hx hy h = ground arith

-- What is left after taking no more than there is lies between zero and what there was.
pub sub-IsNonneg :
    (x y : F32)
    → IsNonneg x
    → IsReserve y
    → magnitude y ≤ magnitude x
    → IsNonneg (sub x y) × (magnitude (sub x y) ≤ magnitude x)
sub-IsNonneg x y hx hy h = elim (le-or-lt inf_mag (magnitude x)) [
  | inl a ↦ omega (arith, sub_inf x y hx hy (omega arith))
  | inr a ↦
      let s = sub_reserve x y (hx.0, a, hx.2) hy h in
      (
        s.1,
        omega (
          arith,
          s.0,
          round-value (magnitude x) (omega arith),
          round_mono (value (magnitude x) - value (magnitude y)) (value (magnitude x)) 1
              (omega arith) (omega arith),
        ),
      )
]

round_diff-lt : (b : Bool) (p n : ℕ) → round_diff b p n < 2 ^ 32
unfolding round_diff
round_diff-lt true p n = ground (arith, round-le-inf (p - n) 1, round-le-inf (n - p) 1)
round_diff-lt false p n = ground (arith, round-le-inf (p - n) 1, round-le-inf (n - p) 1)

-- Sums and differences are patterns of 32 bits.
pub add-lt : (x y : F32) → x < 2 ^ 32 → y < 2 ^ 32 → add x y < 2 ^ 32
unfolding add
add-lt x y hx hy = ground (
  arith,
  round_diff-lt (is_neg x && is_neg y) (pos_value x + pos_value y) (neg_value x + neg_value y),
)

pub sub-lt : (x y : F32) → x < 2 ^ 32 → y < 2 ^ 32 → sub x y < 2 ^ 32
unfolding sub
sub-lt x y hx hy = add-lt x (negate y) hx (ground arith)

pub mul-lt : (x y : F32) → mul x y < 2 ^ 32
unfolding mul
mul-lt x y = ground (arith, round-le-inf (value (magnitude x) * value (magnitude y)) (2 ^ 149))

pub div-lt : (x y : F32) → div x y < 2 ^ 32
unfolding div
div-lt x y = ground (arith, round-le-inf (value (magnitude x) * 2 ^ 149) (value (magnitude y)))
