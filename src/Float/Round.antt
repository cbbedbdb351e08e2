-- ===== src/Float/Round.antt =====
-- Rounding of a fraction to the nearest f32, ties to even. Magnitudes stand for multiples of
-- 2 ^ -149, the smallest positive f32.
pub mod Laws
use ertw.Common.{ℕ, zero, suc, ◌+◌, ◌-◌, ◌*◌, ◌/◌, ◌%◌, ◌^◌, min, ◌≡◌, refl, ltb, if◌then◌else◌}
use ertw.Float.Order.{inf_mag}

-- The exponent of a finite magnitude, counted from that of the subnormal values.
abbrev pub exponent : ℕ → ℕ
exponent m = m / 2 ^ 23 - 1

-- The number of units that a finite magnitude stands for.
unfoldable pub value : ℕ → ℕ
value m = (m - exponent m * 2 ^ 23) * 2 ^ exponent m

-- How many binary digits of `n` must go until 24 are left. 1024 rounds are enough for every value
-- that the operations produce.
unfoldable pub shift_from : ℕ → ℕ → ℕ
shift_from zero n = 0
shift_from (suc fuel) n =
    let rest = suc (shift_from fuel (n / 2)) in if ltb n (2 ^ 24) then 0 else rest

unfoldable pub shift : ℕ → ℕ
shift n = shift_from 1024 n

-- p / d to the nearest integer, ties to even.
unfoldable pub nearest : ℕ → ℕ → ℕ
nearest p d =
    let q = p / d in
    let r = p % d in if ltb (2 * r) d then q else if ltb d (2 * r) then q + 1 else q + q % 2

-- The magnitude nearest to p / q units. A carry out of the significand raises the exponent, and
-- out of the largest exponent gives infinity.
unfoldable pub round : ℕ → ℕ → ℕ
round p q = let k = shift (p / q) in min inf_mag (k * 2 ^ 23 + nearest p (q * 2 ^ k))

-- A declaration that unfolds this one computes with all of the above.
unfoldable pub round_runs : Unit {0}
unfolding value shift_from shift nearest round
round_runs = tt

one_tenth : round (2 ^ 149) 10 ≡ 0x3dcccccd
unfolding round_runs
one_tenth = refl
