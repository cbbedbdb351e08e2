-- ===== src/Float/Arith.antt =====
-- The operations on f32 that the source uses: + - * /, `sqrt`, `%`, `rem_euclid`, and the casts.
use ertw.Common.{
  ℕ, zero, suc, ◌+◌, ◌-◌, ◌*◌, ◌/◌, ◌%◌, ◌^◌, ◌≡◌, refl, Bool, true, not, ◌&&◌, ◌||◌, ltb, leb,
  ◌==◌, if◌then◌else◌, min,
}
use ertw.Float.Order.{
  F32, inf_mag, quiet_nan, magnitude, is_neg, with_sign, is_nan, is_finite, negate, lt, abs,
}
use ertw.Float.Round.{value, round, round_runs}

abbrev is_inf : F32 → Bool
is_inf x = magnitude x == inf_mag

abbrev is_zero : F32 → Bool
is_zero x = magnitude x == 0

abbrev pub pos_value : F32 → ℕ
pos_value x = if is_neg x then 0 else value (magnitude x)

abbrev pub neg_value : F32 → ℕ
neg_value x = if is_neg x then value (magnitude x) else 0

-- p - n units; an exact zero is negative only where both operands were.
unfoldable pub round_diff : Bool → ℕ → ℕ → F32
round_diff both_neg p n =
    if ltb n p
    then round (p - n) 1
    else (if ltb p n then with_sign true (round (n - p) 1) else with_sign both_neg 0)

unfoldable pub add : F32 → F32 → F32
add x y =
    if is_finite x && is_finite y
    then round_diff (is_neg x && is_neg y) (pos_value x + pos_value y) (neg_value x + neg_value y)
    else (if is_nan x || is_nan y
        then quiet_nan
        else (if is_finite x
            then y
            else (if is_finite y then x else if x == y then x else quiet_nan)))

unfoldable pub sub : F32 → F32 → F32
sub x y = add x (negate y)

abbrev xor_sign : F32 → F32 → Bool
xor_sign x y = if is_neg x then not (is_neg y) else is_neg y

unfoldable pub mul : F32 → F32 → F32
mul x y =
    if is_nan x || is_nan y
    then quiet_nan
    else (if is_finite x && is_finite y
        then with_sign (xor_sign x y) (round (value (magnitude x) * value (magnitude y)) (2 ^ 149))
        else (if is_zero x || is_zero y then quiet_nan else with_sign (xor_sign x y) inf_mag))

unfoldable pub div : F32 → F32 → F32
div x y =
    if is_nan x || is_nan y
    then quiet_nan
    else (if is_finite x && is_finite y
        then (if is_zero y
            then (if is_zero x then quiet_nan else with_sign (xor_sign x y) inf_mag)
            else with_sign (xor_sign x y)
                (round (value (magnitude x) * 2 ^ 149) (value (magnitude y))))
        else (if is_finite x
            then with_sign (xor_sign x y) 0
            else (if is_finite y then with_sign (xor_sign x y) inf_mag else quiet_nan)))

-- The integer square root, two binary digits at a time; 256 rounds cover every f32.
unfoldable pub sqrt_from : ℕ → ℕ → ℕ
sqrt_from zero n = 0
sqrt_from (suc fuel) n =
    let r = 2 * sqrt_from fuel (n / 4) in
    let next = if leb ((r + 1) * (r + 1)) n then r + 1 else r in if n == 0 then 0 else next

-- The root in units, with one more digit that tells whether it is exact, rounded once.
unfoldable pub sqrt : F32 → F32
sqrt x =
    if is_nan x
    then quiet_nan
    else (if is_zero x
        then x
        else (if is_neg x
            then quiet_nan
            else (if is_inf x
                then x
                else let n = value (magnitude x) * 2 ^ 149 in
                  let r = sqrt_from 256 n in round (2 * r + (if r * r == n then 0 else 1)) 2)))

-- `%` is exact and has the sign of the left operand.
unfoldable pub rem : F32 → F32 → F32
rem x y =
    if is_nan x || is_nan y || is_inf x || is_zero y
    then quiet_nan
    else (if is_inf y
        then x
        else with_sign (is_neg x) (round (value (magnitude x) % value (magnitude y)) 1))

unfoldable pub rem_euclid : F32 → F32 → F32
rem_euclid x y = let r = rem x y in if lt r 0 then add r (abs y) else r

-- `n as f32`.
unfoldable pub of_ℕ : ℕ → F32
of_ℕ n = round (n * 2 ^ 149) 1

-- `x as u16` and the like: truncated towards zero, saturating at 2 ^ w - 1; a NaN gives 0.
unfoldable pub to_unsigned : ℕ → F32 → ℕ
to_unsigned w x =
    if is_nan x || is_neg x
    then 0
    else (if is_finite x then min (2 ^ w - 1) (value (magnitude x) / 2 ^ 149) else 2 ^ w - 1)

-- A declaration that unfolds this one computes with all of the operations.
unfoldable pub float_runs : Unit {0}
unfolding round_runs lt round_diff add sub mul div sqrt_from sqrt rem rem_euclid of_ℕ to_unsigned
float_runs = tt

sums :
    (add 0x3dcccccd 0x3e4ccccd ≡ 0x3e99999a)
    × (sub 0x3f800000 0x3f7fffff ≡ 0x33800000)
    × (mul 0x3dcccccd 0x3e4ccccd ≡ 0x3ca3d70b)
    × (div 0x3f800000 0x42700000 ≡ 0x3c888889)
    × (sqrt 0x40000000 ≡ 0x3fb504f3)
    × (rem_euclid 0xbf800000 0x40c90fdb ≡ 0x40a90fdb)
    × (of_ℕ 65535 ≡ 0x477fff00)
    × (to_unsigned 16 0x477fff00 ≡ 65535)
unfolding float_runs
sums = (refl, refl, refl, refl, refl, refl, refl, refl)
