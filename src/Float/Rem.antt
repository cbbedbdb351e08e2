-- ===== src/Float/Rem.antt =====
-- The range of `rem_euclid`.
use native.Mathlib.Nat.{mod-lt}
use ertw.Float.Laws.{round_diff_nonneg}
use ertw.Float.Round.Laws.{round-value, value_mono, round_mono}
use ertw.Float.Round.{value}
use ertw.Common.{refl, ℕ, ◌-◌, ◌%◌, arith, false, true, ◌≡◌, ◌≤◌, ◌^◌, ◌<◌}
use ertw.Float.Order.{inf_mag, abs, IsWithin, neg_key, is_neg, magnitude, IsFinite, lt, F32}
use ertw.Float.Arith.{rem_euclid, add, rem}

value-one : value 1 ≡ 1
unfolding value
value-one = refl

value_pos : (m : ℕ) → 0 < m → m ≤ inf_mag → 0 < value m
value_pos m h le = omega (arith, value-one, value_mono 1 m h le)

rem_small :
    (x y : F32)
    → IsFinite x
    → IsFinite y
    → 0 < magnitude y
    → (rem x y < 2 ^ 32) × (magnitude (rem x y) ≤ magnitude y)
unfolding rem
rem_small x y hx hy p =
    let v = value (magnitude x) % value (magnitude y) in
    let small : v ≤ value (magnitude y) = omega (
      arith,
      value_pos (magnitude y) p (omega arith),
      mod-lt (value (magnitude x)) {m = value (magnitude y)},
    ) in
    ground (
      arith,
      round_mono v (value (magnitude y)) 1 (omega arith) small,
      round-value (magnitude y) (omega arith),
    )

add_back :
    (r y : F32)
    → r < 2 ^ 32
    → is_neg r ≡ true
    → magnitude r ≤ magnitude y
    → IsFinite y
    → is_neg y ≡ false
    → (add r y < 2 ^ 32) × (neg_key (add r y) ≡ 0) × (magnitude (add r y) ≤ magnitude y)
unfolding add
add_back r y hr n le hy p =
    let m = value (magnitude y) - value (magnitude r) in
    ground (
      arith,
      value_mono (magnitude r) (magnitude y) le (omega arith),
      round_diff_nonneg false (value (magnitude y)) (value (magnitude r)),
      round_mono m (value (magnitude y)) 1 (omega arith) (omega arith),
      round-value (magnitude y) (omega arith),
    )

-- The remainder lies between zero and the modulus, which rounding can reach.
pub rem_euclid-IsWithin :
    (x y : F32)
    → IsFinite x
    → IsFinite y
    → is_neg y ≡ false
    → 0 < magnitude y
    → IsWithin 0 y (rem_euclid x y)
unfolding rem_euclid lt
rem_euclid-IsWithin x y hx hy n p = ground (arith, rem_small x y, add_back (rem x y) (abs y))
