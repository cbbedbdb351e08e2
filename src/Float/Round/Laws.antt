-- ===== src/Float/Round/Laws.antt =====
-- Rounding is monotone, and gives back a magnitude that it can represent.
use native.Mathlib.Nat.{
  pow-suc, one-le-pow, mul-le-mul_left, mul-le-mul_right, pow-le-pow_right, le-div_iff_mul-le,
  div-one, one-mul, mul-div_left, mul-mod_left, div-add-mod, div-lt_iff_lt-mul, lt-mul-div-succ,
}
use ertw.Common.{
  ℕ, zero, suc, ◌+◌, ◌-◌, ◌*◌, ◌/◌, ◌^◌, ◌≤◌, ◌<◌, min, ◌≡◌, refl, ap, ◌∙◌, arith, false, ltb, ◌⊎◌,
  inl, inr, le-or-lt,
}
use ertw.Float.Order.{inf_mag}
use ertw.Float.Round.{exponent, value, shift_from, shift, nearest, round}

halved : (s k : ℕ) → (s * 2 ^ suc k / 2 ≡ s * 2 ^ k) × (s * 2 ^ suc k ≡ 2 * (s * 2 ^ k))
halved s k =
    let e : s * 2 ^ suc k ≡ 2 * (s * 2 ^ k) = omega (arith, ap (λ (t : ℕ). s * t) (pow-suc 2 k)) in
    (omega arith, e)

le→ltb : (a b : ℕ) → b ≤ a → ltb a b ≡ false
le→ltb a b h = ground arith

-- A shift drops no more digits than needed.
shift_step_lower :
    (n t : ℕ) → 2 ^ 24 ≤ n → (0 < t → 2 ^ 23 * 2 ^ t ≤ n / 2) → 2 ^ 23 * 2 ^ suc t ≤ n
shift_step_lower n zero h rest = omega arith
shift_step_lower n (suc t) h rest =
    let half : 2 ^ 23 * 2 ^ suc t ≤ n / 2 = rest (omega arith) in omega (arith, pow-suc 2 (suc t))

shift_from_lower : (f n : ℕ) → 0 < shift_from f n → 2 ^ 23 * 2 ^ shift_from f n ≤ n
unfolding shift_from
shift_from_lower zero n h = elim h [ ]
shift_from_lower (suc f) n h = elim (le-or-lt (2 ^ 24) n) [
  | inl big ↦
      rw (le→ltb n (2 ^ 24) big)
        (shift_step_lower n (shift_from f (n / 2)) big (shift_from_lower f (n / 2)))
  | inr small ↦ absurd (ground arith)
]

shift_from_upper : (f n : ℕ) → shift_from f n < f → n < 2 ^ 24 * 2 ^ shift_from f n
unfolding shift_from
shift_from_upper zero n h = elim h [ ]
shift_from_upper (suc f) n h =
    ground (arith, shift_from_upper f (n / 2), pow-suc 2 (shift_from f (n / 2)))

shift_from_mono : (f n m : ℕ) → n ≤ m → shift_from f n ≤ shift_from f m
unfolding shift_from
shift_from_mono zero n m h = omega arith
shift_from_mono (suc f) n m h = ground (arith, shift_from_mono f (n / 2) (m / 2))

shift_from-le : (f n : ℕ) → shift_from f n ≤ f
unfolding shift_from
shift_from-le zero n = omega arith
shift_from-le (suc f) n = ground (arith, shift_from-le f (n / 2))

shift_from_exact :
    (f k s : ℕ) → k ≤ f → s < 2 ^ 24 → (k ≡ 0) ⊎ (2 ^ 23 ≤ s) → shift_from f (s * 2 ^ k) ≡ k
unfolding shift_from
shift_from_exact zero zero s h lt c = refl
shift_from_exact zero (suc k) s h lt c = absurd (omega arith)
shift_from_exact (suc f) zero s h lt c = ground arith
shift_from_exact (suc f) (suc k) s h lt c = ground (
  arith,
  shift_from_exact f k s,
  halved s k,
  mul-le-mul_left {m = 1} {n = 2 ^ k} s (one-le-pow k 2 (omega arith)),
)

div_mono : (p r d : ℕ) → 0 < d → p ≤ r → p / d ≤ r / d
div_mono p r d h le =
    let above : p / d < suc (r / d) =
      (div-lt_iff_lt-mul h).1 (omega (arith, lt-mul-div-succ r h)) in
    omega arith

nearest_near : (p d : ℕ) → (p / d ≤ nearest p d) × (nearest p d ≤ p / d + 1)
unfolding nearest
nearest_near p d = ground arith

nearest_same : (p r d : ℕ) → 0 < d → p ≤ r → p / d ≡ r / d → nearest p d ≤ nearest r d
unfolding nearest
nearest_same p r d h le e = ground (arith, div-add-mod p d, div-add-mod r d)

nearest_mono : (p r d : ℕ) → 0 < d → p ≤ r → nearest p d ≤ nearest r d
nearest_mono p r d h le = elim (le-or-lt (r / d) (p / d)) [
  | inl same ↦ nearest_same p r d h le (omega (arith, div_mono p r d h le))
  | inr less ↦ omega (arith, nearest_near p d, nearest_near r d)
]

nearest_exact : (s d : ℕ) → 0 < d → nearest (s * d) d ≡ s
unfolding nearest
nearest_exact s d h = rw (mul-div_left s h, mul-mod_left s d) (ground arith)

-- A larger number of units has no smaller shift, and a larger shift is a binade higher.
shift_mono : (n m : ℕ) → n ≤ m → shift n ≤ shift m
unfolding shift
shift_mono n m h = shift_from_mono 1024 n m h

shift_le : (n : ℕ) → shift n ≤ 1024
unfolding shift
shift_le n = shift_from-le 1024 n

shift_gap : (n m : ℕ) → shift n < shift m → (n < 2 ^ 24 * 2 ^ shift n) × (2 ^ 23 * 2 ^ shift m ≤ m)
shift_gap n m h = (upper (omega (arith, shift_le m)), lower (omega arith))
  where
    upper : shift n < 1024 → n < 2 ^ 24 * 2 ^ shift n
    upper = unfold shift in shift_from_upper 1024 n

    lower : 0 < shift m → 2 ^ 23 * 2 ^ shift m ≤ m
    lower = unfold shift in shift_from_lower 1024 m

pub shift_exact : (k s : ℕ) → k ≤ 1024 → s < 2 ^ 24 → (k ≡ 0) ⊎ (2 ^ 23 ≤ s) → shift (s * 2 ^ k) ≡ k
unfolding shift
shift_exact k s h lt c = shift_from_exact 1024 k s h lt c

pow-pos : (k : ℕ) → 0 < 2 ^ k
pow-pos k = one-le-pow k 2 (omega arith)

mul-pos : (q k : ℕ) → 0 < q → 0 < q * 2 ^ k
mul-pos q k h = ground (arith, pow-pos k, mul-le-mul_left {m = 1} {n = 2 ^ k} q (pow-pos k))

-- The rounded significand of a fraction is at most 2 ^ 24 in its binade, and at least 2 ^ 23.
nearest_upper : (p q k : ℕ) → 0 < q → p / q < 2 ^ 24 * 2 ^ k → nearest p (q * 2 ^ k) ≤ 2 ^ 24
nearest_upper p q k h lt =
    let below : p < 2 ^ 24 * 2 ^ k * q = (div-lt_iff_lt-mul h).0 lt in
    let quotient : p / (q * 2 ^ k) < 2 ^ 24 = (div-lt_iff_lt-mul (mul-pos q k h)).1 (omega arith) in
    omega (arith, nearest_near p (q * 2 ^ k))

nearest_lower : (p q k : ℕ) → 0 < q → 2 ^ 23 * 2 ^ k ≤ p / q → 2 ^ 23 ≤ nearest p (q * 2 ^ k)
nearest_lower p q k h le =
    let above : 2 ^ 23 * 2 ^ k * q ≤ p = (le-div_iff_mul-le h).0 le in
    let quotient : 2 ^ 23 ≤ p / (q * 2 ^ k) = (le-div_iff_mul-le (mul-pos q k h)).1 (omega arith) in
    omega (arith, nearest_near p (q * 2 ^ k))

-- A larger fraction is not rounded to a smaller magnitude.
pub round_mono : (p r q : ℕ) → 0 < q → p ≤ r → round p q ≤ round r q
unfolding round
round_mono p r q h le = elim (le-or-lt (shift (r / q)) (shift (p / q))) [
  | inl same ↦
      let e : shift (p / q) ≡ shift (r / q) =
        omega (arith, shift_mono (p / q) (r / q) (div_mono p r q h le)) in
      rw e
        (omega (arith, nearest_mono p r (q * 2 ^ shift (r / q)) (mul-pos q (shift (r / q)) h) le))
  | inr less ↦
      let gap = shift_gap (p / q) (r / q) less in
      omega (
        arith,
        nearest_upper p q (shift (p / q)) h gap.0,
        nearest_lower r q (shift (r / q)) h gap.1,
      )
]

pub round-le-inf : (p q : ℕ) → round p q ≤ inf_mag
unfolding round
round-le-inf p q = omega arith

-- The units of a magnitude below infinity round to that magnitude.
value_parts :
    (m : ℕ)
    → m ≤ inf_mag
    → (m - exponent m * 2 ^ 23 < 2 ^ 24)
      × ((exponent m ≡ 0) ⊎ (2 ^ 23 ≤ m - exponent m * 2 ^ 23))
      × (exponent m ≤ 1024)
      × (exponent m * 2 ^ 23 ≤ m)
value_parts m h = (omega arith, ground arith, omega arith, omega arith)

pub round_at :
    (s k : ℕ) → shift (s * 2 ^ k) ≡ k → round (s * 2 ^ k) 1 ≡ min inf_mag (k * 2 ^ 23 + s)
unfolding round
round_at s k e =
    rw
      (div-one (s * 2 ^ k), one-mul (2 ^ shift (s * 2 ^ k)), e, nearest_exact s (2 ^ k) (pow-pos k))

pub round-value : (m : ℕ) → m ≤ inf_mag → round (value m) 1 ≡ m
unfolding value
round-value m h =
    let s = m - exponent m * 2 ^ 23 in
    let k = exponent m in
    let parts = value_parts m h in
    let e : shift (s * 2 ^ k) ≡ k = shift_exact k s parts.2 parts.0 parts.1 in
    round_at s k e ∙ omega (arith, parts)

value_gap : (m n : ℕ) → m ≤ n → n ≤ inf_mag → exponent m < exponent n → value m ≤ value n
unfolding value
value_gap m n h le less =
    let k = exponent m in
    let j = exponent n in
    let lower : (m - k * 2 ^ 23) * 2 ^ k ≤ 2 ^ 24 * 2 ^ k =
      mul-le-mul_right (2 ^ k) (omega arith) in
    let upper : 2 ^ 23 * 2 ^ j ≤ (n - j * 2 ^ 23) * 2 ^ j =
      mul-le-mul_right (2 ^ j) (omega arith) in
    let power : 2 ^ suc k ≤ 2 ^ j = pow-le-pow_right (omega arith) less in
    omega (arith, pow-suc 2 k)

-- A larger magnitude stands for more units.
pub value_mono : (m n : ℕ) → m ≤ n → n ≤ inf_mag → value m ≤ value n
unfolding value
value_mono m n h le = elim (le-or-lt (exponent n) (exponent m)) [
  | inl same ↦
      let e : exponent m ≡ exponent n = omega arith in
      rw e (mul-le-mul_right (2 ^ exponent n) (omega arith))
  | inr less ↦ value_gap m n h le less
]
