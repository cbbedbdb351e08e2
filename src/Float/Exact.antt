-- ===== src/Float/Exact.antt =====
-- A whole number of at most 24 binary digits is a f32, so a cast there and back loses nothing.
use ertw.Float.Order.{lt, clamp as bound}
use ertw.Float.Round.Laws.{round_mono, shift_exact, round_at}
use mathlib.Core.Path.{subst}
use ertw.Float.Order.{inf_mag}
use native.Mathlib.Nat.{pow-suc, add-suc, add-zero}
use ertw.Float.Arith.{to_unsigned, of_ℕ}
use ertw.Float.Round.{round_runs, round, exponent, value}
use ertw.Common.{
  refl, sym, inr, ◌∙◌, inl, le-or-lt, zero, ap, suc, ◌-◌, arith, ◌*◌, ◌≡◌, ◌≤◌, ◌+◌, ◌<◌, ◌^◌, ℕ,
}

pow_add : (a b : ℕ) → 2 ^ (a + b) ≡ 2 ^ a * 2 ^ b
pow_add a zero = rw add-zero (omega arith)
pow_add a (suc b) = rw (add-suc a b) (
    omega
      (arith, pow-suc 2 (a + b), pow-suc 2 b, pow_add a b, ap (λ (t : ℕ). 2 ^ a * t) (pow-suc 2 b)))

value_at : (k s : ℕ) → 2 ^ 23 ≤ s → s < 2 ^ 24 → value (k * 2 ^ 23 + s) ≡ s * 2 ^ k
unfolding value
value_at k s lo hi =
    let e : exponent (k * 2 ^ 23 + s) ≡ k = omega arith in
    let d : k * 2 ^ 23 + s - k * 2 ^ 23 ≡ s = omega arith in rw (e, d)

-- A positive number of at most 24 digits, doubled until it has 24.
normalize :
    (f n : ℕ)
    → 0 < n
    → n < 2 ^ 24
    → 2 ^ 23 ≤ n * 2 ^ f
    → (d : ℕ) × (d ≤ f) × (2 ^ 23 ≤ n * 2 ^ d) × (n * 2 ^ d < 2 ^ 24)
normalize zero n p h enough = (0, omega arith, omega arith, omega arith)
normalize (suc f) n p h enough = elim (le-or-lt (2 ^ 23) n) [
  | inl big ↦ (0, omega arith, omega arith, omega arith)
  | inr small ↦
      let double : 2 * n * 2 ^ f ≡ n * 2 ^ suc f =
        omega (arith, ap (λ (t : ℕ). n * t) (pow-suc 2 f)) in
      let (d, le, lo, hi) = normalize f (2 * n) (omega arith) (omega arith) (omega arith) in
      let again : 2 * n * 2 ^ d ≡ n * 2 ^ suc d =
        omega (arith, ap (λ (t : ℕ). n * t) (pow-suc 2 d)) in
      (suc d, omega arith, omega arith, omega arith)
]

split_units : (n d : ℕ) → d ≤ 149 → n * 2 ^ 149 ≡ n * 2 ^ d * 2 ^ (149 - d)
split_units n d h =
    let e : d + (149 - d) ≡ 149 = omega arith in
    let p : 2 ^ 149 ≡ 2 ^ d * 2 ^ (149 - d) =
      subst (λ t. 2 ^ t ≡ 2 ^ d * 2 ^ (149 - d)) e (pow_add d (149 - d)) in
    omega (arith, ap (λ (t : ℕ). n * t) p)

round_whole : (s k : ℕ) → k ≤ 149 → 2 ^ 23 ≤ s → s < 2 ^ 24 → round (s * 2 ^ k) 1 ≡ k * 2 ^ 23 + s
round_whole s k h lo hi = round_at s k (shift_exact k s (omega arith) hi (inr lo)) ∙ omega arith

of_zero : (value (of_ℕ 0) ≡ 0) × (of_ℕ 0 ≡ 0)
unfolding of_ℕ round_runs
of_zero = (refl, refl)

-- The units of a whole number as a f32, which is finite and not below zero.
pub value-of_ℕ : (n : ℕ) → n < 2 ^ 24 → (value (of_ℕ n) ≡ n * 2 ^ 149) × (of_ℕ n < inf_mag)
unfolding of_ℕ
value-of_ℕ zero h = (of_zero.0, omega (arith, of_zero.1))
value-of_ℕ (suc m) h =
    let n = suc m in
    let (d, le, lo, hi) = normalize 23 n (omega arith) h (omega arith) in
    let s = n * 2 ^ d in
    let k = 149 - d in
    let r : round (n * 2 ^ 149) 1 ≡ k * 2 ^ 23 + s =
      ap (λ u. round u 1) (split_units n d (omega arith)) ∙ round_whole s k (omega arith) lo hi in
    (ap value r ∙ value_at k s lo hi ∙ sym (split_units n d (omega arith)), omega (arith, r))

of_ℕ_top : of_ℕ 65535 ≡ 0x477fff00
unfolding of_ℕ round_runs
of_ℕ_top = refl

of_ℕ_mono : (n m : ℕ) → n ≤ m → of_ℕ n ≤ of_ℕ m
unfolding of_ℕ
of_ℕ_mono n m h = round_mono (n * 2 ^ 149) (m * 2 ^ 149) 1 (omega arith) (omega arith)

-- A u16 comes back from its f32, through the bounds that guard the cast.
pub to_unsigned-of_ℕ : (n : ℕ) → n < 65536 → to_unsigned 16 (bound (of_ℕ n) 0 0x477fff00) ≡ n
unfolding to_unsigned bound lt
to_unsigned-of_ℕ n h = ground (arith, value-of_ℕ n, of_ℕ_mono n 65535 (omega arith), of_ℕ_top)
