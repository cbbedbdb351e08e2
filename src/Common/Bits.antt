-- ===== src/Common/Bits.antt =====
-- The binary digits of `bit_and` and `bit_or`, and joining two fields by `|`.
use Prim.Native.Nat.{digits, bit_and, bit_or, bit_and-bitwise, bit_or-bitwise}
use native.Mathlib.Nat.{pow-suc, one-le-pow}
use ertw.Common.{
  ap₂, sym, ◌∙◌, ◌≢◌, ℕ, zero, suc, ◌+◌, ◌-◌, ◌*◌, ◌/◌, ◌%◌, ◌^◌, ◌≤◌, ◌<◌, min, max, ◌≡◌, refl, ap,
  arith,
}

-- More fuel than the left operand changes nothing.
module _ (edge : ℕ → ℕ) (digit : ℕ → ℕ → ℕ) where
  abbrev with_fuel : ℕ → ℕ → ℕ → ℕ
  with_fuel n a b = digits edge digit n a b

  at_zero : (n b : ℕ) → with_fuel n 0 b ≡ with_fuel 0 0 b
  at_zero zero b = refl
  at_zero (suc n) b = refl

  agree : (n m a b : ℕ) → a ≤ n → a ≤ m → with_fuel n a b ≡ with_fuel m a b
  agree n m zero b h k = at_zero n b ∙ sym (at_zero m b)
  agree zero m (suc a) b h k = absurd (omega arith)
  agree (suc n) zero (suc a) b h k = absurd (omega arith)
  agree (suc n) (suc m) (suc a) b h k =
      rw (agree n m (suc a / 2) (b / 2) (omega arith) (omega arith))

pub bit_and_step : (a b : ℕ) → bit_and a b ≡ 2 * bit_and (a / 2) (b / 2) + min (a % 2) (b % 2)
bit_and_step zero b = simp bit_and-bitwise (omega arith)
bit_and_step (suc a) b = simp bit_and-bitwise (
    omega (arith, agree (λ _. 0) min a (suc a / 2) (suc a / 2) (b / 2) (omega arith) (omega arith)))

pub bit_or_step : (a b : ℕ) → bit_or a b ≡ 2 * bit_or (a / 2) (b / 2) + max (a % 2) (b % 2)
bit_or_step zero b = simp bit_or-bitwise (omega arith)
bit_or_step (suc a) b = simp bit_or-bitwise (
    omega (arith, agree (λ y. y) max a (suc a / 2) (suc a / 2) (b / 2) (omega arith) (omega arith)))

-- The binary digit of `n` at place `k`.
unfoldable pub bit : ℕ → ℕ → ℕ
bit zero n = n % 2
bit (suc k) n = bit k (n / 2)

pub bit-le-one : (k n : ℕ) → bit k n ≤ 1
unfolding bit
bit-le-one zero n = omega arith
bit-le-one (suc k) n = bit-le-one k (n / 2)

pub bit-bit_and : (k a b : ℕ) → bit k (bit_and a b) ≡ min (bit k a) (bit k b)
unfolding bit
bit-bit_and zero a b = omega (arith, bit_and_step a b)
bit-bit_and (suc k) a b =
    let half : bit_and a b / 2 ≡ bit_and (a / 2) (b / 2) = omega (arith, bit_and_step a b) in
    rw half (bit-bit_and k (a / 2) (b / 2))

pub bit-bit_or : (k a b : ℕ) → bit k (bit_or a b) ≡ max (bit k a) (bit k b)
unfolding bit
bit-bit_or zero a b = omega (arith, bit_or_step a b)
bit-bit_or (suc k) a b =
    let half : bit_or a b / 2 ≡ bit_or (a / 2) (b / 2) = omega (arith, bit_or_step a b) in
    rw half (bit-bit_or k (a / 2) (b / 2))

-- The complement in `w` digits turns every digit over.
pub bit-complement : (k w f : ℕ) → k < w → f < 2 ^ w → bit k (2 ^ w - 1 - f) ≡ 1 - bit k f
unfolding bit
bit-complement zero zero f h lt = absurd (omega arith)
bit-complement zero (suc w) f h lt = omega (arith, pow-suc 2 w, one-le-pow w 2 (omega arith))
bit-complement (suc k) zero f h lt = absurd (omega arith)
bit-complement (suc k) (suc w) f h lt =
    let half : (2 ^ suc w - 1 - f) / 2 ≡ 2 ^ w - 1 - f / 2 = omega (arith, pow-suc 2 w) in
    rw half (bit-complement k w (f / 2) (omega arith) (omega (arith, pow-suc 2 w)))

halve_pow : (j : ℕ) → 2 ^ suc j / 2 ≡ 2 ^ j
halve_pow j = omega (arith, pow-suc 2 j)

-- A power of two has one digit.
pub bit-pow_self : (k : ℕ) → bit k (2 ^ k) ≡ 1
unfolding bit
bit-pow_self zero = refl
bit-pow_self (suc k) = rw halve_pow (bit-pow_self k)

zero_bit : (k : ℕ) → bit k 0 ≡ 0
unfolding bit
zero_bit zero = refl
zero_bit (suc k) = zero_bit k

pub bit-pow_ne : (k j : ℕ) → k ≢ j → bit k (2 ^ j) ≡ 0
unfolding bit
bit-pow_ne zero zero h = absurd (h refl)
bit-pow_ne zero (suc j) h = omega (arith, pow-suc 2 j)
bit-pow_ne (suc k) zero h = zero_bit k
bit-pow_ne (suc k) (suc j) h = rw halve_pow (bit-pow_ne k j (λ e. h (ap suc e)))

bit_and-zero : (k a : ℕ) → a < 2 ^ k → bit_and a 0 ≡ 0
bit_and-zero zero zero h = refl
bit_and-zero zero (suc a) h = absurd (omega arith)
bit_and-zero (suc k) a h =
    omega (arith, bit_and_step a 0, bit_and-zero k (a / 2) (omega (arith, pow-suc 2 k)))

lt-pow : (a : ℕ) → a < 2 ^ a
lt-pow zero = omega arith
lt-pow (suc a) = omega (arith, lt-pow a, pow-suc 2 a)

-- Masking by a power of two leaves that digit at its place.
pub bit_and-pow : (k a : ℕ) → bit_and a (2 ^ k) ≡ bit k a * 2 ^ k
unfolding bit
bit_and-pow zero a = omega (arith, bit_and_step a 1, bit_and-zero (a / 2) (a / 2) (lt-pow (a / 2)))
bit_and-pow (suc k) a = omega (
  arith,
  bit_and_step a (2 ^ suc k),
  pow-suc 2 k,
  ap (λ (t : ℕ). bit_and (a / 2) t) (halve_pow k),
  bit_and-pow k (a / 2),
  ap (λ (t : ℕ). bit k (a / 2) * t) (pow-suc 2 k),
)

bit_or-zero : (k a : ℕ) → a < 2 ^ k → bit_or a 0 ≡ a
bit_or-zero zero zero h = refl
bit_or-zero zero (suc a) h = absurd (omega arith)
bit_or-zero (suc k) a h =
    omega (arith, bit_or_step a 0, bit_or-zero k (a / 2) (omega (arith, pow-suc 2 k)))

zero-bit_or : (b : ℕ) → bit_or 0 b ≡ b
zero-bit_or b = simp bit_or-bitwise (omega arith)

-- `lo | (hi << k)` is a sum where `lo` fits in `k` digits.
pub bit_or_join : (k lo hi : ℕ) → lo < 2 ^ k → bit_or lo (hi * 2 ^ k) ≡ lo + hi * 2 ^ k
bit_or_join zero zero hi h = zero-bit_or (hi * 1) ∙ omega arith
bit_or_join zero (suc lo) hi h = absurd (omega arith)
bit_or_join (suc k) lo hi h =
    let twice : hi * 2 ^ suc k ≡ 2 * (hi * 2 ^ k) =
      omega (arith, ap (λ (t : ℕ). hi * t) (pow-suc 2 k)) in
    let half : hi * 2 ^ suc k / 2 ≡ hi * 2 ^ k = omega arith in
    omega (
      arith,
      bit_or_step lo (hi * 2 ^ suc k),
      ap (λ (t : ℕ). bit_or (lo / 2) t) half,
      bit_or_join k (lo / 2) hi (omega (arith, pow-suc 2 k)),
    )

zero-bit_and : (b : ℕ) → bit_and 0 b ≡ 0
zero-bit_and b = simp bit_and-bitwise (omega arith)

mask_join : (k q r : ℕ) → r < 2 ^ k → bit_and (r + q * 2 ^ k) (2 ^ k - 1) ≡ r
mask_join zero q zero h = bit_and-zero (0 + q * 1) (0 + q * 1) (lt-pow (0 + q * 1))
mask_join zero q (suc r) h = absurd (omega arith)
mask_join (suc k) q r h =
    let twice : q * 2 ^ suc k ≡ 2 * (q * 2 ^ k) =
      omega (arith, ap (λ (t : ℕ). q * t) (pow-suc 2 k)) in
    let half : (r + q * 2 ^ suc k) / 2 ≡ r / 2 + q * 2 ^ k = omega arith in
    let mask : (2 ^ suc k - 1) / 2 ≡ 2 ^ k - 1 = omega (arith, pow-suc 2 k) in
    omega (
      arith,
      bit_and_step (r + q * 2 ^ suc k) (2 ^ suc k - 1),
      ap₂ bit_and half mask,
      mask_join k q (r / 2) (omega (arith, pow-suc 2 k)),
      pow-suc 2 k,
      one-le-pow k 2 (omega arith),
    )

-- `a & 0xffff` is the remainder.
pub bit_and_low16 : (a : ℕ) → bit_and a 0xffff ≡ a % 65536
bit_and_low16 a =
    let e : a ≡ a % 65536 + a / 65536 * 65536 = omega arith in
    ap (λ (t : ℕ). bit_and t 0xffff) e ∙ mask_join 16 (a / 65536) (a % 65536) (omega arith)
