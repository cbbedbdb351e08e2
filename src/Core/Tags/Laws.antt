-- ===== src/Core/Tags/Laws.antt =====
-- The mask is a set of 64 flags: `with_flag` puts one in, `without` takes one out, `has` looks.
use native.Mathlib.Nat.{pow-suc, pow-le-pow_right, one-le-pow}
use Prim.Native.Nat.{bit_and, bit_or}
use native.Mathlib.Decide.{ℕ_discrete}
use ertw.Common.Bits.{
  bit-pow_ne, bit-complement, bit-le-one, bit-bit_and, bit-pow_self, bit-bit_or, bit_and-pow, bit,
}
use ertw.Common.{inr, ◌-◌, ◌≤◌, arith, suc, inl, ◌&&◌, ◌||◌, le-or-lt, not, ◌==◌, ◌≡◌, ◌<◌, ◌^◌, ℕ}
use ertw.Core.Tags.{without, with_flag, has}

has-bit : (tags k : ℕ) → has tags (2 ^ k) ≡ (bit k tags == 1)
unfolding has
has-bit tags k = elim (le-or-lt (bit k tags) 0) [
  | inl z ↦ let e : bit k tags ≡ 0 = omega arith in rw (bit_and-pow k tags, e) (ground arith)
  | inr p ↦
      let e : bit k tags ≡ 1 = omega (arith, bit-le-one k tags) in
      rw (bit_and-pow k tags, e) (ground (arith, one-le-pow k 2))
]

pow-lt-pow_right : (k w : ℕ) → k < w → 2 ^ k < 2 ^ w
pow-lt-pow_right k w h =
    let doubled : 2 ^ suc k ≤ 2 ^ w = pow-le-pow_right (omega arith) h in
    omega (arith, pow-suc 2 k, one-le-pow k 2 (omega arith))

-- A flag that was put in is there, and every other is as it was.
pub has-with_flag :
    (tags k j : ℕ) → has (with_flag tags (2 ^ k)) (2 ^ j) ≡ (j == k) || has tags (2 ^ j)
unfolding with_flag
has-with_flag tags k j = elim (ℕ_discrete j k) [
  | yes e ↦
      rw (e, has-bit (bit_or tags (2 ^ k)) k, bit-bit_or k tags (2 ^ k), bit-pow_self k)
        (ground (arith, bit-le-one k tags))
  | no n ↦
      rw
        (
          has-bit (bit_or tags (2 ^ k)) j,
          has-bit tags j,
          bit-bit_or j tags (2 ^ k),
          bit-pow_ne j k n,
        )
        (ground (arith, bit-le-one j tags))
]

-- A flag that was taken out is gone, and every other is as it was.
pub has-without :
    (tags k j : ℕ)
    → k < 64
    → j < 64
    → has (without tags (2 ^ k)) (2 ^ j) ≡ not (j == k) && has tags (2 ^ j)
unfolding without
has-without tags k j hk hj = elim (ℕ_discrete j k) [
  | yes e ↦
      rw
        (
          e,
          has-bit (bit_and tags (2 ^ 64 - 1 - 2 ^ k)) k,
          bit-bit_and k tags (2 ^ 64 - 1 - 2 ^ k),
          bit-complement k 64 (2 ^ k) hk (pow-lt-pow_right k 64 hk),
          bit-pow_self k,
        )
        (ground (arith, bit-le-one k tags))
  | no n ↦
      rw
        (
          has-bit (bit_and tags (2 ^ 64 - 1 - 2 ^ k)) j,
          has-bit tags j,
          bit-bit_and j tags (2 ^ 64 - 1 - 2 ^ k),
          bit-complement j 64 (2 ^ k) hj (pow-lt-pow_right k 64 hk),
          bit-pow_ne j k n,
        )
        (ground (arith, bit-le-one j tags))
]
