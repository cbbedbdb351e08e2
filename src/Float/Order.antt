-- ===== src/Float/Order.antt =====
-- Fields and comparisons of f32 bit patterns: `is_finite`, `is_nan`, `<`, `<=`, `==`, `max`, `min`,
-- `clamp`, `abs`, unary minus and `total_cmp`, as the Rust standard library has them.
use ertw.Common.{
  ℕ, ◌+◌, ◌-◌, ◌%◌, ◌^◌, ◌≤◌, ◌<◌, ◌≡◌, Bool, true, false, not, ◌&&◌, arith, ltb, leb,
  if◌then◌else◌,
}

abbrev pub F32 : Type 0
F32 = ℕ

-- The bits of positive infinity; a larger magnitude is a NaN.
abbrev pub inf_mag : ℕ
inf_mag = 0x7f800000

abbrev pub quiet_nan : F32
quiet_nan = 0x7fc00000

abbrev pub magnitude : F32 → ℕ
magnitude x = x % 2 ^ 31

abbrev pub is_neg : F32 → Bool
is_neg x = leb (2 ^ 31) x

abbrev pub with_sign : Bool → ℕ → F32
with_sign true m = 2 ^ 31 + m
with_sign false m = m

abbrev pub is_nan : F32 → Bool
is_nan x = ltb inf_mag (magnitude x)

abbrev pub is_finite : F32 → Bool
is_finite x = ltb (magnitude x) inf_mag

abbrev pub negate : F32 → F32
negate x = if is_neg x then x - 2 ^ 31 else x + 2 ^ 31

abbrev pub abs : F32 → F32
abs x = magnitude x

-- A pattern that is no NaN stands for `pos_key - neg_key` in the order of the values.
abbrev pub pos_key : F32 → ℕ
pos_key x = if is_neg x then 0 else magnitude x

abbrev pub neg_key : F32 → ℕ
neg_key x = if is_neg x then magnitude x else 0

abbrev pub key_lt : F32 → F32 → Bool
key_lt x y = ltb (pos_key x + neg_key y) (pos_key y + neg_key x)

-- Both comparisons are false where an operand is a NaN.
unfoldable pub lt : F32 → F32 → Bool
lt x y = not (is_nan x) && not (is_nan y) && key_lt x y

unfoldable pub le : F32 → F32 → Bool
le x y = not (is_nan x) && not (is_nan y) && not (key_lt y x)

-- `f32::max` and `f32::min` return the other operand for a NaN.
unfoldable pub fmax : F32 → F32 → F32
fmax x y = if is_nan x then y else if is_nan y then x else if key_lt x y then y else x

unfoldable pub fmin : F32 → F32 → F32
fmin x y = if is_nan x then y else if is_nan y then x else if key_lt y x then y else x

-- `f32::clamp`, which lets a NaN through.
unfoldable pub clamp : F32 → F32 → F32 → F32
unfolding lt
clamp x lo hi = let x' = if lt x lo then lo else x in if lt hi x' then hi else x'

-- `a.total_cmp(&b)` is less: negative patterns lie below the others, in reverse.
unfoldable pub total_lt : F32 → F32 → Bool
total_lt x y =
    if is_neg x
    then (if is_neg y then ltb (magnitude y) (magnitude x) else true)
    else (if is_neg y then false else ltb (magnitude x) (magnitude y))

-- A pattern of 32 bits that is no infinity and no NaN.
abbrev pub IsFinite : F32 → Type 0
IsFinite x = (x < 2 ^ 32) × (magnitude x < inf_mag)

-- Finite, and not below zero (the negative zero counts as zero).
abbrev pub IsReserve : F32 → Type 0
IsReserve x = (x < 2 ^ 32) × (magnitude x < inf_mag) × (neg_key x ≡ 0)

-- Finite, and between the two bounds.
abbrev pub IsWithin : F32 → F32 → F32 → Type 0
IsWithin lo hi x =
    (x < 2 ^ 32)
    × (magnitude x < inf_mag)
    × (pos_key lo + neg_key x ≤ pos_key x + neg_key lo)
    × (pos_key x + neg_key hi ≤ pos_key hi + neg_key x)

pub clamp-IsWithin :
    (x lo hi : F32)
    → IsFinite x
    → IsFinite lo
    → IsFinite hi
    → le lo hi ≡ true
    → IsWithin lo hi (clamp x lo hi)
unfolding le clamp
clamp-IsWithin x lo hi fx fl fh h = ground arith

-- Not below zero; it may be infinite.
abbrev pub IsNonneg : F32 → Type 0
IsNonneg x = (x < 2 ^ 32) × (magnitude x ≤ inf_mag) × (neg_key x ≡ 0)
