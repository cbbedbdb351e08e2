-- ===== src/Core/Rng.antt =====
-- The generators of the `rand` crates, which the program calls: a parameter of what draws from them.
-- The laws are the documented ranges of `gen_range`.
use ertw.Common.{ℕ, ◌≤◌, ◌<◌, Bool, ◌≡◌, true}
use ertw.Float.Order.{F32, le, lt, IsFinite}

pub record Rng : Type 1 where
  pub State : Type 0
  -- `SeedableRng::seed_from_u64`.
  pub seed_from : ℕ → State
  -- `gen_bool(p)`; the probability is an f64 bit pattern.
  pub gen_bool : ℕ → State → Bool × State
  -- `gen_range(lo..hi)` on integers.
  pub gen_int : ℕ → ℕ → State → ℕ × State
  -- `gen_range(lo..hi)` on f32.
  pub gen_float : F32 → F32 → State → F32 × State
  pub gen_int_range :
      (lo hi : ℕ) (s : State) → lo < hi → (lo ≤ (gen_int lo hi s).0) × ((gen_int lo hi s).0 < hi)
  pub gen_float_range :
      (lo hi : F32) (s : State)
      → IsFinite lo
      → IsFinite hi
      → lt lo hi ≡ true
      → IsFinite (gen_float lo hi s).0
        × (le lo (gen_float lo hi s).0 ≡ true)
        × (lt (gen_float lo hi s).0 hi ≡ true)
