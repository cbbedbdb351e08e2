-- ===== src/Core/Tags.antt =====
-- crates/ertw_core/src/tags.rs: the relation mask `CustomTags`, a u64.
pub mod Laws
use ertw.Common.{if◌then◌else◌, ◌==◌, ◌-◌, not, Bool, ◌^◌, ℕ}
use Prim.Native.Nat.{bit_and, bit_or}
use ertw.Core.Rng.{Rng}

abbrev pub CustomTags : Type 0
CustomTags = ℕ

abbrev pub empty : CustomTags
empty = 0

abbrev pub energy_convertible : ℕ
energy_convertible = 2 ^ 0

abbrev pub clamp_capable : ℕ
clamp_capable = 2 ^ 1

abbrev pub shelter : ℕ
shelter = 2 ^ 2

abbrev pub thermal_vent : ℕ
thermal_vent = 2 ^ 3

abbrev pub volatile_trap : ℕ
volatile_trap = 2 ^ 4

abbrev pub magnetic : ℕ
magnetic = 2 ^ 5

abbrev pub agent : ℕ
agent = 2 ^ 6

abbrev pub oscillator : ℕ
oscillator = 2 ^ 7

unfoldable pub has : CustomTags → ℕ → Bool
has tags flag = not (bit_and tags flag == 0)

unfoldable pub with_flag : CustomTags → ℕ → CustomTags
with_flag tags flag = bit_or tags flag

-- `!flag` on a u64.
unfoldable pub without : CustomTags → ℕ → CustomTags
without tags flag = bit_and tags (2 ^ 64 - 1 - flag)

module _ (rng : Rng) where
  open rng use {State, gen_bool, gen_int}

  -- The probabilities are 0.05 and 0.5.
  unfoldable pub mutate : CustomTags → State → CustomTags × State
  mutate tags s =
      let (roll, s1) = gen_bool 0x3fa999999999999a s in
      let (place, s2) = gen_int 0 64 s1 in
      let (coin, s3) = gen_bool 0x3fe0000000000000 s2 in
      if roll
      then ((if coin then with_flag tags (2 ^ place) else without tags (2 ^ place)), s3)
      else (tags, s1)
