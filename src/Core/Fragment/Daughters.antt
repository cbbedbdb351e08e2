-- ===== src/Core/Fragment/Daughters.antt =====
-- The daughters of a fragmented node: how many they are, and that none is an agent.
use mathlib.Core.Path.{subst}
use Prim.Native.Nat.{bit_xor}
use ertw.Core.Fragment.{most_daughters}
use ertw.Core.Tags.Laws.{has-without}
use ertw.Float.Arith.{of_ℕ, div}
use ertw.Core.Fragment.Divide.{portions, divide, daughter, daughter_count, daughters_from}
use ertw.Common.{
  some-map, List, ◌+◌, refl, zero, ap, ◌∙◌, suc, arith, ◌≤◌, All, length, some, false, ◌≡◌, ℕ,
}
use ertw.Core.Rng.{Rng}
use ertw.Float.Order.{fmax, F32}
use ertw.Core.World.{Vec2, Daughter, Geometry}
use ertw.Core.Tags.{mutate, clamp_capable, agent, without, has, CustomTags}
use ertw.Core.Components.{Physical}

-- Without an agent's flags, and with an equal part of the parent's mass, yield and energy.
abbrev pub IsRubble : Physical → F32 → ℕ → Daughter → Type 0
IsRubble physical threshold n d =
    (has d.tags agent ≡ false)
    × (has d.tags clamp_capable ≡ false)
    × (d.physical ≡ record {
      mass = div physical.mass (of_ℕ n);
      structure = div threshold (of_ℕ n);
      energy = fmax (div (fmax physical.energy 0) (of_ℕ n)) 0;
    })

stripped :
    (tags : CustomTags)
    → (has (without (without tags agent) clamp_capable) agent ≡ false)
      × (has (without (without tags agent) clamp_capable) clamp_capable ≡ false)
stripped tags = (
  has-without (without tags agent) 1 6 (omega arith) (omega arith)
      ∙ has-without tags 6 6 (omega arith) (omega arith),
  has-without (without tags agent) 1 1 (omega arith) (omega arith),
)

module _ (geo : Geometry) (rng : Rng) where
  length-daughters_from :
      (parent : Daughter) (pos : Vec2) (n i left : ℕ) (s : rng.State)
      → length (daughters_from geo rng parent pos n i left s) ≡ left
  unfolding daughters_from
  length-daughters_from parent pos n i zero s = refl
  length-daughters_from parent pos n i (suc left) s =
      ap suc (length-daughters_from parent pos n (suc i) left (daughter geo rng parent pos n i s).1)

  stripped_from :
      (parent : Daughter) (pos : Vec2) (n i left : ℕ) (s : rng.State)
      → All
          (λ d.
            (has d.tags agent ≡ false)
            × (has d.tags clamp_capable ≡ false)
            × (d.physical ≡ parent.physical))
          (daughters_from geo rng parent pos n i left s)
  unfolding daughters_from daughter
  stripped_from parent pos n i zero s = tt
  stripped_from parent pos n i (suc left) s =
      let draw = rng.gen_float 0 0x3f800000 s in
      let t = stripped (mutate rng parent.tags draw.1).0 in
      (
        (t.0, t.1, refl),
        stripped_from parent pos n (suc i) left (daughter geo rng parent pos n i s).1,
      )

  count-range :
      (physical : Physical) (threshold : F32) (s : rng.State) (n : ℕ)
      → (daughter_count geo rng physical threshold s).0 ≡ some n
      → (2 ≤ n) × (n ≤ most_daughters physical threshold)
  unfolding daughter_count
  count-range physical threshold s n h =
      ground (arith, rng.gen_int_range 2 (most_daughters physical threshold + 1) s)

  -- What is asked of the daughters.
  abbrev pub IsLitter : Physical → F32 → List Daughter → Type 0
  IsLitter physical threshold daughters =
      (2 ≤ length daughters)
      × (length daughters ≤ most_daughters physical threshold)
      × (length daughters ≤ 3)
      × All (IsRubble physical threshold (length daughters)) daughters

  litter :
      (pos : Vec2) (physical : Physical) (tags : CustomTags) (threshold : F32) (seed born_step : ℕ)
      (s : rng.State) (n : ℕ)
      → (2 ≤ n) × (n ≤ most_daughters physical threshold)
      → IsLitter physical threshold
          (portions geo rng pos physical tags threshold seed born_step s n)
  unfolding most_daughters portions
  litter pos physical tags threshold seed born_step s n h =
      rw (length-daughters_from _ pos n 0 n s)
        (h.0, h.1, omega (arith, h.1), stripped_from _ pos n 0 n s)

  -- A node that falls apart leaves two or three daughters, as many as its mass and its yield can
  -- fund at the least, each with an equal part of its mass, yield and reserve, and none an agent
  -- or able to clamp.
  pub divide-IsRubble :
      (pos : Vec2) (physical : Physical) (tags : CustomTags) (threshold : F32) (seed born_step : ℕ)
      (daughters : List Daughter)
      → divide geo rng pos physical tags threshold seed born_step ≡ some daughters
      → (2 ≤ length daughters)
        × (length daughters ≤ most_daughters physical threshold)
        × (length daughters ≤ 3)
        × All (IsRubble physical threshold (length daughters)) daughters
  unfolding divide
  divide-IsRubble pos physical tags threshold seed born_step daughters h =
      let count =
        daughter_count geo rng physical threshold (rng.seed_from (bit_xor seed 0x9e3779b9)) in
      let made =
        some-map (portions geo rng pos physical tags threshold seed born_step count.1) count.0
          daughters h in
      subst (IsLitter physical threshold) made.2 (
        litter pos physical tags threshold seed born_step count.1 made.0
          (count-range physical threshold _ made.0 made.1))
