-- ===== src/Core/Fragment/Divide.antt =====
-- crates/ertw_core/src/fragmentation.rs: `daughter_count` and `run_fragmentation`.
use Prim.Native.Nat.{bit_xor}
use ertw.Float.Arith.{of_ℕ, div, mul, add}
use ertw.Core.Fragment.{most_daughters, Queued}
use ertw.Core.Tags.{clamp_capable, agent, without, mutate, CustomTags}
use ertw.Float.Order.{fmax, F32}
use ertw.Core.Components.{ClampJoint, Physical, Entity}
use ertw.Core.Rng.{Rng}
use ertw.Common.{
  ◌>>=◌, ◌^◌, ◌%◌, ◌*◌, none, some, ◌+◌, ◌||◌, zero, leb, map, ◌==◌, suc, if◌then◌else◌, ◌++◌, ◌∷◌,
  [], false, Option, ℕ, Bool, List,
}
use ertw.Core.World.{spawn_daughter, despawn, Command, World, Vec2, Daughter, Geometry}
use mathlib.Core.Option

module _ (geo : Geometry) (rng : Rng) where
  open rng use {State, gen_int, gen_float, seed_from}

  unfoldable pub daughter_count : Physical → F32 → State → Option ℕ × State
  daughter_count physical threshold s =
      let maximum = most_daughters physical threshold in
      if leb 2 maximum then (let (n, s') = gen_int 2 (maximum + 1) s in (some n, s')) else (none, s)

  -- The `i`-th of `n` daughters; TAU is 0x40c90fdb.
  unfoldable pub daughter : Daughter → Vec2 → ℕ → ℕ → State → Daughter × State
  daughter parent pos n i s =
      let (jitter, s1) = gen_float 0 0x3f800000 s in
      let angle = add (mul (div (of_ℕ i) (of_ℕ n)) 0x40c90fdb) jitter in
      let (mutated, s2) = mutate rng parent.tags s1 in
      (
        record parent {
          position = geo.scattered pos angle;
          tags = without (without mutated agent) clamp_capable;
          seed = bit_xor parent.seed (i * 0x85ebca6b % 2 ^ 64);
        },
        s2,
      )

  -- The daughters from the `i`-th on, `left` of them.
  unfoldable pub daughters_from : Daughter → Vec2 → ℕ → ℕ → ℕ → State → List Daughter
  daughters_from parent pos n i zero s = []
  daughters_from parent pos n i (suc left) s =
      let (d, s') = daughter parent pos n i s in d ∷ daughters_from parent pos n (suc i) left s'

  -- Each of `n` daughters has an equal part.
  unfoldable pub portions : Vec2 → Physical → CustomTags → F32 → ℕ → ℕ → State → ℕ → List Daughter
  portions pos physical tags threshold seed born_step s n =
      let part : Physical = record {
        mass = div physical.mass (of_ℕ n);
        structure = div threshold (of_ℕ n);
        energy = fmax (div (fmax physical.energy 0) (of_ℕ n)) 0;
      } in
      let parent : Daughter = record {
        position = pos;
        physical = part;
        tags = tags;
        seed = seed;
        born_step = born_step;
      } in
      daughters_from parent pos n 0 n s

  -- What a victim falls into, or nothing where it is too small.
  unfoldable pub divide : Vec2 → Physical → CustomTags → F32 → ℕ → ℕ → Option (List Daughter)
  divide pos physical tags threshold seed born_step =
      let (count, s) = daughter_count physical threshold (seed_from (bit_xor seed 0x9e3779b9)) in
      Option.map (portions pos physical tags threshold seed born_step s) count

  -- A victim's daughters, where it has the components of the query.
  unfoldable pub fall_apart : World → Entity → Option (List Daughter)
  fall_apart w e = do
    pos ← w.position e
    physical ← w.physical e
    tags ← w.tags e
    threshold ← w.yield_threshold e
    seed ← w.node_rng e
    let born : ℕ = elim (w.ledger e) [ none ↦ 0 | some l ↦ l.born_step ]
    divide pos physical tags threshold seed born

  -- The loop over the queue: what to spawn, and whom to despawn.
  unfoldable pub break_up : World → List Queued → List Daughter × List Entity
  break_up w [] = ([], [])
  break_up w (q ∷ queue) =
      let rest = break_up w queue in
      elim (fall_apart w q.victim) [
        | none ↦ rest
        | some daughters ↦ (daughters ++ rest.0, q.victim ∷ rest.1)
      ]

-- crates/ertw_core/src/actuation.rs: `despawn_physical_entities`, joints before their endpoints.
unfoldable pub contains : List Entity → Entity → Bool
contains [] e = false
contains (x ∷ xs) e = x == e || contains xs e

unfoldable pub joint_despawns : List Entity → List (Entity × ClampJoint) → List Command
joint_despawns entities [] = []
joint_despawns entities ((j, joint) ∷ joints) =
    let rest = joint_despawns entities joints in
    if contains entities joint.owner || contains entities joint.target
    then despawn j ∷ rest
    else rest

unfoldable pub despawn_physical_entities : List Entity → List (Entity × ClampJoint) → List Command
despawn_physical_entities entities joints = joint_despawns entities joints ++ map despawn entities

-- The whole system; the second component is the queue that it leaves.
unfoldable pub run_fragmentation : Geometry → Rng → World → List Queued → World × List Queued
run_fragmentation geo rng w queue =
    let (daughters, victims) = break_up geo rng w queue in
    (
      record w {
        commands =
            w.commands
            ++ despawn_physical_entities victims w.joints
            ++ map spawn_daughter daughters;
      },
      [],
    )
