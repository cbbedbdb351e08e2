-- ===== src/Core/Lineage.antt =====
-- crates/ertw_core/src/lineage.rs: reproduction after a sustained surplus. A list of entities is the
-- order of the query; the agents that are spawned are a list of their bundles.
pub mod Birth
pub mod Ripe
pub mod Births
pub mod Outcomes
pub mod Recorded
pub mod Distinct
pub mod Whole
mod Tests
use Prim.Native.Nat.{bit_xor, bit_or}
use ertw.Core.Actuation.{fixed_dt}
use ertw.Core.Rng.{Rng}
use ertw.Core.Registry.{Agent, WorldAgents, spawn_registered}
use ertw.Core.Registry.Spawn.{AgentBundle}
use ertw.Core.Ledger.{Account, debit_exact}
use ertw.Core.Tags.{agent, clamp_capable}
use ertw.Core.Components.{
  offspring, default_ledger, default_clamp, AgentMarker, AgentTuning, ReproductionState, Entity,
}
use ertw.Core.World.{World, Vec2, Geometry, account_of, set_account, update}
use ertw.Float.Arith.{add, sub, mul}
use ertw.Float.Order.{lt, F32, le, fmax, clamp}
use ertw.Common.{
  not, false, ℕ, Bool, Option, some, none, List, [], ◌∷◌, ◌++◌, ◌>>=◌, ◌&&◌, if◌then◌else◌, min,
  max, ◌+◌, ◌*◌, ◌/◌, ◌%◌, ◌^◌, ◌-◌,
}

-- 32.0, 5.0, 12.0, 1.5 and 20.0.
abbrev pub reproduction_energy_threshold : F32
reproduction_energy_threshold = 0x42000000

abbrev pub reproduction_surplus_seconds : F32
reproduction_surplus_seconds = 0x40a00000

abbrev pub reproduction_energy_cost : F32
reproduction_energy_cost = 0x41400000

abbrev pub reproduction_mass_cost : F32
reproduction_mass_cost = 0x3fc00000

abbrev pub reproduction_cooldown_seconds : F32
reproduction_cooldown_seconds = 0x41a00000

-- The components of the query.
pub record Parent : Type 0 where
  pub position : Vec2
  pub account : Account
  pub body_mass : F32
  pub marker : AgentMarker
  pub tuning : AgentTuning
  pub reproduction : ReproductionState
  pub node_rng : ℕ

-- `(cooldown_seconds - FIXED_DT).max(0.0)`.
unfoldable pub cool : ReproductionState → ReproductionState
cool r = record r { cooldown_seconds = fmax (sub r.cooldown_seconds fixed_dt) 0 }

-- On the cooldown after its tick.
unfoldable pub is_eligible : Account → ReproductionState → Bool
is_eligible a r =
    le reproduction_energy_threshold a.physical.energy
    && le (add reproduction_mass_cost 0x3f000000) a.physical.mass
    && le r.cooldown_seconds 0

-- The reproduction state of a step before a birth, and whether one is due.
unfoldable pub ripen : Account → ReproductionState → ReproductionState × Bool
ripen a state =
    let r = cool state in
    if is_eligible a r
    then (let s = add r.surplus_seconds fixed_dt in
        (record r { surplus_seconds = s }, not (lt s reproduction_surplus_seconds)))
    else (record r { surplus_seconds = 0 }, false)

-- Both products wrap.
unfoldable pub child_seed : ℕ → ℕ → ℕ
child_seed node_rng step = bit_xor node_rng (step * 0x9e3779b97f4a7c15 % 2 ^ 64)

-- `rotate_left(17)` on a u64.
unfoldable pub rotate_left : ℕ → ℕ
rotate_left x = x * 2 ^ 17 % 2 ^ 64 + x / 2 ^ 47

abbrev pub spent : ReproductionState
spent = record { surplus_seconds = 0; cooldown_seconds = reproduction_cooldown_seconds }

-- The child's mark: the generation saturates.
unfoldable pub child_marker : AgentMarker → ℕ → AgentMarker
child_marker m controller = record {
  generation = min (2 ^ 32 - 1) (m.generation + 1);
  lineage = m.lineage;
  controller = controller;
}

-- The parent after a birth that was paid for.
unfoldable pub after_birth : Parent → Account → ℕ → Parent
after_birth p a seed =
    let mass = sub a.physical.mass reproduction_mass_cost in
    record p {
      account = record a { physical = record (a.physical) { mass = mass } };
      body_mass = fmax mass 0x3d4ccccd;
      reproduction = spent;
      node_rng = rotate_left seed;
    }

module _ (rng : Rng) where
  open rng use {State, seed_from, gen_float}

  -- The draws from 0.95..1.05, twice, and from -0.15..0.15; each value is then brought into its band.
  unfoldable pub mutate_tuning : AgentTuning → State → AgentTuning × State
  mutate_tuning t s =
      let (radius, s1) = gen_float 0x3f733333 0x3f866666 s in
      let (yield, s2) = gen_float 0x3f733333 0x3f866666 s1 in
      let (osc, s3) = gen_float 0xbe19999a 0x3e19999a s2 in
      (
        record {
          sensor_radius = clamp (mul t.sensor_radius radius) 0x40800000 0x42000000;
          max_neighbors = max 1 (min t.max_neighbors 64);
          yield_threshold = fmax (mul t.yield_threshold yield) 0x3f800000;
          osc_baseline = clamp (add t.osc_baseline osc) 0xc1800000 0x41800000;
        },
        s3,
      )

  -- The bundle of the child; its conductivity is 0.6, and 2 ^ 7 is OSCILLATOR.
  unfoldable pub child_of : Geometry → ℕ → Parent → ℕ → ℕ → AgentTuning → F32 → AgentBundle
  child_of geo step p controller seed tuning birth_angle = record {
    position = geo.born_at p.position birth_angle;
    body_mass = reproduction_mass_cost;
    physical = record {
      mass = reproduction_mass_cost;
      structure = tuning.yield_threshold;
      energy = reproduction_energy_cost;
    };
    yield_threshold = tuning.yield_threshold;
    conductivity = 0x3f19999a;
    tags = bit_or (bit_or agent clamp_capable) (2 ^ 7);
    oscillator = record {
      freq = tuning.osc_baseline;
      phase = 0;
      baseline_freq = tuning.osc_baseline;
    };
    impulse = record { value = 0; source = none };
    ledger = record default_ledger { born_step = min step (2 ^ 32 - 1) };
    marker = child_marker p.marker controller;
    tuning = tuning;
    clamp = default_clamp;
    fabricate = 0;
    reproduction = record { surplus_seconds = 0; cooldown_seconds = 0 };
    node_rng = seed;
  }

  -- The end of the loop's body, once a controller is registered.
  unfoldable pub give_birth : Geometry → ℕ → Parent → ℕ → ℕ → Parent × Option AgentBundle
  give_birth geo step p controller seed =
      let (tuning, s) = mutate_tuning p.tuning (seed_from seed) in
      let (a, paid) = debit_exact p.account offspring reproduction_energy_cost in
      if paid
      then (
        after_birth p a seed,
        some (child_of geo step p controller seed tuning ((gen_float 0 0x40c90fdb s).0)),
      )
      else (record p { reproduction = record (p.reproduction) { surplus_seconds = 0 } }, none)

  -- The parent on what its controller answers; one without a child starts its cooldown.
  unfoldable pub answer {ℓ} :
      {S : Type ℓ}
      → Geometry
      → ℕ
      → Parent
      → ℕ
      → WorldAgents S × Option ℕ
      → Parent × WorldAgents S × Option AgentBundle
  answer geo step p seed (agents, none) = (record p { reproduction = spent }, agents, none)
  answer geo step p seed (agents, some controller) =
      let (p', child) = give_birth geo step p controller seed in (p', agents, child)

  module _ (trait : Agent) where
    -- A birth that is due.
    unfoldable pub bear :
        Geometry
        → ℕ
        → Parent
        → WorldAgents (trait.State)
        → Parent × WorldAgents (trait.State) × Option AgentBundle
    bear geo step p agents =
        let seed = child_seed p.node_rng step in
        answer geo step p seed (spawn_registered trait agents p.marker.controller seed)

    -- The body of the loop.
    unfoldable pub reproduce_one :
        Geometry
        → ℕ
        → Parent
        → WorldAgents (trait.State)
        → Parent × WorldAgents (trait.State) × Option AgentBundle
    reproduce_one geo step p agents =
        let (r, due) = ripen p.account p.reproduction in
        let p' : Parent = record p { reproduction = r } in
        if due then bear geo step p' agents else (p', agents, none)

-- The rows of the query, and a row written back.
unfoldable pub parent_of : World → Entity → Option Parent
parent_of w e = do
  position ← w.position e
  account ← account_of w e
  body_mass ← w.body_mass e
  marker ← w.marker e
  tuning ← w.tuning e
  reproduction ← w.reproduction e
  node_rng ← w.node_rng e
  some (record {
    position = position;
    account = account;
    body_mass = body_mass;
    marker = marker;
    tuning = tuning;
    reproduction = reproduction;
    node_rng = node_rng;
  })

unfoldable pub set_parent : World → Entity → Parent → World
set_parent w e p = record (set_account w e p.account) {
  body_mass = update w.body_mass e p.body_mass;
  reproduction = update w.reproduction e p.reproduction;
  node_rng = update w.node_rng e p.node_rng;
}

unfoldable pub with_child : List AgentBundle → Option AgentBundle → List AgentBundle
with_child children none = children
with_child children (some child) = children ++ (child ∷ [])

module _ (rng : Rng) (trait : Agent) (geo : Geometry) (step : ℕ) where
  unfoldable pub reproduce_row :
      Option Parent
      → Entity
      → World × WorldAgents (trait.State) × List AgentBundle
      → World × WorldAgents (trait.State) × List AgentBundle
  reproduce_row none e s = s
  reproduce_row (some p) e (w, agents, children) =
      let (p', agents', child) = reproduce_one rng trait geo step p agents in
      (set_parent w e p', agents', with_child children child)

  unfoldable pub reproduce_agents :
      List Entity
      → World × WorldAgents (trait.State) × List AgentBundle
      → World × WorldAgents (trait.State) × List AgentBundle
  reproduce_agents [] s = s
  reproduce_agents (e ∷ entities) s =
      reproduce_agents entities (reproduce_row (parent_of (s.0) e) e s)
