-- ===== src/Core/Snapshot/Tests.antt =====
-- Two agents, one holding on to the other, and a terrain node without an identifier yet.
use ertw.Core.Snapshot.Captured.{recapture}
use ertw.Core.StableIds.{Named, sort_in, nameless_row, nameless, id_or, highest, observe}
use ertw.Core.StableIds.Unique.{IsUnique}
use ertw.Core.Snapshot.Ordered.{IsDistinct}
use mathlib.Core.Option.{some_inj}
use ertw.Core.Registry.{get}
use ertw.Core.Snapshot.Spawned.{has_node}
use ertw.Core.Snapshot.Restore.{new_simulation, base_row, ok, restore}
use ertw.Core.Snapshot.Rows.{kept}
use ertw.Core.Snapshot.Settled.{known, settled_agent, settle}
use ertw.Core.Genesis.{new_manager, comes_first}
use ertw.Core.Snapshot.Restored.{capture-restore, settled}
use ertw.Core.Fields.{Noise}
use ertw.Core.Snapshot.{
  EntityRow, named_of, capture, CanonicalNode, Simulation, CanonicalAgent, WorldSnapshot, Rotations,
}
use ertw.Common.{ap, suc, zero, map, arith, false, ◌≡◌, some, [], ◌∷◌, none, List, Option, ℕ, refl}

-- A stand-in for the geometry: the angle is kept in one component.
abbrev rotations : Rotations
rotations = record {
  from_rotation_z = λ a. record { x = 0; y = 0; z = a; w = 0 };
  euler_z = λ q. q.z;
}

abbrev noise : Noise
noise = record { kinetic = λ x y. 0; thermal = λ x y. 0; em = λ x y. 0; sin = λ x. 0 }

abbrev node : ℕ → Option CanonicalAgent → CanonicalNode
node id agent = record {
  stable_id = id;
  position = record { x = 0; y = 0x3f800000 };
  rotation = 0x40000000;
  linear_velocity = record { x = 0; y = 0 };
  angular_velocity = 0;
  physical = (0x3f800000, 0x41000000, 0x41a00000);
  yield_threshold = 0x41000000;
  conductivity = 0x3f000000;
  tags = 1;
  oscillator = some (0x3f800000, 0, 0x3f800000);
  node_rng = 77;
  chunk_origin = none;
  dead = false;
  energy_ledger = (0, 0, 0, 0, 0, 0, 0, 0);
  born_step = 3;
  agent = agent;
}

abbrev agent : Option ℕ → CanonicalAgent
agent target = record {
  generation = 1;
  lineage = 4;
  sensor_radius = 0x41400000;
  max_neighbors = 16;
  yield_threshold = 0x41000000;
  oscillator_baseline = 0x3f800000;
  reproduction = (0, 0x3f800000);
  fabricate_cooldown = 0;
  clamp_target = target;
  clamp_cooldown = 0x3f000000;
}

abbrev snapshot : WorldSnapshot
snapshot = record {
  schema_version = 2;
  seed = 79;
  simulation_tick = 60;
  field_time = 0x3f800000;
  agent_checkpoint = none;
  active_chunks = record { x = 5; y = 6 } ∷ record { x = 5; y = 7 } ∷ [];
  nodes = node 2 (some (agent (some 7))) ∷ node 7 (some (agent none)) ∷ node 9 none ∷ [];
}

abbrev controllers : List (ℕ × ℕ)
controllers = (2, 100) ∷ (7, 200) ∷ []

-- With a controller for each agent the snapshot comes back as it was.
settled_whole : settled rotations snapshot controllers none ≡ snapshot
unfolding settled settle kept settled_agent known has_node get
settled_whole = refl

capture-restore_example :
    (sim : Simulation ℕ) × (restore noise rotations 11 snapshot controllers ≡ ok sim)
    × ((capture rotations sim none).1 ≡ settled rotations snapshot controllers none)
unfolding comes_first
capture-restore_example =
    capture-restore noise rotations 11 snapshot controllers none refl (omega arith)
      ((refl, tt), (tt, tt))

abbrev sim : Simulation ℕ
unfolding base_row new_simulation
sim = record (new_simulation {S = ℕ} 20 79) {
  rows =
      base_row rotations 4 (node 3 none)
      ∷ record (base_row rotations 5 (node 3 none)) { stable = none }
      ∷ [];
}

sim-IsDistinct : IsDistinct sim.rows
unfolding base_row new_simulation
sim-IsDistinct zero zero r s g h e = refl
sim-IsDistinct zero (suc zero) r s g h e = absurd (
    omega (
      arith,
      ap (λ (t : EntityRow). t.entity) (some_inj.0 g),
      ap (λ (t : EntityRow). t.entity) (some_inj.0 h),
      e,
    ))
sim-IsDistinct zero (suc (suc j)) r s g h e = absurd (cc)
sim-IsDistinct (suc zero) zero r s g h e = absurd (
    omega (
      arith,
      ap (λ (t : EntityRow). t.entity) (some_inj.0 g),
      ap (λ (t : EntityRow). t.entity) (some_inj.0 h),
      e,
    ))
sim-IsDistinct (suc zero) (suc zero) r s g h e = refl
sim-IsDistinct (suc zero) (suc (suc j)) r s g h e = absurd (cc)
sim-IsDistinct (suc (suc i)) j r s g h e = absurd (cc)

sim-IsUnique : IsUnique (map named_of sim.rows)
unfolding base_row new_simulation named_of
sim-IsUnique zero zero r s id g h a b = ground (arith, g, h)
sim-IsUnique zero (suc zero) r s id g h a b =
    absurd (ground (arith, ap (λ (t : Named). t.stable) (some_inj.0 h), b))
sim-IsUnique zero (suc (suc j)) r s id g h a b = absurd (cc)
sim-IsUnique (suc zero) j r s id g h a b =
    absurd (ground (arith, ap (λ (t : Named). t.stable) (some_inj.0 g), a))
sim-IsUnique (suc (suc i)) j r s id g h a b = absurd (cc)

recapture_example :
    (again : Simulation ℕ) × (restore noise rotations 11 (capture rotations sim none).1 controllers
      ≡ ok again)
    × ((capture rotations again none).1
        ≡ settled rotations (capture rotations sim none).1 controllers none)
unfolding base_row new_simulation named_of observe highest id_or nameless nameless_row sort_in
    new_manager
recapture_example =
    recapture sim sim-IsDistinct sim-IsUnique (omega arith) noise rotations 11 controllers none none
      tt
