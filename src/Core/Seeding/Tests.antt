-- ===== src/Core/Seeding/Tests.antt =====
-- A new world with one chunk.
use ertw.Core.Registry.{register}
use ertw.Core.Seeding.Population.{seed_world-IsSeeded, IsSeeded}
use ertw.Core.Genesis.Plan.{plan_agents, plan_column, plan_columns, spawn_plan}
use ertw.Core.World.Samples.{least}
use ertw.Core.Snapshot.Restore.{new_simulation}
use ertw.Core.Seeding.{spawn_row, seed_agent, seed_agents, seed_world}
use ertw.Core.Snapshot.{Simulation}
use ertw.Common.{some, get_elem?, arith, ◌+◌, ◌≡◌, length, ℕ, refl}

abbrev empty_world : Simulation ℕ
empty_world = new_simulation {S = ℕ} 20 5

first_out : get_elem? (seed_world least 33 empty_world 1 1).1 2 ≡ some 22
unfolding seed_world seed_agents seed_agent spawn_row spawn_plan plan_columns plan_column
    plan_agents register new_simulation
first_out = refl

seed_world-IsSeeded_example :
    (length (seed_world least 33 empty_world 1 1).1 ≡ 4)
    × (22 ≡ empty_world.next_entity + 2)
    × IsSeeded 33 empty_world (seed_world least 33 empty_world 1 1).0 2 22
unfolding new_simulation
seed_world-IsSeeded_example =
    seed_world-IsSeeded least 33 empty_world 1 1 2 22 (omega arith) first_out
