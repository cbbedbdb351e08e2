-- ===== src/Core/Seeding/Population.antt =====
-- Who is there after `seed_world`.
use ertw.Core.Registry.Spawn.{spawn_with_bundle}
use mathlib.Core.Path.{subst}
use ertw.Core.Registry.Laws.{get-insert}
use ertw.Core.Genesis.{TerrainSpawn, agents_per_chunk}
use ertw.Core.Registry.{get, register}
use ertw.Core.Components.{AgentMarker, Entity, ChunkOrigin}
use ertw.Core.World.{Vec2}
use ertw.Core.Genesis.Plan.{
  spawn_genesis_node, terrain_plan, spawn_plan, spawn_genesis, grid_chunk, plan_columns,
  plan_column, plan_agents,
}
use ertw.Core.Snapshot.{EntityRow, Simulation}
use ertw.Core.Seeding.{
  terrain_row, agent_row, seed_world, seed_terrain, spawn_row, seed_agent, seed_agents,
}
use ertw.Core.Rng.{Rng}
use ertw.Core.Tags.{agent, clamp_capable, oscillator}
use mathlib.Core.Option.{some_inj}
use ertw.Common.{
  ap₂, ◌∙◌, length-append, ◌^◌, arith, ◌<◌, [], ◌+◌, ◌∷◌, some, ◌*◌, ap, ◌++◌, ◌≡◌, length,
  get_elem?, ℕ, List, refl, zero, suc,
}

module _ (rng : Rng) where
  length-plan_agents :
      (seed : ℕ) (c : ChunkOrigin) (i n : ℕ) (s : rng.State)
      → length (plan_agents rng seed c i n s).0 ≡ n
  unfolding plan_agents
  length-plan_agents seed c i zero s = refl
  length-plan_agents seed c i (suc n) s = ap suc (length-plan_agents seed c (suc i) n _)

  length-plan_column :
      (seed cx cy n : ℕ) (s : rng.State)
      → length (plan_column rng seed cx cy n s).0 ≡ n * agents_per_chunk
  unfolding plan_column
  length-plan_column seed cx cy zero s = refl
  length-plan_column seed cx cy (suc n) s =
      let (agents, s1) = plan_agents rng seed (grid_chunk cx cy) 0 agents_per_chunk s in
      omega (
        arith,
        length-append agents (plan_column rng seed cx (suc cy) n s1).0,
        length-plan_agents seed (grid_chunk cx cy) 0 agents_per_chunk s,
        length-plan_column seed cx (suc cy) n s1,
      )

  length-plan_columns :
      (seed ny cx n : ℕ) (s : rng.State)
      → length (plan_columns rng seed ny cx n s).0 ≡ n * (ny * agents_per_chunk)
  unfolding plan_columns
  length-plan_columns seed ny cx zero s = omega arith
  length-plan_columns seed ny cx (suc n) s =
      let (column, s1) = plan_column rng seed cx 0 ny s in
      length-append column (plan_columns rng seed ny (suc cx) n s1).0
      ∙ ap₂ (λ a b. a + b) (length-plan_column seed cx 0 ny s)
          (length-plan_columns seed ny (suc cx) n s1)
      ∙ grind arith

get_elem?-append :
    {A : Type 0} (xs ys : List A) (i : ℕ) (x : A)
    → get_elem? xs i ≡ some x
    → get_elem? (xs ++ ys) i ≡ some x
get_elem?-append [] ys i x h = absurd (cc)
get_elem?-append (y ∷ xs) ys zero x h = h
get_elem?-append (y ∷ xs) ys (suc i) x h = get_elem?-append xs ys i x h

get_elem?-append_last :
    {A : Type 0} (xs : List A) (x : A) → get_elem? (xs ++ (x ∷ [])) (length xs) ≡ some x
get_elem?-append_last [] x = refl
get_elem?-append_last (y ∷ xs) x = get_elem?-append_last xs x

module _ {S : Type 0} (genesis : S) where
  rows-seed_agents :
      (plan : List (Vec2 × ℕ)) (sim : Simulation S) (k : ℕ) (r : EntityRow)
      → get_elem? sim.rows k ≡ some r
      → get_elem? (seed_agents genesis plan sim).0.rows k ≡ some r
  unfolding seed_agents seed_agent spawn_row
  rows-seed_agents [] sim k r h = h
  rows-seed_agents (p ∷ plan) sim k r h =
      rows-seed_agents plan (seed_agent genesis sim p).0 k r (get_elem?-append sim.rows _ k r h)

  get-seed_agents :
      (plan : List (Vec2 × ℕ)) (sim : Simulation S) (id : ℕ)
      → id < sim.agents.next_id
      → sim.agents.next_id + length plan < 2 ^ 64
      → get (seed_agents genesis plan sim).0.agents.controllers id ≡ get sim.agents.controllers id
  unfolding seed_agents seed_agent spawn_row register
  get-seed_agents [] sim id lt few = refl
  get-seed_agents (p ∷ plan) sim id lt few =
      get-seed_agents plan (seed_agent genesis sim p).0 id (omega (arith, lt, few))
        (omega (arith, few))
      ∙ ground (arith, lt, get-insert sim.agents.controllers sim.agents.next_id id genesis)

  -- The row of an agent, and what its marker names.
  abbrev pub IsSeeded : Simulation S → Simulation S → ℕ → Entity → Type 0
  IsSeeded sim after i e =
      (r : EntityRow) × (m : AgentMarker) × (get_elem? after.rows (length sim.rows + i) ≡ some r)
      × (r.entity ≡ e)
      × (r.marker ≡ some m)
      × (r.tags ≡ some (agent + clamp_capable + oscillator))
      × (m.controller ≡ sim.agents.next_id + i)
      × (get after.agents.controllers m.controller ≡ some genesis)

  first_entity :
      (sim : Simulation S) (p : Vec2 × ℕ) (e : Entity)
      → some (seed_agent genesis sim p).1 ≡ some e
      → sim.next_entity ≡ e
  unfolding seed_agent spawn_row
  first_entity sim p e h = some_inj.0 h

  seed_agent_state :
      (sim : Simulation S) (p : Vec2 × ℕ)
      → sim.agents.next_id + 1 < 2 ^ 64
      → ((seed_agent genesis sim p).0.next_entity ≡ sim.next_entity + 1)
        × ((seed_agent genesis sim p).0.agents.next_id ≡ sim.agents.next_id + 1)
        × (length (seed_agent genesis sim p).0.rows ≡ length sim.rows + 1)
  unfolding seed_agent spawn_row register
  seed_agent_state sim p few = (refl, omega (arith, few), length-append sim.rows _)

  -- The first agent of a plan is seeded as it should be, whatever is seeded after it.
  seed_agent_first :
      (plan : List (Vec2 × ℕ)) (sim : Simulation S) (p : Vec2 × ℕ)
      → sim.agents.next_id + suc (length plan) < 2 ^ 64
      → IsSeeded sim (seed_agents genesis plan (seed_agent genesis sim p).0).0 0 sim.next_entity
  unfolding seed_agent spawn_row register spawn_genesis spawn_with_bundle agent_row
  seed_agent_first plan sim p few =
      let id = sim.agents.next_id in
      let bundle = spawn_genesis id (p.0) (p.1) 0 in
      let row = agent_row sim.next_entity bundle in
      let sim1 = (seed_agent genesis sim p).0 in
      (
        row,
        bundle.marker,
        rows-seed_agents plan sim1 (length sim.rows + 0) row (
            subst (λ k. get_elem? sim1.rows k ≡ some row) (omega arith)
              (get_elem?-append_last sim.rows row)),
        refl,
        refl,
        refl,
        omega arith,
        get-seed_agents plan sim1 id (omega (arith, few)) (omega (arith, few))
            ∙ get-insert sim.agents.controllers id id genesis
            ∙ ground arith,
      )

  seed_agents_at :
      (plan : List (Vec2 × ℕ)) (sim : Simulation S) (i : ℕ) (e : Entity)
      → sim.agents.next_id + length plan < 2 ^ 64
      → get_elem? (seed_agents genesis plan sim).1 i ≡ some e
      → (e ≡ sim.next_entity + i) × IsSeeded sim (seed_agents genesis plan sim).0 i e
  unfolding seed_agents
  seed_agents_at [] sim i e few h = absurd (cc)
  seed_agents_at (p ∷ plan) sim zero e few h =
      let q : sim.next_entity ≡ e = first_entity sim p e h in
      (
        omega (arith, q),
        subst (IsSeeded sim (seed_agents genesis plan (seed_agent genesis sim p).0).0 0) q
            (seed_agent_first plan sim p few),
      )
  seed_agents_at (p ∷ plan) sim (suc i) e few h =
      let sim1 = (seed_agent genesis sim p).0 in
      let (entity, id, rows) = seed_agent_state sim p (omega (arith, few)) in
      let (q, (r, m, at, own, marked, flags, named, found)) =
        seed_agents_at plan sim1 i e (omega (arith, few, id)) h in
      (
        omega (arith, q, entity),
        (
          r,
          m,
          subst (λ k. get_elem? (seed_agents genesis plan sim1).0.rows k ≡ some r)
              (omega (arith, rows)) at,
          own,
          marked,
          flags,
          omega (arith, named, id),
          found,
        ),
      )

  length-seed_agents :
      (plan : List (Vec2 × ℕ)) (sim : Simulation S)
      → length (seed_agents genesis plan sim).1 ≡ length plan
  unfolding seed_agents
  length-seed_agents [] sim = refl
  length-seed_agents (p ∷ plan) sim = ap suc (length-seed_agents plan (seed_agent genesis sim p).0)

module _ {S : Type 0} where
  rows-seed_terrain :
      (plan : List TerrainSpawn) (sim : Simulation S) (k : ℕ) (r : EntityRow)
      → get_elem? sim.rows k ≡ some r
      → get_elem? (seed_terrain plan sim).rows k ≡ some r
  unfolding seed_terrain spawn_row
  rows-seed_terrain [] sim k r h = h
  rows-seed_terrain (t ∷ plan) sim k r h =
      rows-seed_terrain plan (spawn_row sim (λ e. terrain_row e (spawn_genesis_node t))).0 k r
        (get_elem?-append sim.rows _ k r h)

  agents-seed_terrain :
      (plan : List TerrainSpawn) (sim : Simulation S) → (seed_terrain plan sim).agents ≡ sim.agents
  unfolding seed_terrain spawn_row
  agents-seed_terrain [] sim = refl
  agents-seed_terrain (t ∷ plan) sim =
      agents-seed_terrain plan (spawn_row sim (λ e. terrain_row e (spawn_genesis_node t))).0

-- Four agents for each chunk of the grid are spawned as the next entities, each with the flags of an
-- agent and a controller of its own that is registered under the next identifier, where the
-- identifiers do not run out.
pub seed_world-IsSeeded :
    {S : Type 0} (rng : Rng) (genesis : S) (sim : Simulation S) (nx ny i : ℕ) (e : Entity)
    → sim.agents.next_id + nx * (ny * agents_per_chunk) < 2 ^ 64
    → get_elem? (seed_world rng genesis sim nx ny).1 i ≡ some e
    → (length (seed_world rng genesis sim nx ny).1 ≡ nx * (ny * agents_per_chunk))
      × (e ≡ sim.next_entity + i)
      × IsSeeded genesis sim (seed_world rng genesis sim nx ny).0 i e
unfolding seed_world spawn_plan
seed_world-IsSeeded rng genesis sim nx ny i e few h =
    let (chunks, plan) = spawn_plan rng sim.chunks nx ny in
    let sim0 = record sim { chunks = chunks } in
    let count = length-plan_columns rng sim.chunks.seed ny 0 nx (rng.seed_from sim.chunks.seed) in
    let (sim1, out) = seed_agents genesis plan sim0 in
    let terrain = terrain_plan rng chunks nx ny in
    let (q, (r, m, at, own, marked, flags, named, found)) =
      seed_agents_at genesis plan sim0 i e (omega (arith, few, count)) h in
    (
      length-seed_agents genesis plan sim0 ∙ count,
      q,
      (
        r,
        m,
        rows-seed_terrain terrain sim1 (length sim.rows + i) r at,
        own,
        marked,
        flags,
        named,
        ap (λ a. get a.controllers m.controller) (agents-seed_terrain terrain sim1) ∙ found,
      ),
    )
