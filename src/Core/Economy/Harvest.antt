-- ===== src/Core/Economy/Harvest.antt =====
-- crates/ertw_core/src/economy.rs: `kinetic_harvest` and `volatile_trap_discharge`. Both move energy
-- between two accounts, by a debit of what is available and the credit of what was taken.
use ertw.Core.Actuation.{fixed_dt}
use ertw.Float.Arith.{sub, add, mul, div}
use ertw.Core.Tags.{volatile_trap, energy_convertible, agent}
use ertw.Core.Ledger.{credit, debit_available, Account}
use ertw.Common.{
  map_or, ◌&&◌, Bool, ◌++◌, ◌>>=◌, [], none, not, ◌||◌, ◌==◌, some, ◌∷◌, if◌then◌else◌, List,
  Option, ℕ,
}
use ertw.Core.Components.{harvested, transferred, Entity}
use ertw.Core.World.{is_tagged, set_account, account_of, Vec2, Senses, Geometry, World}
use ertw.Float.Order.{fmin, lt, fmax, le, F32}

-- HARVEST_MIN_REL_SPEED, HARVEST_RATE, VOLATILE_TRAP_RANGE and VOLATILE_TRAP_DRAIN_FRACTION.
abbrev pub harvest_min_rel_speed : F32
harvest_min_rel_speed = 0x3fc00000

abbrev pub harvest_rate : F32
harvest_rate = 0x3fc00000

abbrev pub volatile_trap_range : F32
volatile_trap_range = 0x41000000

abbrev pub volatile_trap_drain_fraction : F32
volatile_trap_drain_fraction = 0x3f000000

unfoldable pub velocity_of : World → Entity → Vec2
velocity_of w e = elim (w.velocity e) [ none ↦ record { x = 0; y = 0 } | some v ↦ v ]

-- The debit, and the world after it; nothing where there is no account.
unfoldable pub take_from : World → Entity → F32 → Option Account → World × F32
take_from w e amount none = (w, 0)
take_from w e amount (some a) =
    let (a', taken) = debit_available a transferred amount in (set_account w e a', taken)

unfoldable pub give_to : World → Entity → F32 → Option Account → World
give_to w e amount none = w
give_to w e amount (some a) = set_account w e (credit a harvested amount).0

unfoldable pub move_energy : World → Entity → Entity → F32 → World
move_energy w from to amount =
    let (w', taken) = take_from w from amount (account_of w from) in
    if le taken 0 then w' else give_to w' to taken (account_of w' to)

-- The entities of the query that are placed and have the flag.
unfoldable pub placed_with : World → ℕ → List Entity → List Entity
placed_with w flag [] = []
placed_with w flag (e ∷ entities) =
    let rest = placed_with w flag entities in
    elim (w.position e) [ none ↦ rest | some p ↦ if is_tagged w flag e then e ∷ rest else rest ]

-- The transfer at a relative speed, from a node with this reserve.
unfoldable pub yielded : F32 → F32 → Option F32
yielded speed energy =
    let rate = mul (mul harvest_rate (add (sub speed harvest_min_rel_speed) 0x3f800000)) fixed_dt in
    let transfer = fmin rate (fmax energy 0) in if le transfer 0 then none else some transfer

module _ (geo : Geometry) (senses : Senses) where
  -- Whether a placed node is near the agent, and their speed is no less than the least.
  unfoldable pub is_rubbing : World → Entity → Vec2 → Entity → Vec2 → Bool
  is_rubbing w agent_e agent_pos other p =
      not (lt 0x41800000 (geo.distance_squared p agent_pos))
      && not (
          lt (geo.speed_between (velocity_of w agent_e) (velocity_of w other))
            harvest_min_rel_speed)

  -- What one node yields to an agent this step: nothing, unless it is convertible, near and in
  -- relative motion.
  unfoldable pub harvest_amount : World → Entity → Vec2 → Entity → Option F32
  harvest_amount w agent_e agent_pos other =
      if (other == agent_e) || not (is_tagged w energy_convertible other) then none else do
        p ← w.position other
        node ← w.physical other
        if is_rubbing w agent_e agent_pos other p
            then yielded (geo.speed_between (velocity_of w agent_e) (velocity_of w other))
                node.energy
            else none

  unfoldable pub harvest_from : World → Entity → Vec2 → List Entity → World
  harvest_from w agent_e agent_pos [] = w
  harvest_from w agent_e agent_pos (other ∷ near) =
      let amount = harvest_amount w agent_e agent_pos other in
      harvest_from (map_or w (move_energy w other agent_e) amount) agent_e agent_pos near

  unfoldable pub harvest_agents : List Entity → World → World
  harvest_agents [] w = w
  harvest_agents (e ∷ agents) w =
      let harvest : Vec2 → World =
        λ pos. harvest_from w e pos (senses.query_radius pos 0x40800000) in
      harvest_agents agents (map_or w harvest (w.position e))

  unfoldable pub kinetic_harvest : List Entity → World → World
  kinetic_harvest entities w = harvest_agents (placed_with w agent entities) w

  -- The weights of the agents near a trap, and their sum.
  unfoldable pub weigh :
      World → Entity → Vec2 → List Entity → List (Entity × F32) → F32 → List (Entity × F32) × F32
  weigh w trap pos [] weights total = (weights, total)
  weigh w trap pos (other ∷ near) weights total =
      elim (if (other == trap) || not (is_tagged w agent other) then none else w.position other) [
        | none ↦ weigh w trap pos near weights total
        | some p ↦
            let weight = div 0x3f800000 (fmax (geo.distance p pos) 0x3dcccccd) in
            weigh w trap pos near (weights ++ ((other, weight) ∷ [])) (add total weight)
      ]

  -- The released energy, in shares by weight.
  unfoldable pub share_out : F32 → F32 → List (Entity × F32) → World → World
  share_out released total [] w = w
  share_out released total ((target, weight) ∷ weights) w =
      share_out released total weights
        (give_to w target (mul released (div weight total)) (account_of w target))

  unfoldable pub release_of : World → Entity → F32
  release_of w trap = elim (w.physical trap) [
    | none ↦ 0
    | some p ↦ mul (fmax p.energy 0) volatile_trap_drain_fraction
  ]

  unfoldable pub discharge : World → Entity → Vec2 → World
  discharge w trap pos =
      let (weights, total) = weigh w trap pos (senses.query_radius pos volatile_trap_range) [] 0 in
      let release = release_of w trap in
      if not (senses.is_em_spike pos) || le total 0 || le release 0
      then w
      else (let (w', released) = take_from w trap release (account_of w trap) in
          share_out released total weights w')

  unfoldable pub discharge_all : List Entity → World → World
  discharge_all [] w = w
  discharge_all (trap ∷ traps) w =
      discharge_all traps (map_or w (discharge w trap) (w.position trap))

  unfoldable pub volatile_trap_discharge : List Entity → World → World
  volatile_trap_discharge entities w = discharge_all (placed_with w volatile_trap entities) w
