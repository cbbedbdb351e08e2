-- ===== src/Core/Actuation.antt =====
-- crates/ertw_core/src/actuation.rs: the oscillator, the clamp and the fabricator, applied to one
-- agent for one step. `near` is what the spatial hash answers around the agent.
pub mod Nearest
pub mod Fabricate
pub mod Clamp
pub mod Cleanup
pub mod Joints
pub mod Intact
pub mod Sound
pub mod Links
pub mod Effect
pub mod Tidy
pub mod Reach
mod Tests
use ertw.Float.Arith.{add, mul, sub}
use ertw.Core.Ledger.{debit_exact, debit_available, Account}
use ertw.Common.{[], ◌+◌, ◌∷◌, ◌&&◌, List, ◌==◌, some, none, Option, if◌then◌else◌}
use ertw.Core.World.{
  set_account, update, spawn_joint, spawn_structure, despawn, account_of, queue, Vec2, World,
  Geometry,
}
use ertw.Interface.Action.{ActionTensor}
use ertw.Float.Order.{fmax, magnitude, abs, le, lt, F32, clamp as bound}
use mathlib.Core.Option
use ertw.Core.Components.{Oscillator, Entity, ClampState, actuation, fabrication}

-- FIXED_DT = 1.0 / 60.0, and the constants of the file.
abbrev pub fixed_dt : F32
fixed_dt = 0x3c888889

abbrev pub clamp_drain : F32
clamp_drain = 0x3ecccccd

abbrev pub clamp_cooldown : F32
clamp_cooldown = 0x3fc00000

abbrev pub fabricate_energy_cost : F32
fabricate_energy_cost = 0x40400000

abbrev pub fabricate_mass_cost : F32
fabricate_mass_cost = 0x3f000000

abbrev pub fabricate_cooldown : F32
fabricate_cooldown = 0x40400000

abbrev pub osc_response : F32
osc_response = 0x40800000

-- 0.5, 0.005, 0.05, 1.0 and 12.0 * 12.0.
abbrev pub half : F32
half = 0x3f000000

abbrev osc_price : F32
osc_price = 0x3ba3d70a

abbrev least_mass : F32
least_mass = 0x3d4ccccd

abbrev pub range_squared : F32
range_squared = 0x43100000

-- `if cooldown > 0.0 { cooldown -= dt }`.
unfoldable pub tick : F32 → F32
tick cooldown = if lt 0 cooldown then sub cooldown fixed_dt else cooldown

-- The oscillator drive: the change of frequency is paid for, or does not happen.
unfoldable pub drive_oscillator :
    ActionTensor → Option Account → Oscillator → Option Account × Oscillator
drive_oscillator action account osc =
    let k = bound (mul osc_response fixed_dt) 0 0x3f800000 in
    let change = sub action.osc_freq osc.freq in
    let cost = mul (abs change) osc_price in
    let driven : Oscillator = record osc {
      freq = add osc.freq (mul change k);
      phase = action.osc_phase;
    } in
    elim account [
      | none ↦ (none, if magnitude cost == 0 then driven else osc)
      | some a ↦
          let (a', paid) = debit_exact a actuation cost in (some a', if paid then driven else osc)
    ]

module _ (geo : Geometry) where
  -- One candidate of the loop in `nearest_neighbor`; `best` is what was found before it.
  unfoldable pub consider :
      World → Entity → Vec2 → Entity → Option (Entity × F32) → Option (Entity × F32)
  consider w self_e self_pos other best = if other == self_e then best else elim (w.tags other) [
    | none ↦ best
    | some t ↦ elim (w.position other) [
      | none ↦ best
      | some pos ↦
          let d2 = geo.distance_squared pos self_pos in
          if lt range_squared d2 then best else elim best [
            | none ↦ some (other, d2)
            | some (e, bd) ↦ if le bd d2 then some (e, bd) else some (other, d2)
          ]
    ]
  ]

  unfoldable pub nearest_from :
      World → Entity → Vec2 → List Entity → Option (Entity × F32) → Option (Entity × F32)
  nearest_from w self_e self_pos [] best = best
  nearest_from w self_e self_pos (other ∷ near) best =
      nearest_from w self_e self_pos near (consider w self_e self_pos other best)

  unfoldable pub nearest_neighbor : World → Entity → Vec2 → List Entity → Option Entity
  nearest_neighbor w self_e self_pos near =
      Option.map (λ (r : Entity × F32). r.0) (nearest_from w self_e self_pos near none)

-- `if let Some(joint) = clamp.joint.take() { despawn(joint) }`.
unfoldable pub drop_joint : World → Option Entity → World
drop_joint w none = w
drop_joint w (some joint) = queue w (despawn joint)

abbrev pub released : ClampState
released = record { target = none; joint = none; cooldown = clamp_cooldown }

-- Acquire a target if there is none; `found` is the nearest neighbor.
unfoldable pub acquire : World → Entity → ClampState → Option Entity → World × ClampState
acquire w e c found = elim c.target [
  | some t ↦ (w, c)
  | none ↦ elim found [
    | none ↦ (w, c)
    | some target ↦ (
      record (queue w (spawn_joint (w.next_entity) e target)) { next_entity = w.next_entity + 1 },
      record c { target = some target; joint = some (w.next_entity) },
    )
  ]
]

-- The command to release.
unfoldable pub let_go : World → ClampState → World × ClampState
let_go w c = elim c.joint [
  | some joint ↦ (queue w (despawn joint), released)
  | none ↦ (w, record c { target = none })
]

-- What holding costs, and the release where the target is gone or the reserve is empty.
unfoldable pub hold : World → Entity → ClampState → World × ClampState
hold w e c = elim c.target [
  | none ↦ (w, c)
  | some target ↦ elim (w.position target) [
    | none ↦ (drop_joint w c.joint, released)
    | some p ↦ elim (account_of w e) [
      | none ↦ (w, c)
      | some a ↦
          let a' = (debit_available a actuation (mul clamp_drain fixed_dt)).0 in
          let w' = set_account w e a' in
          if le a'.physical.energy 0 then (drop_joint w' c.joint, released) else (w', c)
    ]
  ]
]

-- What the command does to the clamp, once its cooldown has ticked.
unfoldable pub respond :
    World → Entity → ActionTensor → ClampState → Option Entity → World × ClampState
respond w e action c found =
    let wants = lt half action.clamp in
    if wants && le c.cooldown 0 then acquire w e c found else if wants then (w, c) else let_go w c

-- The clamp part of `apply_one`.
unfoldable pub drive_clamp :
    World → Entity → ActionTensor → ClampState → Option Entity → World × ClampState
drive_clamp w e action clamp found =
    let (w', c') = respond w e action (record clamp { cooldown = tick clamp.cooldown }) found in
    hold w' e c'

-- The fabricator: the cooldown after the step, and the account that paid for a structure, if one
-- was built.
unfoldable pub drive_fabricator : ActionTensor → Option Account → F32 → F32 × Option Account
drive_fabricator action account remaining =
    let cooldown = tick remaining in
    if lt half action.fabricate && le cooldown 0
    then elim account [
      | none ↦ (cooldown, none)
      | some a ↦
          if le fabricate_energy_cost a.physical.energy && le fabricate_mass_cost a.physical.mass
          then (let (a', funded) = debit_exact a fabrication fabricate_energy_cost in
              if funded
              then (
                fabricate_cooldown,
                some (record a' {
                  physical = record (a'.physical) {
                    mass = sub a'.physical.mass fabricate_mass_cost;
                  };
                }),
              )
              else (cooldown, none))
          else (cooldown, none)
    ]
    else (cooldown, none)

-- The three parts of `apply_one` on the world, each skipped where the agent lacks the component.
unfoldable pub apply_oscillator : World → Entity → ActionTensor → World
apply_oscillator w e action = elim (w.oscillator e) [
  | none ↦ w
  | some osc ↦
      let (account, osc') = drive_oscillator action (account_of w e) osc in
      let w' = record w { oscillator = update w.oscillator e osc' } in
      elim account [ none ↦ w' | some a ↦ set_account w' e a ]
]

unfoldable pub apply_clamp : World → Entity → ActionTensor → Option Entity → World
apply_clamp w e action found = elim (w.clamp e) [
  | none ↦ w
  | some c ↦
      let (w', c') = drive_clamp w e action c found in record w' { clamp = update w'.clamp e c' }
]

unfoldable pub build : World → Entity → Account → Vec2 → World
build w e a pos =
    let w1 = set_account w e a in
    let w2 : World = elim (w1.body_mass e) [
      | none ↦ w1
      | some m ↦ record w1 { body_mass = update w1.body_mass e (fmax a.physical.mass least_mass) }
    ] in
    queue w2 (spawn_structure pos fabricate_mass_cost fabricate_energy_cost)

module _ (geo : Geometry) where
  unfoldable pub apply_fabricator : World → Entity → ActionTensor → Vec2 → World
  apply_fabricator w e action pos = elim (w.fabricate e) [
    | none ↦ w
    | some remaining ↦
        let (cooldown, built) = drive_fabricator action (account_of w e) remaining in
        let w' = record w { fabricate = update w.fabricate e cooldown } in
        elim built [ none ↦ w' | some a ↦ build w' e a (geo.right_of pos) ]
  ]

  -- `spatial` is the query of the spatial hash with a radius of 12.0.
  unfoldable pub apply_one : (Vec2 → List Entity) → World → Entity → ActionTensor → World
  apply_one spatial w e action = elim (w.position e) [
    | none ↦ w
    | some pos ↦
        let w1 = apply_oscillator w e action in
        let w2 = apply_clamp w1 e action (nearest_neighbor geo w1 e pos (spatial pos)) in
        apply_fabricator w2 e action pos
  ]

  unfoldable pub apply_actuators :
      (Vec2 → List Entity) → World → List (Entity × ActionTensor) → World
  apply_actuators spatial w [] = w
  apply_actuators spatial w ((e, action) ∷ items) =
      apply_actuators spatial (apply_one spatial w e action) items
