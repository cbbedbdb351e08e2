-- ===== src/Core/Lineage/Birth.antt =====
-- What a birth takes from the parent and gives to the child.
use ertw.Core.Components.{ReproductionState, offspring}
use ertw.Float.Arith.{add, sub}
use ertw.Float.Order.{fmax, lt, le}
use ertw.Core.Registry.Spawn.{AgentBundle}
use ertw.Core.World.{Geometry}
use ertw.Core.Registry.{register, spawn_registered, Agent, WorldAgents}
use ertw.Core.Tags.{agent, clamp_capable, oscillator, empty, has, with_flag}
use ertw.Core.Rng.{Rng}
use ertw.Core.Lineage.{
  reproduction_mass_cost, answer, child_seed, reproduce_one, is_eligible, ripen, bear, child_marker,
  spent, reproduction_energy_cost, mutate_tuning, child_of, after_birth,
  reproduction_energy_threshold, give_birth, Parent,
}
use ertw.Core.Ledger.{Account, record_flow, valid_energy_amount, is_debit, debit_exact}
use ertw.Common.{◌⊎◌, inr, inl, Bool-cases, ℕ, ◌≡◌, true, refl, arith, some, none, Option}

-- A reserve above the threshold pays for a child.
pub paid_for :
    (a : Account)
    → le reproduction_energy_threshold a.physical.energy ≡ true
    → debit_exact a offspring reproduction_energy_cost ≡ (
      record {
        physical = record (a.physical) { energy = sub a.physical.energy reproduction_energy_cost };
        ledger = record_flow a.ledger offspring reproduction_energy_cost;
      },
      true,
    )
unfolding debit_exact is_debit valid_energy_amount le lt fmax
paid_for a h = ground (arith, h)

-- 32.0 of energy and 2.0 of mass.
abbrev pub IsAble : Account → Type 0
IsAble a =
    (le reproduction_energy_threshold a.physical.energy ≡ true)
    × (le (add reproduction_mass_cost 0x3f000000) a.physical.mass ≡ true)

-- The parent and the registry after its step, and the child.
abbrev pub IsBirth :
    {S : Type 0} → Parent → WorldAgents S → Parent × WorldAgents S × Option AgentBundle → Type 0
IsBirth p agents (p', agents', none) = (p'.account ≡ p.account) × (p'.body_mass ≡ p.body_mass)
IsBirth p agents (p', agents', some child) =
    IsAble p.account
    × (child.physical.energy ≡ reproduction_energy_cost)
    × (child.physical.mass ≡ reproduction_mass_cost)
    × (p'.account.physical.energy ≡ sub p.account.physical.energy child.physical.energy)
    × (p'.account.physical.mass ≡ sub p.account.physical.mass child.physical.mass)
    × (p'.account.physical.structure ≡ p.account.physical.structure)
    × (p'.account.ledger ≡ record_flow p.account.ledger offspring child.physical.energy)
    × (p'.reproduction ≡ spent)
    × (child.marker ≡ child_marker p.marker agents.next_id)
    × ((f : ℕ)
        → has child.tags f
          ≡ has (with_flag (with_flag (with_flag empty agent) clamp_capable) oscillator) f)

module _ (rng : Rng) (geo : Geometry) (step : ℕ) where
  give_birth-IsBirth :
      {S : Type 0} (agents agents' : WorldAgents S) (p : Parent) (seed : ℕ)
      → IsAble p.account
      → (let r = give_birth rng geo step p (agents.next_id) seed in
          IsBirth p agents (r.0, agents', r.1))
  unfolding give_birth after_birth child_of mutate_tuning with_flag has
  give_birth-IsBirth agents agents' p seed h =
      rw (paid_for p.account (h.0)) (h, refl, refl, refl, refl, refl, refl, refl, refl, λ f. refl)

  answer-IsBirth :
      {S : Type 0} (agents : WorldAgents S) (p : Parent) (seed : ℕ) (r : WorldAgents S × Option ℕ)
      → IsAble p.account
      → (r.1 ≡ none) ⊎ (r.1 ≡ some (agents.next_id))
      → IsBirth p agents (answer rng geo step p seed r)
  unfolding answer
  answer-IsBirth agents p seed (agents', none) h c = (refl, refl)
  answer-IsBirth agents p seed (agents', some id) h (inl e) = absurd (cc)
  answer-IsBirth agents p seed (agents', some id) h (inr e) =
      let q : id ≡ agents.next_id = ground (arith, e) in
      rw q (give_birth-IsBirth agents agents' p seed h)

  spawned :
      (trait : Agent) (agents : WorldAgents (trait.State)) (parent seed : ℕ)
      → (let r = spawn_registered trait agents parent seed in
          (r.1 ≡ none) ⊎ (r.1 ≡ some (agents.next_id)))
  unfolding spawn_registered register
  spawned trait agents parent seed = ground arith

  bear-IsBirth :
      (trait : Agent) (agents : WorldAgents (trait.State)) (p : Parent)
      → IsAble p.account
      → IsBirth p agents (bear rng trait geo step p agents)
  unfolding bear
  bear-IsBirth trait agents p h =
      answer-IsBirth agents p _ _ h
        (spawned trait agents p.marker.controller (child_seed p.node_rng step))

due-IsAble : (a : Account) (r : ReproductionState) → (ripen a r).1 ≡ true → IsAble a
unfolding ripen is_eligible
due-IsAble a r h = (ground (arith, h), ground (arith, h))

module _ (rng : Rng) (trait : Agent) (geo : Geometry) (step : ℕ) where
  -- In a step an agent gives birth or keeps its mass and its reserve. A birth takes a reserve of 32
  -- or more, takes from the parent the very energy and mass that the child has, records the energy
  -- as invested in offspring, starts the cooldown, and gives the child the parent's lineage and the
  -- next controller, and
  -- just the three flags of an agent.
  pub reproduce_one-IsBirth :
      (p : Parent) (agents : WorldAgents (trait.State))
      → IsBirth p agents (reproduce_one rng trait geo step p agents)
  unfolding reproduce_one
  reproduce_one-IsBirth p agents = elim (Bool-cases (ripen p.account p.reproduction).1) [
    | inl e ↦ rw e (
        bear-IsBirth rng geo step trait agents
          (record p { reproduction = (ripen p.account p.reproduction).0 })
          (due-IsAble p.account p.reproduction e))
    | inr e ↦ rw e (refl, refl)
  ]
