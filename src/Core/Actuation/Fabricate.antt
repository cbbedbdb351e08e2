-- ===== src/Core/Actuation/Fabricate.antt =====
-- What a fabrication costs.
use ertw.Float.Laws.{sub-IsNonneg}
use ertw.Core.Ledger.Laws.{total}
use ertw.Core.Components.{fabrication}
use ertw.Common.{
  ◌∙◌, ◌≤◌, sym, inr, inl, ◌⊎◌, none, arith, false, refl, if◌then◌else◌, true, ◌&&◌, ◌≡◌, some,
  Bool,
}
use ertw.Float.Arith.{add, sub}
use ertw.Core.Actuation.{
  fabricate_cooldown, tick, fabricate_mass_cost, half, fabricate_energy_cost, drive_fabricator,
}
use ertw.Float.Order.{IsReserve, magnitude, IsNonneg, lt, fmax, F32, le}
use ertw.Core.Ledger.{record_flow, is_debit, debit_exact, valid_energy_amount, Account}
use ertw.Interface.Action.{ActionTensor}

-- A structure is built exactly where the agent asks for one, the cooldown has run out and the agent
-- holds its price.
unfoldable pub is_funded : ActionTensor → Account → F32 → Bool
is_funded action a remaining =
    lt half action.fabricate
    && le (tick remaining) 0
    && le fabricate_energy_cost a.physical.energy
    && le fabricate_mass_cost a.physical.mass

-- The account after the purchase.
abbrev pub bought : Account → Account
bought a = record {
  physical = record (a.physical) {
    energy = sub a.physical.energy fabricate_energy_cost;
    mass = sub a.physical.mass fabricate_mass_cost;
  };
  ledger = record_flow a.ledger fabrication fabricate_energy_cost;
}

price_finite : valid_energy_amount fabricate_energy_cost ≡ fabricate_energy_cost
unfolding valid_energy_amount fmax
price_finite = refl

affords : (e : F32) → le fabricate_energy_cost e ≡ true → lt e fabricate_energy_cost ≡ false
unfolding le lt
affords e h = ground arith

debit_price :
    (a : Account)
    → le fabricate_energy_cost a.physical.energy ≡ true
    → debit_exact a fabrication fabricate_energy_cost ≡ (
      record {
        physical = record (a.physical) { energy = sub a.physical.energy fabricate_energy_cost };
        ledger = record_flow a.ledger fabrication fabricate_energy_cost;
      },
      true,
    )
unfolding debit_exact is_debit
debit_price a h = rw (price_finite, affords a.physical.energy h) refl

le-cases : (x y : F32) → (le x y ≡ true) ⊎ (le x y ≡ false)
le-cases x y = ground arith

-- An agent with an account pays for a structure, 3.0 of energy and 0.5 of mass, exactly where it asks
-- for one, the cooldown has run out and it holds the price; the cooldown then starts again. Otherwise
-- nothing is built and the cooldown ticks.
pub drive_fabricator_lem :
    (action : ActionTensor) (a : Account) (remaining : F32)
    → drive_fabricator action (some a) remaining ≡ (
        if is_funded action a remaining
        then (fabricate_cooldown, some (bought a))
        else (tick remaining, none))
unfolding drive_fabricator is_funded
drive_fabricator_lem action a remaining = elim (le-cases fabricate_energy_cost a.physical.energy) [
  | inl h ↦ rw (debit_price a h) (ground arith)
  | inr h ↦ ground arith
]

funded-le :
    (action : ActionTensor) (a : Account) (remaining : F32)
    → IsNonneg a.physical.energy
    → IsNonneg a.physical.mass
    → is_funded action a remaining ≡ true
    → (magnitude fabricate_energy_cost ≤ magnitude a.physical.energy)
      × (magnitude fabricate_mass_cost ≤ magnitude a.physical.mass)
unfolding is_funded le
funded-le action a remaining he hm h = ground arith

built-bought :
    (action : ActionTensor) (a a' : Account) (remaining cooldown : F32)
    → drive_fabricator action (some a) remaining ≡ (cooldown, some a')
    → (is_funded action a remaining ≡ true) × (a' ≡ bought a)
built-bought action a a' remaining cooldown h =
    let e = sym (drive_fabricator_lem action a remaining) ∙ h in ground arith

-- Where the energy and the mass are not below zero, an agent that paid for a structure has both not
-- below zero, and its ledger shows the energy as invested in fabrication.
pub drive_fabricator_reserve :
    (action : ActionTensor) (a a' : Account) (remaining cooldown : F32)
    → IsNonneg a.physical.energy
    → IsNonneg a.physical.mass
    → drive_fabricator action (some a) remaining ≡ (cooldown, some a')
    → IsNonneg a'.physical.energy
      × IsNonneg a'.physical.mass
      × (total a'.ledger fabrication ≡ add (total a.ledger fabrication) fabricate_energy_cost)
unfolding total record_flow
drive_fabricator_reserve action a a' remaining cooldown he hm h =
    let b = built-bought action a a' remaining cooldown h in
    let l = funded-le action a remaining he hm b.0 in
    let price : IsReserve fabricate_energy_cost = omega arith in
    let weight : IsReserve fabricate_mass_cost = omega arith in
    rw (b.1) (
      (sub-IsNonneg a.physical.energy fabricate_energy_cost he price l.0).0,
      (sub-IsNonneg a.physical.mass fabricate_mass_cost hm weight l.1).0,
      refl,
    )
