-- ===== src/Core/Ledger/Laws.antt =====
-- What each transaction does to the reserve and to the eight accounts of the ledger.
use ertw.Float.Laws.{add-IsNonneg}
use mathlib.Core.Logic.{ite, if_pos, if_neg}
use ertw.Common.{◌≤◌, ◌^◌, ◌<◌, ◌≡◌, arith, ◌≢◌}
use ertw.Float.Order.{fmin, magnitude, F32, IsNonneg, IsReserve, fmax}
use ertw.Float.Arith.{add}
use ertw.Core.Components.{
  EnergyLedger, EnergyFlow, harvested, consumed, vented, dissipated, actuation, fabrication,
  offspring, transferred,
}
use ertw.Core.Ledger.{Account, valid_energy_amount, record_flow}

-- The account that a flow is recorded in.
unfoldable pub total : EnergyLedger → EnergyFlow → F32
total l harvested = l.harvested
total l consumed = l.consumed_from_others
total l vented = l.vented
total l dissipated = l.dissipated
total l actuation = l.spent_on_actuation
total l fabrication = l.invested_in_fabrication
total l offspring = l.invested_in_offspring
total l transferred = l.transferred_out

pub EnergyFlow-discrete : Discrete EnergyFlow
EnergyFlow-discrete = hlevel

-- The reserve and every account are not below zero.
pub record IsSolvent (s : Account) : Type 0 where
  pub reserve : IsNonneg s.physical.energy
  pub totals : (flow : EnergyFlow) → IsNonneg (total s.ledger flow)

pub valid_energy_amount-IsReserve : (a : F32) → a < 2 ^ 32 → IsReserve (valid_energy_amount a)
unfolding valid_energy_amount fmax
valid_energy_amount-IsReserve a h = ground arith

total-record_flow_self :
    (l : EnergyLedger) (f : EnergyFlow) (a : F32) → total (record_flow l f a) f ≡ add (total l f) a
unfolding total record_flow
total-record_flow_self l f a = ground arith

total-record_flow_ne :
    (l : EnergyLedger) (f g : EnergyFlow) (a : F32)
    → f ≢ g
    → total (record_flow l f a) g ≡ total l g
unfolding total record_flow
total-record_flow_ne l f g a h = ground arith

-- Recording a flow adds the amount to that flow's account and leaves the others.
pub total-record_flow :
    (l : EnergyLedger) (f g : EnergyFlow) (a : F32)
    → total (record_flow l f a) g ≡ ite (EnergyFlow-discrete f g) (add (total l g) a) (total l g)
total-record_flow l f g a = elim (EnergyFlow-discrete f g) [
  | yes e ↦ rw (if_pos _ e, ← e) (total-record_flow_self l f a)
  | no n ↦ rw (if_neg _ n) (total-record_flow_ne l f g a n)
]

pub record_flow-IsNonneg :
    (l : EnergyLedger) (f : EnergyFlow) (a : F32)
    → IsNonneg a
    → ((g : EnergyFlow) → IsNonneg (total l g))
    → (g : EnergyFlow)
    → IsNonneg (total (record_flow l f a) g)
      × (magnitude (total l g) ≤ magnitude (total (record_flow l f a) g))
record_flow-IsNonneg l f a ha h g = elim (EnergyFlow-discrete f g) [
  | yes e ↦
      rw (← e, total-record_flow_self l f a)
        (let r = add-IsNonneg (total l f) a (h f) ha in (r.0, r.1))
  | no n ↦ rw (total-record_flow_ne l f g a n) (h g, omega arith)
]

-- The amount that a debit takes: finite, and no more than the reserve.
pub available-le :
    (e a : F32)
    → IsNonneg e
    → a < 2 ^ 32
    → let t = fmin (valid_energy_amount a) (fmax e 0) in
      IsReserve t × (magnitude t ≤ magnitude e) × (magnitude t ≤ magnitude (valid_energy_amount a))
unfolding valid_energy_amount fmin fmax
available-le e a he h = ground arith
