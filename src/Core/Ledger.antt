-- ===== src/Core/Ledger.antt =====
-- crates/ertw_core/src/components.rs: the transactions of `EnergyLedger`. A method takes the ledger
-- and the node's `Physical`, both mutably, so it maps an account, the pair of them, to the new one.
pub mod Laws
pub mod History
mod Tests
use ertw.Common.{ℕ, Bool, true, false, not, ◌||◌, if◌then◌else◌}
use ertw.Float.Order.{F32, is_finite, lt, fmax, fmin}
use ertw.Float.Arith.{add, sub}
use ertw.Core.Components.{
  Physical, EnergyLedger, EnergyFlow, harvested, consumed, vented, dissipated, actuation,
  fabrication, offspring, transferred,
}

pub record Account : Type 0 where
  pub physical : Physical
  pub ledger : EnergyLedger

unfoldable pub valid_energy_amount : F32 → F32
valid_energy_amount amount = if is_finite amount then fmax amount 0 else 0

unfoldable pub is_debit : EnergyFlow → Bool
is_debit dissipated = true
is_debit actuation = true
is_debit fabrication = true
is_debit offspring = true
is_debit transferred = true
is_debit _ = false

-- The pattern of `credit`'s early return.
unfoldable pub is_credit : EnergyFlow → Bool
is_credit harvested = true
is_credit consumed = true
is_credit vented = true
is_credit _ = false

-- `EnergyLedger::record`.
unfoldable pub record_flow : EnergyLedger → EnergyFlow → F32 → EnergyLedger
record_flow l harvested a = record l { harvested = add l.harvested a }
record_flow l consumed a = record l { consumed_from_others = add l.consumed_from_others a }
record_flow l vented a = record l { vented = add l.vented a }
record_flow l dissipated a = record l { dissipated = add l.dissipated a }
record_flow l actuation a = record l { spent_on_actuation = add l.spent_on_actuation a }
record_flow l fabrication a = record l { invested_in_fabrication = add l.invested_in_fabrication a }
record_flow l offspring a = record l { invested_in_offspring = add l.invested_in_offspring a }
record_flow l transferred a = record l { transferred_out = add l.transferred_out a }

-- `physical.energy += amount` and `-= amount`, with the record of the flow.
abbrev deposit : Account → EnergyFlow → F32 → Account
deposit s flow a = record {
  physical = record (s.physical) { energy = add s.physical.energy a };
  ledger = record_flow s.ledger flow a;
}

abbrev withdraw : Account → EnergyFlow → F32 → Account
withdraw s flow a = record {
  physical = record (s.physical) { energy = sub s.physical.energy a };
  ledger = record_flow s.ledger flow a;
}

unfoldable pub credit : Account → EnergyFlow → F32 → Account × F32
unfolding is_credit
credit s flow amount =
    if not (is_credit flow)
    then (s, 0)
    else let a = valid_energy_amount amount in (deposit s flow a, a)

unfoldable pub debit_exact : Account → EnergyFlow → F32 → Account × Bool
unfolding is_debit lt
debit_exact s flow amount =
    let a = valid_energy_amount amount in
    if not (is_debit flow) || lt s.physical.energy a then (s, false) else (withdraw s flow a, true)

unfoldable pub debit_available : Account → EnergyFlow → F32 → Account × F32
unfolding is_debit
debit_available s flow amount =
    if not (is_debit flow)
    then (s, 0)
    else let a = fmin (valid_energy_amount amount) (fmax s.physical.energy 0) in
      (withdraw s flow a, a)

unfoldable pub drain : Account → F32 → Account × F32
drain s amount = let a = valid_energy_amount amount in (withdraw s dissipated a, a)
