-- ===== src/Core/Ledger/Tests.antt =====
-- Runs of the ledger.
use ertw.Float.Round.{round_runs}
use ertw.Float.Arith.{float_runs}
use ertw.Core.Components.{transferred, harvested, actuation, default_ledger}
use ertw.Core.Ledger.History.{
  debiting, debiting_exactly, run-Grows, Grows, crediting, apply, IsLedger, run_reserve,
  Transaction, run,
}
use ertw.Core.Ledger.Laws.{total}
use ertw.Float.Order.{lt, fmin, fmax, IsNonneg}
use ertw.Common.{refl, ◌≡◌, [], ◌∷◌, arith, List}
use ertw.Core.Ledger.{
  is_debit, is_credit, valid_energy_amount, debit_available, debit_exact, credit, Account,
}

abbrev node : Account
node = record {
  physical = record { mass = 0x3f800000; structure = 0x3f800000; energy = 0x41200000 };
  ledger = default_ledger;
}

-- Harvest 1.5, spend 3.0 if there is as much, and pay 100.0 as far as it goes.
abbrev history : List Transaction
history =
    crediting harvested 0x3fc00000
    ∷ debiting_exactly actuation 0x40400000
    ∷ debiting transferred 0x42c80000
    ∷ []

run_reserve_example : IsNonneg (run history node).physical.energy
run_reserve_example =
    run_reserve history node ((refl, omega arith), ((refl, omega arith), ((refl, omega arith), tt)))
      (omega arith)

node-IsLedger : IsLedger node.ledger
unfolding total
node-IsLedger flow = ground arith

run-Grows_example :
    IsNonneg (total (run history node).ledger actuation)
    × Grows node.ledger (run history node).ledger actuation
run-Grows_example =
    run-Grows history node actuation (omega arith, (omega arith, (omega arith, tt))) (omega arith)
      node-IsLedger

-- 8.5 is left after the first two, and all of it is transferred.
spent : (run history node).physical.energy ≡ 0
unfolding run apply credit debit_exact debit_available valid_energy_amount is_credit is_debit fmax
    fmin float_runs round_runs lt
spent = refl
