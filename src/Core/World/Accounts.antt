-- ===== src/Core/World/Accounts.antt =====
-- Reading an account after writing one, and the worlds in which no reserve is below zero.
use ertw.Float.Laws.{sub-IsNonneg, add-IsNonneg}
use ertw.Core.Ledger.Laws.{available-le, valid_energy_amount-IsReserve}
use ertw.Float.Order.{fmax, fmin, magnitude, IsReserve, F32, IsNonneg}
use ertw.Common.{false, ◌≤◌, ◌^◌, arith, ◌<◌, ◌∙◌, ◌==◌, some, if◌then◌else◌, ◌≡◌}
use ertw.Core.Components.{Physical, EnergyFlow, Entity}
use ertw.Core.Ledger.{valid_energy_amount, Account, debit_exact, credit, debit_available}
use ertw.Core.World.{set_account, World, account_of}

pub account_of-set_account :
    (w : World) (e j : Entity) (a : Account)
    → account_of (set_account w e a) j ≡ (if e == j then some a else account_of w j)
unfolding account_of set_account
account_of-set_account w e j a = ground arith

-- Two nodes' accounts, one written after the other.
pub both_accounts :
    (w : World) (e j : Entity) (a b : Account)
    → (e == j) ≡ false
    → (account_of (set_account (set_account w e a) j b) e ≡ some a)
      × (account_of (set_account (set_account w e a) j b) j ≡ some b)
both_accounts w e j a b h = (
  account_of-set_account (set_account w e a) j e b ∙ ground (arith, account_of-set_account w e e a),
  account_of-set_account (set_account w e a) j j b ∙ ground arith,
)

-- No node's reserve is below zero.
abbrev pub IsFunded : World → Type 0
IsFunded w = (e : Entity) (p : Physical) → w.physical e ≡ some p → IsNonneg p.energy

account-physical :
    (w : World) (e : Entity) (a : Account)
    → account_of w e ≡ some a
    → w.physical e ≡ some a.physical
unfolding account_of
account-physical w e a h = ground arith

pub funded_account :
    (w : World) (e : Entity) (a : Account)
    → IsFunded w
    → account_of w e ≡ some a
    → IsNonneg a.physical.energy
funded_account w e a f h = f e a.physical (account-physical w e a h)

pub set_account-IsFunded :
    (w : World) (e : Entity) (a : Account)
    → IsFunded w
    → IsNonneg a.physical.energy
    → IsFunded (set_account w e a)
unfolding set_account
set_account-IsFunded w e a f n j p h = ground (arith, f j p)

-- A debit of what is available and the credit of what was taken, both on reserves not below zero.
pub debit_available-IsReserve :
    (s : Account) (flow : EnergyFlow) (amount : F32)
    → amount < 2 ^ 32
    → IsNonneg s.physical.energy
    → IsNonneg (debit_available s flow amount).0.physical.energy
      × IsReserve (debit_available s flow amount).1
      × (magnitude (debit_available s flow amount).1 ≤ magnitude s.physical.energy)
unfolding debit_available
debit_available-IsReserve s flow amount h n = ground (
  arith,
  available-le s.physical.energy amount,
  sub-IsNonneg s.physical.energy (fmin (valid_energy_amount amount) (fmax s.physical.energy 0)),
)

pub credit_reserve :
    (s : Account) (flow : EnergyFlow) (amount : F32)
    → amount < 2 ^ 32
    → IsNonneg s.physical.energy
    → IsNonneg (credit s flow amount).0.physical.energy
unfolding credit
credit_reserve s flow amount h n = ground (
  arith,
  valid_energy_amount-IsReserve amount h,
  add-IsNonneg s.physical.energy (valid_energy_amount amount),
)

pub debit_exact_reserve :
    (s : Account) (flow : EnergyFlow) (amount : F32)
    → amount < 2 ^ 32
    → IsNonneg s.physical.energy
    → IsNonneg (debit_exact s flow amount).0.physical.energy
unfolding debit_exact
debit_exact_reserve s flow amount h n = ground (
  arith,
  valid_energy_amount-IsReserve amount h,
  sub-IsNonneg s.physical.energy (valid_energy_amount amount),
)
