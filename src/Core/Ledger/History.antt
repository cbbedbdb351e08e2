-- ===== src/Core/Ledger/History.antt =====
-- Transactions as data, so that a node's history is a list of them, and what holds of a history.
use ertw.Float.Laws.{sub-lt, add-lt, sub-IsNonneg, add-IsNonneg}
use ertw.Core.Ledger.Laws.{available-le, valid_energy_amount-IsReserve, record_flow-IsNonneg, total}
use ertw.Core.Ledger.{drain, debit_available, debit_exact, credit, valid_energy_amount, Account}
use ertw.Float.Order.{fmax, fmin, IsReserve, magnitude, IsNonneg, F32}
use ertw.Core.Components.{dissipated, EnergyLedger, EnergyFlow}
use ertw.Common.{[], ◌≤◌, ◌≡◌, arith, true, All, ◌^◌, false, ◌<◌, Bool, List, ◌∷◌}

-- One call of a method of `EnergyLedger` on a node.

pub data Transaction : Type 0 where
  crediting debiting_exactly debiting : EnergyFlow → F32 → Transaction
  draining : F32 → Transaction

abbrev pub requested : Transaction → F32
requested (crediting f a) = a
requested (debiting_exactly f a) = a
requested (debiting f a) = a
requested (draining a) = a

unfoldable pub apply : Transaction → Account → Account
apply (crediting f a) s = (credit s f a).0
apply (debiting_exactly f a) s = (debit_exact s f a).0
apply (debiting f a) s = (debit_available s f a).0
apply (draining a) s = (drain s a).0

unfoldable pub run : List Transaction → Account → Account
run [] s = s
run (t ∷ ts) s = run ts (apply t s)

-- The environment's drain alone may take the reserve below zero.
abbrev pub is_voluntary : Transaction → Bool
is_voluntary (draining a) = false
is_voluntary _ = true

abbrev pub IsRequest : Transaction → Type 0
IsRequest t = requested t < 2 ^ 32

-- No account of the ledger is below zero.
abbrev pub IsLedger : EnergyLedger → Type 0
IsLedger l = (flow : EnergyFlow) → IsNonneg (total l flow)

-- One ledger's accounts are at least the other's.
abbrev pub Grows : EnergyLedger → EnergyLedger → EnergyFlow → Type 0
Grows l l' flow = magnitude (total l flow) ≤ magnitude (total l' flow)

reserve-IsNonneg : (a : F32) → IsReserve a → IsNonneg a
reserve-IsNonneg a h = omega arith

available-IsReserve :
    (e a : F32) → a < 2 ^ 32 → e < 2 ^ 32 → IsReserve (fmin (valid_energy_amount a) (fmax e 0))
unfolding valid_energy_amount fmin fmax
available-IsReserve e a h he = ground arith

apply-lt :
    (t : Transaction) (s : Account)
    → IsRequest t
    → s.physical.energy < 2 ^ 32
    → (apply t s).physical.energy < 2 ^ 32
unfolding apply credit debit_exact debit_available drain
apply-lt (crediting f a) s h e =
    ground
      (arith, valid_energy_amount-IsReserve a, add-lt s.physical.energy (valid_energy_amount a))
apply-lt (debiting_exactly f a) s h e =
    ground
      (arith, valid_energy_amount-IsReserve a, sub-lt s.physical.energy (valid_energy_amount a))
apply-lt (debiting f a) s h e = ground (
  arith,
  available-IsReserve s.physical.energy a,
  sub-lt s.physical.energy (fmin (valid_energy_amount a) (fmax s.physical.energy 0)),
)
apply-lt (draining a) s h e =
    ground
      (arith, valid_energy_amount-IsReserve a, sub-lt s.physical.energy (valid_energy_amount a))

-- Whatever the transaction, the accounts stay at or above zero and do not shrink.
apply-Grows :
    (t : Transaction) (s : Account)
    → IsRequest t
    → s.physical.energy < 2 ^ 32
    → IsLedger s.ledger
    → (flow : EnergyFlow)
    → IsNonneg (total (apply t s).ledger flow) × Grows s.ledger (apply t s).ledger flow
unfolding apply credit debit_exact debit_available drain
apply-Grows (crediting f a) s h e l g = ground (
  arith,
  l g,
  record_flow-IsNonneg s.ledger f (valid_energy_amount a)
      (reserve-IsNonneg _ (valid_energy_amount-IsReserve a h)) l g,
)
apply-Grows (debiting_exactly f a) s h e l g = ground (
  arith,
  l g,
  record_flow-IsNonneg s.ledger f (valid_energy_amount a)
      (reserve-IsNonneg _ (valid_energy_amount-IsReserve a h)) l g,
)
apply-Grows (debiting f a) s h e l g = ground (
  arith,
  l g,
  record_flow-IsNonneg s.ledger f (fmin (valid_energy_amount a) (fmax s.physical.energy 0))
      (reserve-IsNonneg _ (available-IsReserve s.physical.energy a h e)) l g,
)
apply-Grows (draining a) s h e l g = ground (
  arith,
  l g,
  record_flow-IsNonneg s.ledger dissipated (valid_energy_amount a)
      (reserve-IsNonneg _ (valid_energy_amount-IsReserve a h)) l g,
)

-- A voluntary transaction keeps the reserve at or above zero.
apply_reserve :
    (t : Transaction) (s : Account)
    → is_voluntary t ≡ true
    → IsRequest t
    → IsNonneg s.physical.energy
    → IsNonneg (apply t s).physical.energy
unfolding apply credit debit_exact debit_available
apply_reserve (crediting f a) s v h e =
    ground (
      arith,
      add-IsNonneg s.physical.energy (valid_energy_amount a),
      valid_energy_amount-IsReserve a,
    )
apply_reserve (debiting_exactly f a) s v h e =
    ground (
      arith,
      valid_energy_amount-IsReserve a,
      sub-IsNonneg s.physical.energy (valid_energy_amount a),
    )
apply_reserve (debiting f a) s v h e = ground (
  arith,
  available-le s.physical.energy a,
  sub-IsNonneg s.physical.energy (fmin (valid_energy_amount a) (fmax s.physical.energy 0)),
)
apply_reserve (draining a) s v h e = cc

-- Over any history of requests that are 32-bit patterns, on a ledger with no account below zero,
-- every account ends no lower than it began, and not below zero.
pub run-Grows :
    (ts : List Transaction) (s : Account) (flow : EnergyFlow)
    → All IsRequest ts
    → s.physical.energy < 2 ^ 32
    → IsLedger s.ledger
    → IsNonneg (total (run ts s).ledger flow) × Grows s.ledger (run ts s).ledger flow
unfolding run
run-Grows [] s flow h e l = (l flow, omega arith)
run-Grows (t ∷ ts) s flow h e l =
    let one = apply-Grows t s h.0 e l in
    let rest = run-Grows ts (apply t s) flow h.1 (apply-lt t s h.0 e) (λ g. (one g).0) in
    (rest.0, omega (arith, rest.1, (one flow).1))

-- Over a history of transactions other than the environment's drain, whose requests are 32-bit
-- patterns, NaN and infinities among them, a reserve that starts at or above zero never ends below.
pub run_reserve :
    (ts : List Transaction) (s : Account)
    → All (λ t. (is_voluntary t ≡ true) × IsRequest t) ts
    → IsNonneg s.physical.energy
    → IsNonneg (run ts s).physical.energy
unfolding run
run_reserve [] s h e = e
run_reserve (t ∷ ts) s h e = run_reserve ts (apply t s) h.1 (apply_reserve t s h.0.0 h.0.1 e)
