-- ===== src/Core/Lineage/Ripe.antt =====
-- How long after a birth the next one is due.
use ertw.Float.Round.{round_runs}
use ertw.Float.Arith.{add, float_runs}
use ertw.Float.Order.{le, lt, fmax}
use ertw.Core.Actuation.{fixed_dt}
use ertw.Core.Ledger.{Account}
use ertw.Core.Components.{ReproductionState}
use ertw.Core.Lineage.{ripen, cool, spent, is_eligible, reproduction_surplus_seconds}
use ertw.Core.Lineage.Birth.{IsAble}
use ertw.Common.{
  ℕ, Bool, not, ◌≡◌, zero, suc, if◌then◌else◌, List, [], ◌∷◌, All, length, replicate, ◌++◌, true,
  false, refl, arith, ap, ◌∙◌,
}

-- Whether a birth is due at each step, for the accounts that the agent has at the steps.
unfoldable pub ripens : List Account → ReproductionState → List Bool
ripens [] r = []
ripens (a ∷ accounts) r = (ripen a r).1 ∷ ripens accounts (ripen a r).0

-- The same for an agent that is always able.
unfoldable ripen_able : ReproductionState → ReproductionState × Bool
ripen_able state =
    let r = cool state in
    if le r.cooldown_seconds 0
    then (let s = add r.surplus_seconds fixed_dt in
        (record r { surplus_seconds = s }, not (lt s reproduction_surplus_seconds)))
    else (record r { surplus_seconds = 0 }, false)

unfoldable dues : ℕ → ReproductionState → List Bool
dues zero r = []
dues (suc n) r = (ripen_able r).1 ∷ dues n (ripen_able r).0

able-eq : (a : Account) (r : ReproductionState) → IsAble a → ripen a r ≡ ripen_able r
unfolding ripen ripen_able is_eligible
able-eq a r h = ground (arith, h.0, h.1)

ripens-dues :
    (accounts : List Account) (r : ReproductionState)
    → All IsAble accounts
    → ripens accounts r ≡ dues (length accounts) r
unfolding ripens dues
ripens-dues [] r h = refl
ripens-dues (a ∷ accounts) r h =
    rw (able-eq a r (h.0))
      (ap (λ l. (ripen_able r).1 ∷ l) (ripens-dues accounts (ripen_able r).0 (h.1)))

twenty_five_seconds : dues 1500 spent ≡ replicate 1499 false ++ (true ∷ [])
unfolding dues ripen_able cool float_runs round_runs lt le fmax
twenty_five_seconds = refl

-- For an agent that has the energy and the mass for a child at every step after a birth, the next birth
-- is due at the 1500th step, 25 seconds later, and not before.
pub ripens_able :
    (accounts : List Account)
    → All IsAble accounts
    → length accounts ≡ 1500
    → ripens accounts spent ≡ replicate 1499 false ++ (true ∷ [])
ripens_able accounts h e =
    ripens-dues accounts spent h ∙ ap (λ (n : ℕ). dues n spent) e ∙ twenty_five_seconds
