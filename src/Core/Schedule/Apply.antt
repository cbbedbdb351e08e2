-- ===== src/Core/Schedule/Apply.antt =====
-- Acting is paid for, and takes no reserve below zero.
use ertw.Float.Order.{lt}
use ertw.Float.Arith.{sub}
use ertw.Float.Laws.{mul-lt}
use ertw.Core.Ledger.{record_flow, valid_energy_amount, Account, is_debit, debit_exact}
use ertw.Interface.Action.{ActionTensor}
use ertw.Core.Components.{actuation, Entity}
use ertw.Core.World.{set_account, account_of, World}
use ertw.Core.Schedule.{
  push_of, no_push, Push, apply_agent_actions, apply_item, pay_push, action_cost,
}
use ertw.Common.{
  ◌∙◌, inr, Bool-cases, sym, inl, ◌⊎◌, Option, ◌≡◌, refl, arith, true, false, Bool, List, [], ◌∷◌,
  some, none, ◌<◌, ◌^◌,
}
use ertw.Core.World.Accounts.{
  account_of-set_account, IsFunded, debit_exact_reserve, set_account-IsFunded, funded_account,
}

action_cost-lt : (action : ActionTensor) → action_cost action < 2 ^ 32
unfolding action_cost
action_cost-lt action = mul-lt _ _

-- A push is a paid one, by which the reserve goes down by the cost, or none at all, and then the
-- account is what it was.
abbrev pub IsPaid : World → Entity → ActionTensor → World × Push → Type 0
IsPaid w e action (w', push) =
    ((push ≡ no_push e)
      × (account_of w' e ≡ account_of w e)
      × ((account_of w e ≡ none)
          ⊎ ((a : Account) × (account_of w e ≡ some a)
              × (lt a.physical.energy (valid_energy_amount (action_cost action)) ≡ true))))
    ⊎ ((push ≡ push_of e action)
        × ((a : Account) × (account_of w e ≡ some a)
            × (account_of w' e
                ≡ some (record {
                  physical = record (a.physical) {
                    energy = sub a.physical.energy (valid_energy_amount (action_cost action));
                  };
                  ledger =
                      record_flow a.ledger actuation (valid_energy_amount (action_cost action));
                }))
            × (lt a.physical.energy (valid_energy_amount (action_cost action)) ≡ false)))

pay_push-IsFunded :
    (w : World) (e : Entity) (action : ActionTensor) (o : Option Account)
    → o ≡ account_of w e
    → IsFunded w
    → IsFunded (pay_push w e action o).0
unfolding pay_push
pay_push-IsFunded w e action none h f = f
pay_push-IsFunded w e action (some a) h f = set_account-IsFunded w e _ f (
    debit_exact_reserve a actuation (action_cost action) (action_cost-lt action)
      (funded_account w e a f (sym h)))

account_of_self : (w : World) (e : Entity) (a : Account) → account_of (set_account w e a) e ≡ some a
account_of_self w e a = account_of-set_account w e e a ∙ ground arith

pay_push_on-IsPaid :
    (w : World) (e : Entity) (action : ActionTensor) (o : Option Account)
    → account_of w e ≡ o
    → IsPaid w e action (pay_push w e action o)
unfolding pay_push debit_exact is_debit
pay_push_on-IsPaid w e action none h = inl (refl, refl, inl h)
pay_push_on-IsPaid w e action (some a) h =
    elim (Bool-cases (lt a.physical.energy (valid_energy_amount (action_cost action)))) [
      | inl k ↦ rw k (inl (refl, account_of_self w e a ∙ sym h, inr (a, h, k)))
      | inr k ↦ rw k (inr (refl, (a, h, account_of_self w e _, k)))
    ]

-- An agent pushes its body exactly where its reserve covers the cost; a push that is not paid for
-- leaves its account as it was.
pub pay_push-IsPaid :
    (w : World) (e : Entity) (action : ActionTensor)
    → IsPaid w e action (pay_push w e action (account_of w e))
pay_push-IsPaid w e action = pay_push_on-IsPaid w e action (account_of w e) refl

module _ (has_body : Entity → Bool) where
  apply_item-IsFunded :
      (s : World × List Push) (item : Entity × ActionTensor)
      → IsFunded (s.0)
      → IsFunded (apply_item has_body s item).0
  unfolding apply_item
  apply_item-IsFunded (w, pushes) (e, action) f =
      pay_push-IsFunded w e action (account_of w e) refl f

  -- Where no reserve is below zero, none is after all actions of a step are paid for.
  pub apply_agent_actions-IsFunded :
      (items : List (Entity × ActionTensor)) (s : World × List Push)
      → IsFunded (s.0)
      → IsFunded (apply_agent_actions has_body items s).0
  unfolding apply_agent_actions
  apply_agent_actions-IsFunded [] s f = f
  apply_agent_actions-IsFunded (item ∷ items) s f =
      apply_agent_actions-IsFunded items _ (apply_item-IsFunded s item f)
