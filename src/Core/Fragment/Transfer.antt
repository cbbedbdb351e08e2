-- ===== src/Core/Fragment/Transfer.antt =====
-- What killers gain, victims had.
use ertw.Float.Arith.{add, sub}
use ertw.Core.Ledger.{
  is_credit, is_debit, valid_energy_amount, credit, record_flow, debit_available, Account,
}
use ertw.Float.Order.{fmax, le, fmin, magnitude, IsNonneg, IsReserve, F32}
use ertw.Core.World.Accounts.{
  funded_account, both_accounts, credit_reserve, set_account-IsFunded, debit_available-IsReserve,
  IsFunded,
}
use ertw.Core.Components.{consumed, transferred, Entity}
use ertw.Core.World.{set_account, account_of, World}
use ertw.Common.{
  refl, arith, ◌||◌, if_both, none, false, ◌==◌, ◌≤◌, some, ◌≡◌, [], Option, ◌∷◌, All, ◌^◌, List,
  ◌<◌,
}
use ertw.Core.Fragment.{transfer_to, transfer_to_killers, transfer_one, pay, Queued}

-- The shares are f32 patterns.
abbrev pub IsShare : Queued → Type 0
IsShare q = q.share < 2 ^ 32

pay-IsFunded :
    (w : World) (victim killer : Entity) (share : F32) (v k : Option Account)
    → share < 2 ^ 32
    → account_of w victim ≡ v
    → account_of w killer ≡ k
    → IsFunded w
    → IsFunded (pay w victim killer share v k)
unfolding pay
pay-IsFunded w victim killer share none k h hv hk f = f
pay-IsFunded w victim killer share (some v) none h hv hk f = f
pay-IsFunded w victim killer share (some v) (some k) h hv hk f =
    let d = debit_available-IsReserve v transferred share h (funded_account w victim v f hv) in
    let r = debit_available v transferred share in
    set_account-IsFunded (set_account w victim r.0) killer (credit k consumed r.1).0
      (set_account-IsFunded w victim r.0 f d.0)
      (credit_reserve k consumed r.1 d.1.0 (funded_account w killer k f hk))

transfer_to-IsFunded :
    (w : World) (q : Queued) (killer : Option Entity)
    → IsShare q
    → IsFunded w
    → IsFunded (transfer_to w q killer)
unfolding transfer_to
transfer_to-IsFunded w q none h f = f
transfer_to-IsFunded w q (some k) h f =
    if_both IsFunded (le q.share 0 || (q.victim == k)) f
      (pay-IsFunded w q.victim k q.share (account_of w q.victim) (account_of w k) h refl refl f)

-- Where no reserve is below zero and the shares are 32-bit patterns, the transfers to the killers
-- leave no reserve below zero.
pub transfer_to_killers-IsFunded :
    (queue : List Queued) (w : World)
    → All IsShare queue
    → IsFunded w
    → IsFunded (transfer_to_killers queue w)
unfolding transfer_to_killers
transfer_to_killers-IsFunded [] w h f = f
transfer_to_killers-IsFunded (q ∷ queue) w h f =
    transfer_to_killers-IsFunded queue (transfer_one w q) h.1
      (transfer_to-IsFunded w q q.killer h.0 f)

whole :
    (share e : F32)
    → IsReserve share
    → IsNonneg e
    → magnitude share ≤ magnitude e
    → (valid_energy_amount share ≡ share) × (fmin share (fmax e 0) ≡ share)
unfolding valid_energy_amount fmin fmax
whole share e hs he h = ground arith

-- A finite share that is not below zero and within the reserve of another node moves whole: the victim loses it and its ledger shows it as
-- transferred, and the killer gains it and its ledger shows it as consumed.
pub pay_lem :
    (w : World) (victim killer : Entity) (share : F32) (v k : Account)
    → IsReserve share
    → IsNonneg v.physical.energy
    → magnitude share ≤ magnitude v.physical.energy
    → (victim == killer) ≡ false
    → let w' = pay w victim killer share (some v) (some k) in
      (account_of w' victim
        ≡ some (record {
          physical = record (v.physical) { energy = sub v.physical.energy share };
          ledger = record_flow v.ledger transferred share;
        }))
      × (account_of w' killer
          ≡ some (record {
            physical = record (k.physical) { energy = add k.physical.energy share };
            ledger = record_flow k.ledger consumed share;
          }))
unfolding pay debit_available credit is_debit is_credit
pay_lem w victim killer share v k hs hv le ne =
    let m = whole share v.physical.energy hs hv le in
    rw (m.0, m.1, m.0) (both_accounts w victim killer _ _ ne)
