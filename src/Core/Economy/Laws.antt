-- ===== src/Core/Economy/Laws.antt =====
-- No system of the economy but the decay takes a reserve below zero, and a node that fails is queued once.
use ertw.Core.Fragment.{Queued}
use ertw.Core.Economy.{queue_death, judge}
use ertw.Core.Fragment.Divide.{contains}
use ertw.Core.Actuation.{fixed_dt}
use ertw.Float.Arith.{div, sub, add, mul}
use ertw.Float.Laws.{mul-lt}
use ertw.Core.World.Accounts.{
  funded_account, credit_reserve, debit_available-IsReserve, set_account-IsFunded, IsFunded,
}
use ertw.Core.Ledger.{Account}
use ertw.Common.{
  ◌⊎◌, false, true, ◌++◌, inr, inl, map_or_both, Option-cases, [], ◌∷◌, List, none, refl, arith,
  some, if_both, ◌≡◌, ◌^◌, ◌<◌, Option,
}
use ertw.Float.Order.{lt, fmax, fmin, le, IsReserve, F32}
use ertw.Core.Components.{Physical, harvested, transferred, Entity}
use ertw.Core.World.{Vec2, Senses, Geometry, account_of, World}
use ertw.Core.Economy.Harvest.{
  volatile_trap_drain_fraction, velocity_of, volatile_trap_discharge, discharge_all, discharge,
  release_of, share_out, kinetic_harvest, harvest_agents, harvest_from, harvest_amount,
  harvest_min_rel_speed, harvest_rate, yielded, move_energy, give_to, take_from,
}

take_from-IsFunded :
    (w : World) (e : Entity) (amount : F32) (a : Option Account)
    → amount < 2 ^ 32
    → account_of w e ≡ a
    → IsFunded w
    → IsFunded (take_from w e amount a).0 × IsReserve (take_from w e amount a).1
unfolding take_from
take_from-IsFunded w e amount none h ha f = (f, omega arith)
take_from-IsFunded w e amount (some a) h ha f =
    let d = debit_available-IsReserve a transferred amount h (funded_account w e a f ha) in
    (set_account-IsFunded w e _ f d.0, d.1)

give_to-IsFunded :
    (w : World) (e : Entity) (amount : F32) (a : Option Account)
    → amount < 2 ^ 32
    → account_of w e ≡ a
    → IsFunded w
    → IsFunded (give_to w e amount a)
unfolding give_to
give_to-IsFunded w e amount none h ha f = f
give_to-IsFunded w e amount (some a) h ha f =
    set_account-IsFunded w e _ f (credit_reserve a harvested amount h (funded_account w e a f ha))

move_energy-IsFunded :
    (w : World) (from to : Entity) (amount : F32)
    → amount < 2 ^ 32
    → IsFunded w
    → IsFunded (move_energy w from to amount)
unfolding move_energy
move_energy-IsFunded w from to amount h f =
    let t = take_from-IsFunded w from amount (account_of w from) h refl f in
    let r = take_from w from amount (account_of w from) in
    if_both IsFunded (le r.1 0) (t.0)
      (give_to-IsFunded r.0 to r.1 (account_of r.0 to) (t.1.0) refl (t.0))

yielded-lt :
    (speed energy transfer : F32)
    → yielded speed energy ≡ some transfer
    → energy < 2 ^ 32
    → transfer < 2 ^ 32
unfolding yielded fmin fmax
yielded-lt speed energy transfer h e =
    ground
      (arith, mul-lt (mul harvest_rate (add (sub speed harvest_min_rel_speed) 0x3f800000)) fixed_dt)

module _ (geo : Geometry) (senses : Senses) where
  harvest_amount-lt :
      (w : World) (agent_e : Entity) (pos : Vec2) (other : Entity) (amount : F32)
      → IsFunded w
      → harvest_amount geo senses w agent_e pos other ≡ some amount
      → amount < 2 ^ 32
  unfolding harvest_amount
  harvest_amount-lt w agent_e pos other amount f h = elim (Option-cases (w.physical other)) [
    | inl e ↦ ground arith
    | inr n ↦ ground (
      arith,
      f other n.0 n.1,
      yielded-lt (geo.speed_between (velocity_of w agent_e) (velocity_of w other)) n.0.energy
          amount,
    )
  ]

  harvest_from-IsFunded :
      (near : List Entity) (w : World) (agent_e : Entity) (pos : Vec2)
      → IsFunded w
      → IsFunded (harvest_from geo senses w agent_e pos near)
  unfolding harvest_from
  harvest_from-IsFunded [] w agent_e pos f = f
  harvest_from-IsFunded (other ∷ near) w agent_e pos f = harvest_from-IsFunded near _ agent_e pos (
      map_or_both IsFunded w (move_energy w other agent_e)
        (harvest_amount geo senses w agent_e pos other) f
        (λ amount h.
          move_energy-IsFunded w other agent_e amount
            (harvest_amount-lt w agent_e pos other amount f h) f))

  harvest_agents-IsFunded :
      (agents : List Entity) (w : World)
      → IsFunded w
      → IsFunded (harvest_agents geo senses agents w)
  unfolding harvest_agents
  harvest_agents-IsFunded [] w f = f
  harvest_agents-IsFunded (e ∷ agents) w f =
      harvest_agents-IsFunded agents _
        (map_or_both IsFunded w _ (w.position e) f (λ pos h. harvest_from-IsFunded _ w e pos f))

  -- Where no reserve is below zero, kinetic harvesting leaves none below zero, whatever the
  -- surroundings and in whatever order the nodes are visited.
  pub kinetic_harvest-IsFunded :
      (entities : List Entity) (w : World)
      → IsFunded w
      → IsFunded (kinetic_harvest geo senses entities w)
  unfolding kinetic_harvest
  kinetic_harvest-IsFunded entities w f = harvest_agents-IsFunded _ w f

  share_out-IsFunded :
      (released total : F32) (weights : List (Entity × F32)) (w : World)
      → IsFunded w
      → IsFunded (share_out geo senses released total weights w)
  unfolding share_out
  share_out-IsFunded released total [] w f = f
  share_out-IsFunded released total ((target, weight) ∷ weights) w f =
      share_out-IsFunded released total weights _ (
        give_to-IsFunded w target (mul released (div weight total)) (account_of w target)
          (mul-lt released (div weight total)) refl f)

  release_of-lt : (w : World) (trap : Entity) → release_of geo senses w trap < 2 ^ 32
  unfolding release_of
  release_of-lt w trap = elim (Option-cases (w.physical trap)) [
    | inl e ↦ ground arith
    | inr n ↦ ground (arith, mul-lt (fmax n.0.energy 0) volatile_trap_drain_fraction)
  ]

  discharge-IsFunded :
      (w : World) (trap : Entity) (pos : Vec2)
      → IsFunded w
      → IsFunded (discharge geo senses w trap pos)
  unfolding discharge
  discharge-IsFunded w trap pos f = if_both IsFunded _ f (
      share_out-IsFunded _ _ _ _
        (take_from-IsFunded w trap (release_of geo senses w trap) (account_of w trap)
          (release_of-lt w trap) refl f).0)

  discharge_all-IsFunded :
      (traps : List Entity) (w : World) → IsFunded w → IsFunded (discharge_all geo senses traps w)
  unfolding discharge_all
  discharge_all-IsFunded [] w f = f
  discharge_all-IsFunded (trap ∷ traps) w f =
      discharge_all-IsFunded traps _
        (map_or_both IsFunded w _ (w.position trap) f (λ pos h. discharge-IsFunded w trap pos f))

  -- Where no reserve is below zero, the discharge of the volatile traps leaves none below zero.
  pub volatile_trap_discharge-IsFunded :
      (entities : List Entity) (w : World)
      → IsFunded w
      → IsFunded (volatile_trap_discharge geo senses entities w)
  unfolding volatile_trap_discharge
  volatile_trap_discharge-IsFunded entities w f = discharge_all-IsFunded _ w f

contains-append : (xs : List Entity) (e : Entity) → contains (xs ++ (e ∷ [])) e ≡ true
unfolding contains
contains-append [] e = ground arith
contains-append (x ∷ xs) e = rw (contains-append xs e) (ground arith)

excludes : (x : F32) → le x 0 ≡ true → lt 0 x ≡ false
unfolding le lt
excludes x h = ground arith

excludes_not : (x : F32) → lt 0 x ≡ true → le x 0 ≡ false
unfolding le lt
excludes_not x h = ground arith

-- At most one of the two queues takes a node. A node whose reserve is not above zero ends in the
-- queue of deaths and not among the fragments, and one whose structure and reserve are above zero
-- is sent to neither.
pub judge_lem :
    (p : Physical) (threshold : F32) (e : Entity) (fragments : List Queued) (deaths : List Entity)
    → let q = judge p threshold e fragments deaths in
      ((q.0 ≡ fragments) ⊎ (q.1 ≡ deaths))
      × ((le p.energy 0 ≡ true) → (contains q.1 e ≡ true) × (q.0 ≡ fragments))
      × ((lt 0 p.structure ≡ true) → (lt 0 p.energy ≡ true) → (q.0 ≡ fragments) × (q.1 ≡ deaths))
unfolding judge queue_death
judge_lem p threshold e fragments deaths = (
  ground arith,
  λ z. ground (arith, contains-append deaths e, excludes p.energy z),
  λ s r. ground (arith, excludes_not p.structure s, excludes_not p.energy r),
)
