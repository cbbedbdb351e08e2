-- ===== src/Core/Lineage/Births.antt =====
-- When an agent whose controller has children to give gives birth again.
use ertw.Core.Lineage.Ripe.{ripens, ripens_able}
use ertw.Core.Lineage.Birth.{IsAble, paid_for}
use ertw.Core.Lineage.{answer, bear, child_seed, give_birth, Parent, reproduce_one, ripen, spent}
use ertw.Core.Ledger.{Account}
use ertw.Core.Registry.{Agent, get, register, spawn_registered, WorldAgents}
use ertw.Core.Registry.Spawn.{AgentBundle}
use ertw.Core.Rng.{Rng}
use ertw.Core.World.{Geometry}
use ertw.Common.{
  ℕ, Bool, List, Option, none, some, [], ◌∷◌, ◌++◌, ◌+◌, ◌≡◌, ◌∙◌, All, length, replicate, zero,
  suc, true, false, refl, ap, arith,
}

unfoldable pub is_born : Option AgentBundle → Bool
is_born none = false
is_born (some child) = true

-- The agent has a controller, which answers every request with a child.
pub record IsFertile (trait : Agent) (p : Parent) (agents : WorldAgents (trait.State))
    : Type 0 where
  pub controller : trait.State
  pub registered : get agents.controllers p.marker.controller ≡ some controller
  pub gives :
      (seed : ℕ) → (child : trait.State) × ((trait.spawn_child controller seed).1 ≡ some child)

module _ (rng : Rng) (trait : Agent) (geo : Geometry) where
  -- At which steps the agent gives birth, for the accounts that it has at the steps.
  unfoldable pub births : List Account → ℕ → Parent → WorldAgents (trait.State) → List Bool
  births [] step p agents = []
  births (a ∷ accounts) step p agents =
      let (p', agents', child) =
        reproduce_one rng trait geo step (record p { account = a }) agents in
      is_born child ∷ births accounts (step + 1) p' agents'

  give_birth-born :
      (step : ℕ) (p : Parent) (id seed : ℕ)
      → IsAble p.account
      → is_born (give_birth rng geo step p id seed).1 ≡ true
  unfolding give_birth is_born
  give_birth-born step p id seed h = rw (paid_for p.account (h.0)) refl

  spawned_some :
      (p : Parent) (agents : WorldAgents (trait.State)) (seed : ℕ)
      → IsFertile trait p agents
      → (spawn_registered trait agents p.marker.controller seed).1 ≡ some (agents.next_id)
  unfolding spawn_registered register
  spawned_some p agents seed f = ground (arith, f.registered, (f.gives seed).1)

  answer-born :
      (step : ℕ) (p : Parent) (seed id : ℕ) (r : WorldAgents (trait.State) × Option ℕ)
      → IsAble p.account
      → r.1 ≡ some id
      → is_born (answer rng geo step p seed r).2 ≡ true
  unfolding answer
  answer-born step p seed id (w, none) h e = absurd (cc)
  answer-born step p seed id (w, some j) h e = give_birth-born step p j seed h

  bear-born :
      (step : ℕ) (p : Parent) (agents : WorldAgents (trait.State))
      → IsAble p.account
      → IsFertile trait p agents
      → is_born (bear rng trait geo step p agents).2 ≡ true
  unfolding bear
  bear-born step p agents h f =
      let seed = child_seed p.node_rng step in
      answer-born step p seed agents.next_id _ h (spawned_some p agents seed f)

  due-born :
      (step : ℕ) (p : Parent) (agents : WorldAgents (trait.State))
      → IsAble p.account
      → IsFertile trait p agents
      → (ripen p.account p.reproduction).1 ≡ true
      → is_born (reproduce_one rng trait geo step p agents).2 ≡ true
  unfolding reproduce_one
  due-born step p agents h f due = rw due (
      bear-born step (record p { reproduction = (ripen p.account p.reproduction).0 }) agents h
        (record { controller = f.controller; registered = f.registered; gives = f.gives }))

  idle :
      (step : ℕ) (p : Parent) (agents : WorldAgents (trait.State))
      → (ripen p.account p.reproduction).1 ≡ false
      → reproduce_one rng trait geo step p agents
        ≡ (record p { reproduction = (ripen p.account p.reproduction).0 }, agents, none)
  unfolding reproduce_one
  idle step p agents due = rw due refl

  births_first :
      (n : ℕ) (accounts : List Account) (step : ℕ) (p : Parent) (agents : WorldAgents (trait.State))
      → All IsAble accounts
      → IsFertile trait p agents
      → ripens accounts p.reproduction ≡ replicate n false ++ (true ∷ [])
      → births accounts step p agents ≡ replicate n false ++ (true ∷ [])
  unfolding births ripens is_born
  births_first zero [] step p agents h f e = absurd (cc)
  births_first (suc n) [] step p agents h f e = absurd (cc)
  births_first zero (a ∷ []) step p agents h f e =
      let due : (ripen a p.reproduction).1 ≡ true = cc in
      ap (λ b. b ∷ [])
        (due-born step (record p { account = a }) agents (h.0)
          (record { controller = f.controller; registered = f.registered; gives = f.gives }) due)
  births_first zero (a ∷ b ∷ accounts) step p agents h f e = absurd (cc)
  births_first (suc n) (a ∷ accounts) step p agents h f e =
      let not_due : (ripen a p.reproduction).1 ≡ false = cc in
      let rest : ripens accounts (ripen a p.reproduction).0 ≡ replicate n false ++ (true ∷ []) =
        cc in
      let later : Parent = record p { account = a; reproduction = (ripen a p.reproduction).0 } in
      ap
        (λ (s : Parent × WorldAgents (trait.State) × Option AgentBundle).
          is_born s.2 ∷ births accounts (step + 1) s.0 s.1)
        (idle step (record p { account = a }) agents not_due)
      ∙ ap (λ l. false ∷ l)
          (births_first n accounts (step + 1) later agents (h.1)
            (record { controller = f.controller; registered = f.registered; gives = f.gives }) rest)

-- An agent after a birth, whose controller has a child to give whenever it is asked, and which has the
-- energy and the mass for a child at each of 1500 steps, gives birth at the 1500th, 25 seconds later,
-- and not before.
pub births_able :
    (rng : Rng) (trait : Agent) (geo : Geometry) (accounts : List Account) (step : ℕ) (p : Parent)
    (agents : WorldAgents (trait.State))
    → All IsAble accounts
    → length accounts ≡ 1500
    → p.reproduction ≡ spent
    → IsFertile trait p agents
    → births rng trait geo accounts step p agents ≡ replicate 1499 false ++ (true ∷ [])
births_able rng trait geo accounts step p agents h e r f =
    births_first rng trait geo 1499 accounts step p agents h f
      (ap (ripens accounts) r ∙ ripens_able accounts h e)
