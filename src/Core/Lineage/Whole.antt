-- ===== src/Core/Lineage/Whole.antt =====
-- Reproduction takes no reserve and no mass below zero.
use ertw.Float.Round.{nearest, shift_from, shift, round, value}
use ertw.Core.Ledger.{Account}
use mathlib.Core.Path.{subst}
use ertw.Core.Lineage.Birth.{reproduce_one-IsBirth, IsBirth}
use ertw.Float.Laws.{sub-IsNonneg}
use ertw.Core.Registry.Spawn.{AgentBundle}
use ertw.Core.Registry.{Agent, WorldAgents}
use ertw.Core.Rng.{Rng}
use ertw.Core.Lineage.{
  reproduce_one, reproduce_agents, reproduce_row, reproduction_energy_cost,
  reproduction_energy_threshold, reproduction_mass_cost, parent_of, set_parent, Parent,
}
use ertw.Float.Order.{F32, IsNonneg, le}
use ertw.Float.Arith.{round_diff, sub, add}
use ertw.Core.World.{Geometry, account_of, set_account, World}
use ertw.Core.Components.{Entity, Physical}
use ertw.Common.{sym, ℕ, ◌≡◌, true, refl, arith, some, none, Option, List, [], ◌∷◌}

abbrev IsWholeBody : Physical → Type 0
IsWholeBody p = IsNonneg p.energy × IsNonneg p.mass

abbrev pub IsWhole : World → Type 0
IsWhole w = (e : Entity) (p : Physical) → w.physical e ≡ some p → IsWholeBody p

least_mass : add reproduction_mass_cost 0x3f000000 ≡ 0x40000000
unfolding add round_diff value round shift shift_from nearest
least_mass = refl

pay_energy :
    (x : F32)
    → IsNonneg x
    → le reproduction_energy_threshold x ≡ true
    → IsNonneg (sub x reproduction_energy_cost)
unfolding le
pay_energy x h l = ground (arith, sub-IsNonneg x reproduction_energy_cost)

pay_mass :
    (x : F32)
    → IsNonneg x
    → le (add reproduction_mass_cost 0x3f000000) x ≡ true
    → IsNonneg (sub x reproduction_mass_cost)
unfolding le
pay_mass x h l = ground (arith, sub-IsNonneg x reproduction_mass_cost, least_mass)

parent_after-IsWhole :
    {S : Type 0} (p : Parent) (agents : WorldAgents S)
    (r : Parent × WorldAgents S × Option AgentBundle)
    → IsBirth p agents r
    → IsWholeBody p.account.physical
    → IsWholeBody r.0.account.physical
parent_after-IsWhole p agents (p', agents', none) b h =
    subst (λ (a : Account). IsWholeBody a.physical) (sym b.0) h
parent_after-IsWhole p agents (p', agents', some child) b h = (
  subst IsNonneg (sym (b.3)) (
      subst (λ c. IsNonneg (sub p.account.physical.energy c)) (sym b.1)
        (pay_energy p.account.physical.energy (h.0) (b.0.0))),
  subst IsNonneg (sym (b.4)) (
      subst (λ c. IsNonneg (sub p.account.physical.mass c)) (sym b.2)
        (pay_mass p.account.physical.mass (h.1) (b.0.1))),
)

set_parent-IsWhole :
    (w : World) (e : Entity) (p : Parent)
    → IsWhole w
    → IsWholeBody p.account.physical
    → IsWhole (set_parent w e p)
unfolding set_parent set_account
set_parent-IsWhole w e p h b j q k = ground (arith, h j q)

parent_of-physical :
    (w : World) (e : Entity) (p : Parent)
    → parent_of w e ≡ some p
    → w.physical e ≡ some p.account.physical
unfolding parent_of account_of
parent_of-physical w e p h = ground (arith, h)

module _ (rng : Rng) (trait : Agent) (geo : Geometry) (step : ℕ) where
  row-IsWhole :
      (o : Option Parent) (e : Entity) (s : World × WorldAgents (trait.State) × List AgentBundle)
      → IsWhole (s.0)
      → ((p : Parent) → o ≡ some p → IsWholeBody p.account.physical)
      → IsWhole (reproduce_row rng trait geo step o e s).0
  unfolding reproduce_row
  row-IsWhole none e s h b = h
  row-IsWhole (some p) e (w, agents, children) h b =
      let r = reproduce_one rng trait geo step p agents in
      set_parent-IsWhole w e (r.0) h (
        parent_after-IsWhole p agents r (reproduce_one-IsBirth rng trait geo step p agents)
          (b p refl))

  -- Where no node has a reserve or a mass below zero, none has after all births of a step.
  pub reproduce_agents-IsWhole :
      (entities : List Entity) (s : World × WorldAgents (trait.State) × List AgentBundle)
      → IsWhole (s.0)
      → IsWhole (reproduce_agents rng trait geo step entities s).0
  unfolding reproduce_agents
  reproduce_agents-IsWhole [] s h = h
  reproduce_agents-IsWhole (e ∷ entities) s h = reproduce_agents-IsWhole entities _ (
      row-IsWhole (parent_of (s.0) e) e s h
        (λ p q. h e p.account.physical (parent_of-physical (s.0) e p q)))
