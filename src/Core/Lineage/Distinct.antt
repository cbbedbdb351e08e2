-- ===== src/Core/Lineage/Distinct.antt =====
-- The history keeps one entry for an agent.
use mathlib.Core.Path.{subst}
use ertw.Core.Components.{Entity}
use ertw.Core.Lineage.Outcomes.{
  is_current, removed, snapshot_of, AgentHistory, ActiveAgentRecord, Entry, record_agent_history,
  retire, retire_one, remember,
}
use ertw.Core.Registry.{get, retain_ids, insert}
use ertw.Core.Registry.Laws.{get-retain_ids}
use ertw.Core.Fragment.Divide.{contains}
use native.Mathlib.Decide.{ℕ_discrete}
use ertw.Core.Lineage.Recorded.{completed_lem, absent_entries, IsDistinct}
use ertw.Common.{
  refl, ◌∙◌, ap, ◌⊎◌, true, inl, inr, ◌++◌, map, min, ◌-◌, ◌^◌, ℕ, Bool, All, List, [], ◌∷◌, ◌==◌,
  ◌≡◌, arith, not, none, some, false, Bool-cases, Option,
}

insert-All :
    (k : Entity) (active : List Entry) (e : Entity) (r : ActiveAgentRecord)
    → (k == e) ≡ false
    → All (λ q. (k == q.0) ≡ false) active
    → All (λ q. (k == q.0) ≡ false) (insert active e r)
unfolding insert
insert-All k [] e r n h = (n, tt)
insert-All k ((j, t) ∷ active) e r n h = elim (Bool-cases (j == e)) [
  | inl q ↦ rw q (n, h.1)
  | inr q ↦ rw q (h.0, insert-All k active e r n (h.1))
]

insert-IsDistinct :
    (active : List Entry) (e : Entity) (r : ActiveAgentRecord)
    → IsDistinct active
    → IsDistinct (insert active e r)
unfolding insert
insert-IsDistinct [] e r d = (tt, tt)
insert-IsDistinct ((j, t) ∷ active) e r d = elim (Bool-cases (j == e)) [
  | inl q ↦
      rw q (subst (λ (k : ℕ). All (λ c. (k == c.0) ≡ false) active) (ground (arith, q)) (d.0), d.1)
  | inr q ↦ rw q (insert-All j active e r q (d.0), insert-IsDistinct active e r (d.1))
]

retain_ids-All :
    (P : Entry → Type 0) (keep : ℕ → Bool) (active : List Entry)
    → All P active
    → All P (retain_ids keep active)
unfolding retain_ids
retain_ids-All P keep [] h = tt
retain_ids-All P keep ((j, t) ∷ active) h = elim (Bool-cases (keep j)) [
  | inl q ↦ rw q (h.0, retain_ids-All P keep active (h.1))
  | inr q ↦ rw q (retain_ids-All P keep active (h.1))
]

retain_ids-IsDistinct :
    (keep : ℕ → Bool) (active : List Entry)
    → IsDistinct active
    → IsDistinct (retain_ids keep active)
unfolding retain_ids
retain_ids-IsDistinct keep [] d = tt
retain_ids-IsDistinct keep ((j, t) ∷ active) d = elim (Bool-cases (keep j)) [
  | inl q ↦ rw q (
    retain_ids-All (λ c. (j == c.0) ≡ false) keep active (d.0),
    retain_ids-IsDistinct keep active (d.1),
  )
  | inr q ↦ rw q (retain_ids-IsDistinct keep active (d.1))
]

remember-IsDistinct :
    (rows active : List Entry) → IsDistinct active → IsDistinct (remember active rows)
unfolding remember
remember-IsDistinct [] active d = d
remember-IsDistinct (row ∷ rows) active d =
    remember-IsDistinct rows _ (insert-IsDistinct active (row.0) (row.1) d)

retire_one-IsDistinct :
    (step : ℕ) (e : Entity) (h : AgentHistory) (o : Option ActiveAgentRecord)
    → IsDistinct h.active
    → IsDistinct (retire_one step e h o).active
unfolding retire_one
retire_one-IsDistinct step e h none d = d
retire_one-IsDistinct step e h (some r) d = retain_ids-IsDistinct (λ k. not (k == e)) h.active d

retire-IsDistinct :
    (step : ℕ) (entities : List Entity) (h : AgentHistory)
    → IsDistinct h.active
    → IsDistinct (retire step entities h).active
unfolding retire
retire-IsDistinct step [] h d = d
retire-IsDistinct step (e ∷ entities) h d =
    retire-IsDistinct step entities _ (retire_one-IsDistinct step e h (get h.active e) d)

-- Retiring one key leaves nothing under it, and brings nothing.
retire_one_gone :
    (step : ℕ) (k : Entity) (h : AgentHistory) (o : Option ActiveAgentRecord)
    → get h.active k ≡ o
    → get (retire_one step k h o).active k ≡ none
unfolding retire_one
retire_one_gone step k h none q = q
retire_one_gone step k h (some r) q = get-retain_ids (λ j. not (j == k)) h.active k ∙ ground arith

get-retire_one :
    (step : ℕ) (k : Entity) (h : AgentHistory) (o : Option ActiveAgentRecord) (e : Entity)
    → get h.active e ≡ none
    → get (retire_one step k h o).active e ≡ none
unfolding retire_one
get-retire_one step k h none e n = n
get-retire_one step k h (some r) e n =
    get-retain_ids (λ j. not (j == k)) h.active e ∙ ground (arith, n)

get-retire :
    (step : ℕ) (entities : List Entity) (h : AgentHistory) (e : Entity)
    → get h.active e ≡ none
    → get (retire step entities h).active e ≡ none
unfolding retire
get-retire step [] h e n = n
get-retire step (k ∷ entities) h e n =
    get-retire step entities _ e (get-retire_one step k h (get h.active k) e n)

-- A key that is retired is gone, if it was there.
retire_gone :
    (step : ℕ) (entities : List Entity) (h : AgentHistory) (e : Entity)
    → contains entities e ≡ true
    → get (retire step entities h).active e ≡ none
unfolding retire contains
retire_gone step [] h e c = absurd (cc)
retire_gone step (k ∷ entities) h e c = elim (ℕ_discrete k e) [
  | yes q ↦ get-retire step entities _ e (
      subst (λ x. get (retire_one step k h (get h.active k)).active x ≡ none) q
        (retire_one_gone step k h (get h.active k) refl))
  | no n ↦ retire_gone step entities _ e (ground (arith, c))
]

contains-removed :
    (rows active : List Entry) (e : Entity)
    → is_current rows e ≡ false
    → (get active e ≡ none) ⊎ (contains (removed rows active) e ≡ true)
unfolding contains removed get
contains-removed rows [] e n = inl refl
contains-removed rows ((k, r) ∷ active) e n = elim (ℕ_discrete k e) [
  | yes q ↦ inr (ground (arith, ap (is_current rows) q, n))
  | no d ↦ elim (contains-removed rows active e n) [
    | inl a ↦ inl (ground (arith, a))
    | inr c ↦ inr (ground (arith, c))
  ]
]

-- In a map with one entry for a key, every agent that has an entry and no row any more gets exactly
-- one outcome, with the marker and the ledger that it had last, behind the outcomes so far; no other
-- agent gets one. The map keeps one entry for a key, and none for an agent that has no row.
pub record_agent_history_lem :
    (clock : ℕ) (rows : List Entry) (h : AgentHistory)
    → IsDistinct h.active
    → ((record_agent_history clock rows h).completed
        ≡ h.completed
          ++ map (snapshot_of false (min clock (2 ^ 32 - 1))) (absent_entries rows h.active))
      × IsDistinct (record_agent_history clock rows h).active
      × ((e : Entity)
          → is_current rows e ≡ false
          → get (record_agent_history clock rows h).active e ≡ none)
unfolding record_agent_history
record_agent_history_lem clock rows h d =
    let active = remember h.active rows in
    let step = min clock (2 ^ 32 - 1) in
    (
      completed_lem clock rows h d,
      retire-IsDistinct _ (removed rows active) _ (remember-IsDistinct rows h.active d),
      λ e n. elim (contains-removed rows active e n) [
        | inl a ↦ get-retire step (removed rows active) (record h { active = active }) e a
        | inr c ↦ retire_gone step (removed rows active) (record h { active = active }) e c
      ],
    )
