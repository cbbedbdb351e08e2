-- ===== src/Core/Registry.antt =====
-- crates/ertw_core/src/agents.rs: `WorldAgents`, the controllers by their identifiers, over the trait
-- `Agent` of crates/ertw_interface/src/lib.rs. A map is an association list with one entry for a key.
pub mod Laws
pub mod Spawn
use ertw.Interface.Action.{ActionTensor}
use ertw.Common.{some, ◌^◌, [], ◌==◌, ◌%◌, if◌then◌else◌, none, ◌+◌, Bool, ◌∷◌, Option, ℕ, List}
use ertw.Interface.Observation.{ObservationTensor}

-- The trait; `State` is what a boxed controller keeps.
pub record Agent : Type 1 where
  pub State : Type 0
  pub act : State → ObservationTensor → State × ActionTensor
  pub on_reset : State → ℕ → State
  pub spawn_child : State → ℕ → State × Option State

module _ {ℓ} {S : Type ℓ} where
  unfoldable pub get : List (ℕ × S) → ℕ → Option S
  get [] id = none
  get ((k, s) ∷ controllers) id = if k == id then some s else get controllers id

  unfoldable pub insert : List (ℕ × S) → ℕ → S → List (ℕ × S)
  insert [] id s = (id, s) ∷ []
  insert ((k, t) ∷ controllers) id s =
      let rest = insert controllers id s in if k == id then (id, s) ∷ controllers else (k, t) ∷ rest

  unfoldable pub retain_ids : (ℕ → Bool) → List (ℕ × S) → List (ℕ × S)
  retain_ids active [] = []
  retain_ids active ((k, s) ∷ controllers) =
      let rest = retain_ids active controllers in if active k then (k, s) ∷ rest else rest

pub record WorldAgents {ℓ} (S : Type ℓ) : Type ℓ where
  pub controllers : List (ℕ × S)
  pub next_id : ℕ

-- The identifier is a u64, whose addition wraps.
unfoldable pub register {ℓ} : {S : Type ℓ} → WorldAgents S → S → WorldAgents S × ℕ
register w s = (
  record { controllers = insert w.controllers w.next_id s; next_id = (w.next_id + 1) % 2 ^ 64 },
  w.next_id,
)

unfoldable pub retain {ℓ} : {S : Type ℓ} → WorldAgents S → (ℕ → Bool) → WorldAgents S
retain w active = record w { controllers = retain_ids active w.controllers }

module _ (trait : Agent) where
  open trait use {State, on_reset, spawn_child}

  -- `WorldAgents::spawn_child`: the child of a registered parent, reset and registered.
  unfoldable pub spawn_registered : WorldAgents State → ℕ → ℕ → WorldAgents State × Option ℕ
  spawn_registered w parent seed = elim (get w.controllers parent) [
    | none ↦ (w, none)
    | some p ↦
        let (p', born) = spawn_child p seed in
        let w' : WorldAgents State = record w { controllers = insert w.controllers parent p' } in
        elim born [
          | none ↦ (w', none)
          | some child ↦ let (w2, id) = register w' (on_reset child seed) in (w2, some id)
        ]
  ]
