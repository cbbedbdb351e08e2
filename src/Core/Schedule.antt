-- ===== src/Core/Schedule.antt =====
-- crates/ertw_core/src/lib.rs: the clock, and the systems that gather the agents' actions and apply
-- them. A list of entities is the order of a query.
pub mod Gather
pub mod Apply
mod Tests
use ertw.Core.Fields.{FieldSampler, Noise}
use ertw.Common.{
  ℕ, Bool, Option, none, some, List, [], ◌∷◌, ◌++◌, ◌==◌, ◌||◌, false, if◌then◌else◌, min, ◌+◌, ◌-◌,
  ◌^◌, map,
}
use ertw.Core.Components.{AgentTuning, Entity, AgentMarker, actuation}
use ertw.Core.World.{World, Vec2, account_of, set_account}
use ertw.Core.Ledger.{Account, debit_exact}
use ertw.Core.Registry.{Agent, WorldAgents, get, insert, retain}
use ertw.Core.Observe.{
  build_observation_with_scratch, Selection, Optics, Outcome, absent, panicked, seen,
}
use ertw.Interface.Action.{ActionTensor, sanitize, vec2_length}
use ertw.Interface.Observation.{ObservationTensor}
use ertw.Float.Arith.{add, mul}
use ertw.Float.Order.{F32, abs}

-- The clock saturates.
unfoldable pub advance_sim_clock : ℕ → ℕ
advance_sim_clock step = min (2 ^ 64 - 1) (step + 1)

-- An entity with an `AgentMarker`, and its controller.
abbrev pub Job : Type 0
Job = Entity × ℕ

unfoldable pub is_active : List Job → ℕ → Bool
is_active [] id = false
is_active (job ∷ jobs) id = job.1 == id || is_active jobs id

-- What the gathering comes to: a panic of an observation, or the registry and the queued actions.
pub data Gathered {ℓ} (S : Type ℓ) : Type ℓ where
  crashed : Gathered S
  gathered : WorldAgents S → List (Entity × ActionTensor) → Gathered S

module _ (trait : Agent) where
  open trait use {State, act}

  -- The controller, if it is registered. The action is sanitized before it is queued.
  unfoldable pub ask :
      ObservationTensor
      → Entity
      → ℕ
      → WorldAgents State
      → List (Entity × ActionTensor)
      → Option State
      → Gathered State
  ask obs e id agents items none = gathered agents items
  ask obs e id agents items (some s) =
      let (s', action) = act s obs in
      gathered (record agents { controllers = insert agents.controllers id s' })
        (items ++ ((e, sanitize action) ∷ []))

  -- One job once its observation is built.
  unfoldable pub consult :
      Outcome → Job → WorldAgents State → List (Entity × ActionTensor) → Gathered State
  consult absent job agents items = gathered agents items
  consult panicked job agents items = crashed
  consult (seen obs) (e, id) agents items = ask obs e id agents items (get agents.controllers id)

  -- The loop; `observe` builds an observation where the entity has its tuning.
  unfoldable pub consult_all : (Entity → Outcome) → List Job → Gathered State → Gathered State
  consult_all observe [] g = g
  consult_all observe (job ∷ jobs) crashed = crashed
  consult_all observe (job ∷ jobs) (gathered agents items) =
      consult_all observe jobs (consult (observe (job.0)) job agents items)

  unfoldable pub gather_from : (Entity → Outcome) → List Job → WorldAgents State → Gathered State
  gather_from observe jobs agents =
      consult_all observe jobs (gathered (retain agents (is_active jobs)) [])

-- What an agent observes: nothing without its tuning.
unfoldable pub observe_tuned :
    Optics
    → Noise
    → Selection
    → World
    → FieldSampler
    → ℕ
    → (Vec2 → F32 → List Entity)
    → Entity
    → Option AgentTuning
    → Outcome
observe_tuned optics noise selection w sampler step near e none = absent
observe_tuned optics noise selection w sampler step near e (some tune) =
    build_observation_with_scratch optics noise selection w sampler step e near tune

module _ (optics : Optics) (noise : Noise) (selection : Selection) (trait : Agent) where
  unfoldable pub gather_agent_actions :
      World
      → FieldSampler
      → ℕ
      → (Vec2 → F32 → List Entity)
      → List Job
      → WorldAgents (trait.State)
      → Gathered (trait.State)
  gather_agent_actions w sampler step near jobs agents =
      gather_from trait
        (λ e. observe_tuned optics noise selection w sampler step near e (w.tuning e)) jobs agents

-- What an action costs: 0.1 of its force and torque.
unfoldable pub action_cost : ActionTensor → F32
action_cost action = mul (add (vec2_length action.force) (abs action.torque)) 0x3dcccccd

-- A force and a torque on a body.
pub record Push : Type 0 where
  pub target : Entity
  pub force : Vec2
  pub torque : F32

abbrev pub no_push : Entity → Push
no_push e = record { target = e; force = record { x = 0; y = 0 }; torque = 0 }

-- What the entity is pushed with; `has_body` says that it has the components of a body.
unfoldable pub push_with : (Entity → Bool) → List Push → Push → List Push
push_with has_body pushes p = if has_body p.target then pushes ++ (p ∷ []) else pushes

abbrev pub push_of : Entity → ActionTensor → Push
push_of e action = record {
  target = e;
  force = record { x = action.force.x; y = action.force.y };
  torque = action.torque;
}

-- One item on the entity's account, if it has one.
unfoldable pub pay_push : World → Entity → ActionTensor → Option Account → World × Push
pay_push w e action none = (w, no_push e)
pay_push w e action (some a) =
    let (a', paid) = debit_exact a actuation (action_cost action) in
    (set_account w e a', if paid then push_of e action else no_push e)

unfoldable pub apply_item :
    (Entity → Bool) → World × List Push → Entity × ActionTensor → World × List Push
apply_item has_body (w, pushes) (e, action) =
    let (w', push) = pay_push w e action (account_of w e) in (w', push_with has_body pushes push)

unfoldable pub apply_agent_actions :
    (Entity → Bool) → List (Entity × ActionTensor) → World × List Push → World × List Push
apply_agent_actions has_body [] s = s
apply_agent_actions has_body (item ∷ items) s =
    apply_agent_actions has_body items (apply_item has_body s item)
