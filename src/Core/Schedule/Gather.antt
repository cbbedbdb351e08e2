-- ===== src/Core/Schedule/Gather.antt =====
-- The actions that a step queues.
use ertw.Float.Order.{F32}
use ertw.Core.World.{Vec2, World}
use ertw.Core.Fields.{FieldSampler, Noise}
use mathlib.Core.Path.{subst}
use ertw.Core.Observe.Shape.{build_observation-IsObserved, IsObserved, IsMetered}
use mathlib.Core.List.{append_assoc, append-nil}
use ertw.Interface.Observation.{ObservationTensor}
use ertw.Core.Components.{AgentTuning, Entity}
use ertw.Interface.Action.{sanitize, ActionTensor}
use ertw.Common.{
  ◌⊎◌, inl, inr, ◌++◌, ◌∙◌, sym, ◌^◌, ◌<◌, ◌≡◌, refl, ℕ, List, [], ◌∷◌, some, none, Option,
}
use ertw.Core.Schedule.{
  is_active, gather_from, observe_tuned, ask, Job, Gathered, crashed, gathered, consult,
  consult_all, gather_agent_actions,
}
use ertw.Core.Observe.{Selection, Optics, Outcome, absent, panicked, seen}
use ertw.Core.Registry.{retain, Agent, WorldAgents, get}
use ertw.Interface.Action.Laws.{IsBanded, sanitize-IsBanded}

-- Every word of an action is an f32.
pub record IsPatterned (a : ActionTensor) : Type 0 where
  pub torque_fits : a.torque < 2 ^ 32
  pub clamp_fits : a.clamp < 2 ^ 32
  pub fabricate_fits : a.fabricate < 2 ^ 32
  pub freq_fits : a.osc_freq < 2 ^ 32
  pub phase_fits : a.osc_phase < 2 ^ 32

-- At most one action for each job, under the job's entity and in the jobs' order, and each banded.
abbrev pub IsQueue : List Job → List (Entity × ActionTensor) → Type 0
IsQueue [] items = items ≡ []
IsQueue (job ∷ jobs) items =
    IsQueue jobs items
    ⊎ ((action : ActionTensor) × (rest : List (Entity × ActionTensor)) × (items
          ≡ (job.0, action) ∷ rest)
        × IsBanded action
        × IsQueue jobs rest)

-- Behind the items so far there is a queue for the jobs.
abbrev pub IsGathered {ℓ} :
    {S : Type ℓ} → List (Entity × ActionTensor) → List Job → Gathered S → Type 0
IsGathered before jobs crashed = ⊥
IsGathered before jobs (gathered agents items) =
    (queue : List (Entity × ActionTensor)) × (items ≡ before ++ queue) × IsQueue jobs queue

-- One job's part: nothing, or one action of the job's entity.
abbrev IsPart {ℓ} : {S : Type ℓ} → List (Entity × ActionTensor) → Entity → Gathered S → Type 0
IsPart before e crashed = ⊥
IsPart before e (gathered agents items) =
    (items ≡ before)
    ⊎ ((action : ActionTensor) × (items ≡ before ++ ((e, action) ∷ [])) × IsBanded action)

-- What an observation may come to.
abbrev IsSound : Outcome → Type 0
IsSound absent = Unit
IsSound panicked = ⊥
IsSound (seen obs) = Unit

sound :
    (step : ℕ) (e : Entity) (tune : AgentTuning) (o : Outcome)
    → IsObserved step e tune o
    → IsSound o
sound step e tune absent h = tt
sound step e tune panicked h = h
sound step e tune (seen obs) h = tt

module _ (trait : Agent)
    (fits : (s : trait.State) (obs : ObservationTensor) → IsPatterned (trait.act s obs).1) where
  ask-IsPart :
      (obs : ObservationTensor) (e : Entity) (id : ℕ) (agents : WorldAgents (trait.State))
      (items : List (Entity × ActionTensor)) (o : Option (trait.State))
      → IsPart items e (ask trait obs e id agents items o)
  unfolding ask
  ask-IsPart obs e id agents items none = inl refl
  ask-IsPart obs e id agents items (some s) =
      let a = (trait.act s obs).1 in
      let f = fits s obs in
      inr (
        sanitize a,
        refl,
        sanitize-IsBanded a f.torque_fits f.clamp_fits f.fabricate_fits f.freq_fits f.phase_fits,
      )

  consult-IsPart :
      (o : Outcome) (job : Job) (agents : WorldAgents (trait.State))
      (items : List (Entity × ActionTensor))
      → IsSound o
      → IsPart items job.0 (consult trait o job agents items)
  unfolding consult
  consult-IsPart absent job agents items h = inl refl
  consult-IsPart panicked job agents items h = h
  consult-IsPart (seen obs) (e, id) agents items h =
      ask-IsPart obs e id agents items (get agents.controllers id)

  consult_all-IsGathered :
      (observe : Entity → Outcome) (jobs : List Job) (agents : WorldAgents (trait.State))
      (items : List (Entity × ActionTensor))
      → ((e : Entity) → IsSound (observe e))
      → IsGathered items jobs (consult_all trait observe jobs (gathered agents items))
  unfolding consult_all
  consult_all-IsGathered observe [] agents items h = ([], sym (append-nil items), refl)
  consult_all-IsGathered observe (job ∷ jobs) agents items h =
      behind (consult trait (observe (job.0)) job agents items)
        (consult-IsPart (observe (job.0)) job agents items (h (job.0)))
        (λ later all. consult_all-IsGathered observe jobs later all h)
    where
      more :
          (g : Gathered (trait.State)) (a : ActionTensor)
          → IsBanded a
          → IsGathered (items ++ ((job.0, a) ∷ [])) jobs g
          → IsGathered items (job ∷ jobs) g
      more crashed a b k = k
      more (gathered later all) a b (queue, same, q) = (
        (job.0, a) ∷ queue,
        same ∙ append_assoc items ((job.0, a) ∷ []) queue,
        inr (a, queue, refl, b, q),
      )

      none_more :
          (g : Gathered (trait.State)) → IsGathered items jobs g → IsGathered items (job ∷ jobs) g
      none_more crashed k = k
      none_more (gathered later all) (queue, same, q) = (queue, same, inl q)

      behind :
          (g : Gathered (trait.State))
          → IsPart items job.0 g
          → ((later : WorldAgents (trait.State)) (all : List (Entity × ActionTensor))
              → IsGathered all jobs (consult_all trait observe jobs (gathered later all)))
          → IsGathered items (job ∷ jobs) (consult_all trait observe jobs g)
      behind crashed k rest = absurd k
      behind (gathered later all) (inl q) rest =
          none_more (consult_all trait observe jobs (gathered later all)) (
            subst (λ l. IsGathered l jobs (consult_all trait observe jobs (gathered later all))) q
              (rest later all))
      behind (gathered later all) (inr (a, q, b)) rest =
          more (consult_all trait observe jobs (gathered later all)) a b (
            subst (λ l. IsGathered l jobs (consult_all trait observe jobs (gathered later all))) q
              (rest later all))

module _ (optics : Optics) (noise : Noise) (selection : Selection) (trait : Agent)
    (fits : (s : trait.State) (obs : ObservationTensor) → IsPatterned (trait.act s obs).1) where
  tuned-IsSound :
      (w : World) (sampler : FieldSampler) (step : ℕ) (near : Vec2 → F32 → List Entity) (e : Entity)
      (o : Option AgentTuning)
      → ((tune : AgentTuning) → o ≡ some tune → 0 < tune.max_neighbors)
      → IsMetered optics w
      → IsSound (observe_tuned optics noise selection w sampler step near e o)
  unfolding observe_tuned
  tuned-IsSound w sampler step near e none h metered = tt
  tuned-IsSound w sampler step near e (some tune) h metered = sound step e tune _ (
      build_observation-IsObserved optics noise selection w sampler step e near tune (h tune refl)
        metered)

  -- Where every agent's tuning asks for at least one neighbor and the squared distance of any two
  -- placed entities is a number, gathering does not panic. It queues at most one action for each agent,
  -- under its own entity and in the order of the agents; each has its torque, clamp, fabricator and
  -- oscillator drive within their bands, and a finite force that is not longer than 1.0 or a longer one
  -- divided by its length, whatever 32-bit patterns the controllers answer.
  pub gather_agent_actions-IsGathered :
      (w : World) (sampler : FieldSampler) (step : ℕ) (near : Vec2 → F32 → List Entity)
      (jobs : List Job) (agents : WorldAgents (trait.State))
      → ((e : Entity) (tune : AgentTuning) → w.tuning e ≡ some tune → 0 < tune.max_neighbors)
      → IsMetered optics w
      → IsGathered [] jobs
          (gather_agent_actions optics noise selection trait w sampler step near jobs agents)
  unfolding gather_agent_actions gather_from
  gather_agent_actions-IsGathered w sampler step near jobs agents h metered =
      consult_all-IsGathered trait fits _ jobs (retain agents (is_active jobs)) []
        (λ e. tuned-IsSound w sampler step near e (w.tuning e) (h e) metered)
