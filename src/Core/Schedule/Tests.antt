-- ===== src/Core/Schedule/Tests.antt =====
-- One agent that pushes, and one controller that asks for too much.
use ertw.Core.Fields.{new_sampler}
use ertw.Core.Observe.Samples.{pair-IsMetered, sorting, still, flat}
use ertw.Core.Schedule.{pay_push, gather_agent_actions}
use ertw.Float.Order.{F32}
use ertw.Core.World.Samples.{pair}
use ertw.Core.Schedule.Apply.{pay_push-IsPaid, IsPaid}
use ertw.Interface.Action.{default_action, ActionTensor}
use ertw.Core.Schedule.Gather.{gather_agent_actions-IsGathered, IsPatterned, IsGathered}
use ertw.Core.Components.{default_tuning, AgentTuning, Entity}
use ertw.Core.World.{account_of, Vec2, World}
use ertw.Interface.Observation.{ObservationTensor}
use ertw.Core.Registry.{WorldAgents, Agent}
use ertw.Common.{List, [], ◌∷◌, arith, ◌≡◌, ◌<◌, some, none, ℕ, if◌then◌else◌, ◌==◌}

-- A controller that keeps a number and asks for a torque of 2.0.
abbrev twister : Agent
twister = record {
  State = ℕ;
  act = λ s obs. (s, record default_action { torque = 0x40000000 });
  on_reset = λ s seed. seed;
  spawn_child = λ s seed. (s, some seed);
}

twister_fits : (s : ℕ) (obs : ObservationTensor) → IsPatterned (twister.act s obs).1
twister_fits s obs = record {
  torque_fits = omega arith;
  clamp_fits = omega arith;
  fabricate_fits = omega arith;
  freq_fits = omega arith;
  phase_fits = omega arith;
}

abbrev steered : World
steered = record pair { tuning = λ e. if e == 1 then some default_tuning else none }

steered_tuning :
    (e : Entity) (tune : AgentTuning) → steered.tuning e ≡ some tune → 0 < tune.max_neighbors
steered_tuning e tune h = ground (arith, h)

abbrev nearby : Vec2 → F32 → List Entity
nearby pos radius = 1 ∷ 2 ∷ []

abbrev one_controller : WorldAgents ℕ
one_controller = record { controllers = (0, 70) ∷ []; next_id = 1 }

gather_agent_actions-IsGathered_example : IsGathered [] ((1, 0) ∷ []) (
    gather_agent_actions flat still sorting twister steered new_sampler 5 nearby
      ((1, 0) ∷ [])
      one_controller)
gather_agent_actions-IsGathered_example =
    gather_agent_actions-IsGathered flat still sorting twister twister_fits steered new_sampler 5
      nearby ((1, 0) ∷ []) one_controller steered_tuning pair-IsMetered

abbrev push : ActionTensor
push = record default_action { torque = 0x3f800000 }

pay_push-IsPaid_example : IsPaid pair 1 push (pay_push pair 1 push (account_of pair 1))
pay_push-IsPaid_example = pay_push-IsPaid pair 1 push
