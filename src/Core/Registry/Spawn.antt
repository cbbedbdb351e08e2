-- ===== src/Core/Registry/Spawn.antt =====
-- crates/ertw_core/src/agents.rs: the entity of a new agent. Of the bundle of
-- crates/ertw_core/src/components.rs, the components that the model's systems read.
use Prim.Native.Nat.{bit_xor, bit_or}
use ertw.Core.Tags.{clamp_capable, agent, CustomTags}
use ertw.Core.Components.{
  default_clamp, ReproductionState, default_ledger, ClampState, AgentMarker, EnergyLedger,
  ImpulseAccum, Oscillator, Physical, AgentTuning,
}
use ertw.Float.Order.{fmax, F32}
use ertw.Core.Registry.{register, WorldAgents}
use ertw.Common.{◌%◌, ◌*◌, none, ◌^◌, ℕ}
use ertw.Core.World.{Vec2}

pub record AgentBundle : Type 0 where
  pub position : Vec2
  pub body_mass : F32
  pub physical : Physical
  pub yield_threshold : F32
  pub conductivity : F32
  pub tags : CustomTags
  pub oscillator : Oscillator
  pub impulse : ImpulseAccum
  pub ledger : EnergyLedger
  pub marker : AgentMarker
  pub tuning : AgentTuning
  pub clamp : ClampState
  pub fabricate : F32
  pub reproduction : ReproductionState
  pub node_rng : ℕ

-- The least mass is 0.1, the first reserve 20.0, the conductivity 0.6, and 2 ^ 7 is OSCILLATOR.
unfoldable pub spawn_with_bundle : ℕ → Vec2 → AgentTuning → AgentBundle
spawn_with_bundle controller pos tuning =
    let mass = fmax tuning.yield_threshold 0x3dcccccd in
    record {
      position = pos;
      body_mass = mass;
      physical = record { mass = mass; structure = tuning.yield_threshold; energy = 0x41a00000 };
      yield_threshold = tuning.yield_threshold;
      conductivity = 0x3f19999a;
      tags = bit_or (bit_or agent clamp_capable) (2 ^ 7);
      oscillator = record {
        freq = tuning.osc_baseline;
        phase = 0;
        baseline_freq = tuning.osc_baseline;
      };
      impulse = record { value = 0; source = none };
      ledger = default_ledger;
      marker = record {
        generation = 0;
        lineage = bit_xor controller 0xabcd;
        controller = controller;
      };
      tuning = tuning;
      clamp = default_clamp;
      fabricate = 0;
      reproduction = record { surplus_seconds = 0; cooldown_seconds = 0 };
      node_rng = bit_xor (controller * 0x9e3779b1 % 2 ^ 64) 0xabcd;
    }

-- The controller is registered first, and its identifier goes into the bundle.
unfoldable pub spawn_agent {ℓ} :
    {S : Type ℓ} → WorldAgents S → S → Vec2 → AgentTuning → WorldAgents S × AgentBundle
spawn_agent w s pos tuning =
    let (w', controller) = register w s in (w', spawn_with_bundle controller pos tuning)
