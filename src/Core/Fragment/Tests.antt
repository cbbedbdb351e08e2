-- ===== src/Core/Fragment/Tests.antt =====
-- Impacts, transfers and division at concrete inputs.
use ertw.Core.Components.{consumed, transferred}
use ertw.Float.Order.{le, lt}
use Prim.Native.Nat.{bit_xor}
use ertw.Core.Ledger.{record_flow}
use ertw.Float.Round.{round_runs}
use ertw.Core.Tags.{has, agent}
use ertw.Float.Arith.{add, sub, float_runs}
use ertw.Core.Fragment.Transfer.{pay_lem}
use ertw.Core.World.Samples.{body, least, healthy, plane, pair}
use ertw.Core.Fragment.Daughters.{divide-IsRubble, IsLitter}
use ertw.Core.Fragment.Divide.{portions, daughter_count, divide}
use ertw.Core.World.{is_tagged, account_of, Daughter, Vec2}
use ertw.Core.Fragment.{
  set_node, is_queued, queue_fragment_with_share, share_of, killer_of, can_fragment, is_broken,
  damage, retain_stress, decay_stress, node_of, strike_node, strike, most_daughters, strike_pair,
  strike_all, Impact, pay, Queued, accumulate_collision_damage,
}
use ertw.Common.{refl, arith, ◌≡◌, [], ◌∷◌, some, List}

abbrev crash : List Impact
crash = record { first = 2; second = 1; impulse = 0x42c80000 } ∷ []

-- The excess of 92.0 breaks the node, and the agent that hit it is to have half of its reserve.
broken :
    (accumulate_collision_damage crash pair []).1
    ≡ record { victim = 2; killer = some 1; share = 0x41200000 } ∷ []
unfolding accumulate_collision_damage strike_all strike_pair strike strike_node node_of decay_stress
    retain_stress damage is_broken can_fragment killer_of share_of is_tagged has
    queue_fragment_with_share is_queued float_runs round_runs lt le set_node
broken = refl

abbrev entry : Queued
entry = record { victim = 2; killer = some 1; share = 0x41200000 }

pay_lem_example :
    let w' = pay pair 2 1 0x41200000 (some healthy) (some healthy) in
    (account_of w' 2
      ≡ some (record {
        physical = record (healthy.physical) { energy = sub healthy.physical.energy 0x41200000 };
        ledger = record_flow healthy.ledger transferred 0x41200000;
      }))
    × (account_of w' 1
        ≡ some (record {
          physical = record (healthy.physical) { energy = add healthy.physical.energy 0x41200000 };
          ledger = record_flow healthy.ledger consumed 0x41200000;
        }))
pay_lem_example =
    pay_lem pair 2 1 0x41200000 healthy healthy (omega arith) (omega arith) (omega arith) refl

abbrev spot : Vec2
spot = record { x = 0; y = 0 }

abbrev pieces : List Daughter
pieces = portions plane least spot body agent 0x41000000 5 0 (bit_xor 5 0x9e3779b9) 2

two_pieces : divide plane least spot body agent 0x41000000 5 0 ≡ some pieces
unfolding divide daughter_count most_daughters float_runs round_runs lt
two_pieces = refl

divide-IsRubble_example : IsLitter plane least body 0x41000000 pieces
divide-IsRubble_example =
    divide-IsRubble plane least spot body agent 0x41000000 5 0 pieces two_pieces
