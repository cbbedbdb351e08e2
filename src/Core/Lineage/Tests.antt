-- ===== src/Core/Lineage/Tests.antt =====
-- A parent that has enough, and its child.
use ertw.Core.Lineage.Distinct.{record_agent_history_lem}
use ertw.Core.Lineage.Recorded.{IsDistinct, absent_entries}
use ertw.Core.Lineage.Outcomes.{
  snapshot_of, Entry, record_agent_history, AgentHistory, ActiveAgentRecord,
}
use ertw.Float.Order.{le}
use ertw.Core.Ledger.{Account}
use ertw.Core.Components.{default_ledger, default_tuning}
use ertw.Core.World.Samples.{plane, least, body, pair, healthy}
use ertw.Interface.Action.{default_action}
use ertw.Core.Lineage.Whole.{reproduce_agents-IsWhole, IsWhole}
use ertw.Core.Lineage.Birth.{IsAble, reproduce_one-IsBirth, IsBirth}
use ertw.Core.Lineage.{spent, reproduce_agents, reproduce_one, Parent}
use ertw.Core.Registry.{WorldAgents, Agent}
use ertw.Float.Round.{value, round, shift, shift_from, nearest}
use ertw.Float.Arith.{add, round_diff}
use ertw.Core.Registry.{get}
use ertw.Core.Lineage.Outcomes.{is_current}
use ertw.Core.Lineage.Births.{births_able, births, IsFertile}
use ertw.Common.{
  true, length-replicate, ℕ, none, ◌-◌, ◌^◌, min, map, List, ◌++◌, ◌≡◌, refl, replicate, All, zero,
  suc, false, [], ◌∷◌, arith, some, ℕ,
}

abbrev bearer : Agent
bearer = record {
  State = ℕ;
  act = λ s obs. (s, default_action);
  on_reset = λ s seed. seed;
  spawn_child = λ s seed. (s, some seed);
}

abbrev registry : WorldAgents ℕ
registry = record { controllers = (0, 70) ∷ []; next_id = 1 }

-- A reserve of 60.0, a mass of 8.0 and a surplus of 6 seconds.
abbrev parent : Parent
parent = record {
  position = record { x = 0; y = 0 };
  account = record healthy { physical = record body { energy = 0x42700000 } };
  body_mass = 0x41000000;
  marker = record { generation = 0; lineage = 9; controller = 0 };
  tuning = default_tuning;
  reproduction = record { surplus_seconds = 0x40c00000; cooldown_seconds = 0 };
  node_rng = 77;
}

reproduce_one-IsBirth_example :
    IsBirth parent registry (reproduce_one least bearer plane 10 parent registry)
reproduce_one-IsBirth_example = reproduce_one-IsBirth least bearer plane 10 parent registry

pair-IsWhole : IsWhole pair
pair-IsWhole e p h = ground (arith, h)

reproduce_agents-IsWhole_example :
    IsWhole (reproduce_agents least bearer plane 10 (1 ∷ 2 ∷ []) (pair, registry, [])).0
reproduce_agents-IsWhole_example =
    reproduce_agents-IsWhole least bearer plane 10 (1 ∷ 2 ∷ []) (pair, registry, []) pair-IsWhole

abbrev rich : Account
rich = record healthy { physical = record body { energy = 0x42700000 } }

rich-IsAble : IsAble rich
unfolding le add round_diff value round shift shift_from nearest
rich-IsAble = (refl, refl)

replicate-IsAble : (n : ℕ) → All IsAble (replicate n rich)
replicate-IsAble zero = tt
replicate-IsAble (suc n) = (rich-IsAble, replicate-IsAble n)

abbrev recovering : Parent
recovering = record parent { reproduction = spent }

recovering-IsFertile : IsFertile bearer recovering registry
unfolding get
recovering-IsFertile = record { controller = 70; registered = refl; gives = λ seed. (seed, refl) }

births_able_example :
    births least bearer plane (replicate 1500 rich) 10 recovering registry
    ≡ replicate 1499 false ++ (true ∷ [])
births_able_example =
    births_able least bearer plane (replicate 1500 rich) 10 recovering registry
      (replicate-IsAble 1500) (length-replicate 1500 rich) refl recovering-IsFertile

abbrev last : ActiveAgentRecord
last = record {
  marker = record { generation = 1; lineage = 9; controller = 0 };
  ledger = default_ledger;
}

-- Agents 1 and 2 had entries, and only 2 still has a row.
abbrev history : AgentHistory
history = record { active = (1, last) ∷ (2, last) ∷ []; completed = [] }

abbrev rows : List Entry
rows = (2, last) ∷ []

record_agent_history_lem_example :
    ((record_agent_history 600 rows history).completed
      ≡ [] ++ map (snapshot_of false (min 600 (2 ^ 32 - 1))) (absent_entries rows history.active))
    × IsDistinct (record_agent_history 600 rows history).active
    × ((e : ℕ)
        → is_current rows e ≡ false
        → get (record_agent_history 600 rows history).active e ≡ none)
record_agent_history_lem_example = record_agent_history_lem 600 rows history ((refl, tt), (tt, tt))
