-- ===== src/Evaluator/Tests.antt =====
-- Three records, two of which tie but for their metric.
use ertw.Evaluator.Rank.{rank_lem, IsRanked}
use ertw.Evaluator.{indexed, rank, CompetenceRecord}
use ertw.Float.Order.{F32}
use ertw.Common.{[], ◌∷◌, ◌≡◌, List, ℕ, map, false}
use mathlib.Core.List.{Perm}

abbrev outcome : ℕ → F32 → CompetenceRecord
outcome survived energy = record {
  alive = false;
  step = 100;
  entity = 1;
  generation = 0;
  lineage = 0;
  survival_steps = survived;
  energy_accumulated = energy;
  energy_harvested = 0;
  energy_consumed = 0;
}

-- Metrics of 2.0, 100.0 and a NaN.
abbrev outcomes : List CompetenceRecord
outcomes = outcome 100 0x40000000 ∷ outcome 80 0x42c80000 ∷ outcome 100 0x7fc00000 ∷ []

rank_lem_example :
    (l : List (ℕ × CompetenceRecord)) × (rank outcomes ≡ map (λ x. x.0) l)
    × Perm l (indexed 0 outcomes)
    × IsRanked l
rank_lem_example = rank_lem outcomes
