-- ===== src/Evaluator.antt =====
-- crates/ertw_evaluator/src/lib.rs: competence records from ledgers, and their ranking.
pub mod Rank
mod Tests
use ertw.Float.Arith.{add}
use ertw.Core.Components.{EnergyLedger}
use ertw.Float.Order.{total_lt, is_finite, F32}
use ertw.Common.{ltb, ◌-◌, suc, [], ◌==◌, true, map, ◌∷◌, if◌then◌else◌, List, ℕ, Bool}

pub record CompetenceRecord : Type 0 where
  pub alive : Bool
  pub step : ℕ
  pub entity : ℕ
  pub generation : ℕ
  pub lineage : ℕ
  pub survival_steps : ℕ
  pub energy_accumulated : F32
  pub energy_harvested : F32
  pub energy_consumed : F32

-- `saturating_sub` is the subtraction of ℕ.
unfoldable pub from_ledger : ℕ → ℕ → ℕ → ℕ → EnergyLedger → CompetenceRecord
from_ledger entity generation lineage step l = record {
  alive = true;
  step = step;
  entity = entity;
  generation = generation;
  lineage = lineage;
  survival_steps = step - l.born_step;
  energy_accumulated = add (add l.vented l.harvested) l.consumed_from_others;
  energy_harvested = l.harvested;
  energy_consumed = l.consumed_from_others;
}

-- `f32::MIN` stands for a value that is not finite.
unfoldable pub finite_metric : F32 → F32
finite_metric value = if is_finite value then value else 0xff7fffff

-- The closure of `sort_by` answers `Less` for a and b.
unfoldable pub comes_before : CompetenceRecord → CompetenceRecord → Bool
comes_before a b =
    if a.survival_steps == b.survival_steps
    then (if a.generation == b.generation
        then total_lt (finite_metric b.energy_accumulated) (finite_metric a.energy_accumulated)
        else ltb b.generation a.generation)
    else ltb b.survival_steps a.survival_steps

-- A stable sort: an index goes before the first one that does not come before it or tie with it.
unfoldable pub place :
    ℕ × CompetenceRecord → List (ℕ × CompetenceRecord) → List (ℕ × CompetenceRecord)
place x [] = x ∷ []
place x (y ∷ ys) = let rest = place x ys in if comes_before y.1 x.1 then y ∷ rest else x ∷ y ∷ ys

unfoldable pub sorted : List (ℕ × CompetenceRecord) → List (ℕ × CompetenceRecord)
sorted [] = []
sorted (x ∷ xs) = place x (sorted xs)

unfoldable pub indexed : ℕ → List CompetenceRecord → List (ℕ × CompetenceRecord)
indexed i [] = []
indexed i (r ∷ records) = (i, r) ∷ indexed (suc i) records

unfoldable pub rank : List CompetenceRecord → List ℕ
rank records = map (λ x. x.0) (sorted (indexed 0 records))
