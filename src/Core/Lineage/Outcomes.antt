-- ===== src/Core/Lineage/Outcomes.antt =====
-- crates/ertw_core/src/lineage.rs: the history of agents and the snapshots for the evaluator. A map is
-- an association list with one entry for a key; removed keys come in its order.
use ertw.Core.Registry.{get, insert, retain_ids}
use ertw.Core.Components.{Entity, AgentMarker, EnergyLedger}
use ertw.Float.Order.{F32}
use ertw.Common.{
  Option, ℕ, Bool, List, [], ◌∷◌, ◌++◌, ◌==◌, ◌||◌, not, none, some, false, true, if◌then◌else◌,
  min, ◌-◌, ◌^◌, map,
}

pub record AgentSnapshot : Type 0 where
  pub alive : Bool
  pub entity : ℕ
  pub generation : ℕ
  pub lineage : ℕ
  pub step : ℕ
  pub harvested : F32
  pub consumed_from_others : F32
  pub vented : F32
  pub born_step : ℕ

pub record ActiveAgentRecord : Type 0 where
  pub marker : AgentMarker
  pub ledger : EnergyLedger

-- An agent with its record, as a row of the query or an entry of the map.
abbrev pub Entry : Type 0
Entry = Entity × ActiveAgentRecord

pub record AgentHistory : Type 0 where
  pub active : List Entry
  pub completed : List AgentSnapshot

unfoldable pub snapshot_of : Bool → ℕ → Entry → AgentSnapshot
snapshot_of alive step (e, r) = record {
  alive = alive;
  entity = e;
  generation = r.marker.generation;
  lineage = r.marker.lineage;
  step = step;
  harvested = r.ledger.harvested;
  consumed_from_others = r.ledger.consumed_from_others;
  vented = r.ledger.vented;
  born_step = r.ledger.born_step;
}

unfoldable pub snapshot_from_record : Entity → ActiveAgentRecord → ℕ → AgentSnapshot
snapshot_from_record e r step = snapshot_of false step (e, r)

unfoldable pub is_current : List Entry → Entity → Bool
is_current [] e = false
is_current (row ∷ rows) e = row.0 == e || is_current rows e

-- Each row goes into the map.
unfoldable pub remember : List Entry → List Entry → List Entry
remember active [] = active
remember active (row ∷ rows) = remember (insert active (row.0) (row.1)) rows

-- The keys that no row has.
unfoldable pub removed : List Entry → List Entry → List Entity
removed rows [] = []
removed rows (entry ∷ active) =
    let rest = removed rows active in if is_current rows (entry.0) then rest else entry.0 ∷ rest

-- One removed key, with what the map holds for it.
unfoldable pub retire_one : ℕ → Entity → AgentHistory → Option ActiveAgentRecord → AgentHistory
retire_one step e h none = h
retire_one step e h (some r) = record {
  active = retain_ids (λ k. not (k == e)) h.active;
  completed = h.completed ++ (snapshot_from_record e r step ∷ []);
}

unfoldable pub retire : ℕ → List Entity → AgentHistory → AgentHistory
retire step [] h = h
retire step (e ∷ entities) h = retire step entities (retire_one step e h (get h.active e))

-- The clock is cut to a u32.
unfoldable pub record_agent_history : ℕ → List Entry → AgentHistory → AgentHistory
record_agent_history clock rows h =
    let active = remember h.active rows in
    retire (min clock (2 ^ 32 - 1)) (removed rows active) (record h { active = active })

unfoldable pub collect_competence : AgentHistory → List Entry → ℕ → List AgentSnapshot
collect_competence h rows step = h.completed ++ map (snapshot_of true step) rows
