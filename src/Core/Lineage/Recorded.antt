-- ===== src/Core/Lineage/Recorded.antt =====
-- Every agent that is gone is recorded once, with what was last known of it.
use mathlib.Core.List.{append_assoc, append-nil}
use ertw.Core.Registry.Laws.{get-retain_ids, get-insert}
use ertw.Core.Components.{Entity}
use ertw.Core.Registry.{retain_ids, get, insert}
use ertw.Core.Lineage.Outcomes.{
  snapshot_from_record, record_agent_history, retire_one, snapshot_of, AgentHistory, retire,
  ActiveAgentRecord, is_current, remember, removed, Entry,
}
use ertw.Common.{
  ◌-◌, ◌^◌, ap, min, sym, map, ◌++◌, inr, ℕ, not, inl, Bool-cases, All, List, [], ◌∷◌, ◌==◌, ◌≡◌,
  ◌∙◌, refl, arith, some, false, true, if◌then◌else◌,
}

-- No two entries have one key.
abbrev pub IsDistinct : List Entry → Type 0
IsDistinct [] = Unit
IsDistinct (p ∷ active) = All (λ q. (p.0 == q.0) ≡ false) active × IsDistinct active

-- The entries of the agents that are gone.
unfoldable pub absent_entries : List Entry → List Entry → List Entry
absent_entries rows [] = []
absent_entries rows (entry ∷ active) =
    let rest = absent_entries rows active in
    if is_current rows (entry.0) then rest else entry ∷ rest

abbrev keys : List Entry → List Entity
keys [] = []
keys (p ∷ l) = p.0 ∷ keys l

removed-keys : (rows active : List Entry) → removed rows active ≡ keys (absent_entries rows active)
unfolding removed absent_entries
removed-keys rows [] = refl
removed-keys rows (entry ∷ active) = ground (arith, removed-keys rows active)

insert_absent :
    (rows active : List Entry) (e : Entity) (r : ActiveAgentRecord)
    → is_current rows e ≡ true
    → absent_entries rows (insert active e r) ≡ absent_entries rows active
unfolding insert absent_entries
insert_absent rows [] e r h = ground (arith, h)
insert_absent rows ((k, t) ∷ active) e r h = ground (arith, h, insert_absent rows active e r)

-- The first rows are among all of them.
remember_absent :
    (all rows active : List Entry)
    → All (λ row. is_current all (row.0) ≡ true) rows
    → absent_entries all (remember active rows) ≡ absent_entries all active
unfolding remember
remember_absent all [] active h = refl
remember_absent all (row ∷ rows) active h =
    remember_absent all rows (insert active (row.0) (row.1)) (h.1)
    ∙ insert_absent all active (row.0) (row.1) (h.0)

current_more :
    (x : Entry) (rows l : List Entry)
    → All (λ row. is_current rows (row.0) ≡ true) l
    → All (λ row. is_current (x ∷ rows) (row.0) ≡ true) l
unfolding is_current
current_more x rows [] h = tt
current_more x rows (y ∷ l) h = (ground (arith, h.0), current_more x rows l (h.1))

all_current : (rows : List Entry) → All (λ row. is_current rows (row.0) ≡ true) rows
unfolding is_current
all_current [] = tt
all_current (x ∷ rows) = (ground arith, current_more x rows rows (all_current rows))

-- Every entry of the list is what the map holds for its key.
abbrev IsHeld : List Entry → List Entry → Type 0
IsHeld active l = All (λ p. get active (p.0) ≡ some (p.1)) l

cons-IsHeld :
    (x : Entry) (active l : List Entry)
    → All (λ q. (x.0 == q.0) ≡ false) l
    → IsHeld active l
    → IsHeld (x ∷ active) l
unfolding get
cons-IsHeld x active [] n h = tt
cons-IsHeld x active (y ∷ l) n h = (ground (arith, n.0, h.0), cons-IsHeld x active l (n.1) (h.1))

distinct-IsHeld : (active : List Entry) → IsDistinct active → IsHeld active active
unfolding get
distinct-IsHeld [] d = tt
distinct-IsHeld (x ∷ active) d =
    (ground arith, cons-IsHeld x active active (d.0) (distinct-IsHeld active (d.1)))

get-remember :
    (rows active : List Entry) (e : Entity)
    → is_current rows e ≡ false
    → get (remember active rows) e ≡ get active e
unfolding remember is_current
get-remember [] active e h = refl
get-remember (row ∷ rows) active e h =
    get-remember rows (insert active (row.0) (row.1)) e (ground (arith, h))
    ∙ ground (arith, h, get-insert active (row.0) e (row.1))

-- What the map holds for the agents that are gone is what it held before the rows went in.
absent-IsHeld :
    (rows active l : List Entry)
    → IsHeld active l
    → IsHeld (remember active rows) (absent_entries rows l)
unfolding absent_entries
absent-IsHeld rows active [] h = tt
absent-IsHeld rows active (p ∷ l) h = elim (Bool-cases (is_current rows (p.0))) [
  | inl e ↦ rw e (absent-IsHeld rows active l (h.1))
  | inr e ↦ rw e (get-remember rows active (p.0) e ∙ h.0, absent-IsHeld rows active l (h.1))
]

absent-All : (P : Entry → Type 0) (rows l : List Entry) → All P l → All P (absent_entries rows l)
unfolding absent_entries
absent-All P rows [] h = tt
absent-All P rows (p ∷ l) h = elim (Bool-cases (is_current rows (p.0))) [
  | inl e ↦ rw e (absent-All P rows l (h.1))
  | inr e ↦ rw e (h.0, absent-All P rows l (h.1))
]

absent-IsDistinct : (rows l : List Entry) → IsDistinct l → IsDistinct (absent_entries rows l)
unfolding absent_entries
absent-IsDistinct rows [] d = tt
absent-IsDistinct rows (p ∷ l) d = elim (Bool-cases (is_current rows (p.0))) [
  | inl e ↦ rw e (absent-IsDistinct rows l (d.1))
  | inr e ↦
      rw e (absent-All (λ q. (p.0 == q.0) ≡ false) rows l (d.0), absent-IsDistinct rows l (d.1))
]

-- Removing another agent's entry leaves what the map holds.
without-IsHeld :
    (active l : List Entry) (e : Entity)
    → All (λ q. (e == q.0) ≡ false) l
    → IsHeld active l
    → IsHeld (retain_ids (λ k. not (k == e)) active) l
without-IsHeld active [] e n h = tt
without-IsHeld active (p ∷ l) e n h = (
  ground (arith, get-retain_ids (λ k. not (k == e)) active (p.0), n.0, h.0),
  without-IsHeld active l e (n.1) (h.1),
)

retire_lem :
    (step : ℕ) (l : List Entry) (h : AgentHistory)
    → IsDistinct l
    → IsHeld h.active l
    → (retire step (keys l) h).completed ≡ h.completed ++ map (snapshot_of false step) l
unfolding retire retire_one snapshot_from_record
retire_lem step [] h d k = sym (append-nil h.completed)
retire_lem step (p ∷ l) h d k =
    let h' = retire_one step (p.0) h (some (p.1)) in
    ap (λ o. (retire step (keys l) (retire_one step (p.0) h o)).completed) (k.0)
    ∙ retire_lem step l h' (d.1) (without-IsHeld h.active l (p.0) (d.0) (k.1))
    ∙ append_assoc h.completed (snapshot_of false step p ∷ []) (map (snapshot_of false step) l)

pub completed_lem :
    (clock : ℕ) (rows : List Entry) (h : AgentHistory)
    → IsDistinct h.active
    → (record_agent_history clock rows h).completed
      ≡ h.completed
        ++ map (snapshot_of false (min clock (2 ^ 32 - 1))) (absent_entries rows h.active)
unfolding record_agent_history
completed_lem clock rows h d =
    let step = min clock (2 ^ 32 - 1) in
    let start : AgentHistory = record h { active = remember h.active rows } in
    let gone =
      removed-keys rows (remember h.active rows)
      ∙ ap keys (remember_absent rows rows h.active (all_current rows)) in
    ap (λ es. (retire step es start).completed) gone
    ∙ retire_lem step (absent_entries rows h.active) start (absent-IsDistinct rows h.active d)
        (absent-IsHeld rows h.active h.active (distinct-IsHeld h.active d))
