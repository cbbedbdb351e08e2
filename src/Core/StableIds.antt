-- ===== src/Core/StableIds.antt =====
-- crates/ertw_core/src/snapshot.rs: `StableIdAllocator` and `ensure_stable_ids`.
pub mod Unique
pub mod Laws
mod Tests
use ertw.Core.Components.{Entity}
use ertw.Core.Registry.{get, insert}
use ertw.Common.{
  ℕ, Bool, Option, none, some, List, [], ◌∷◌, ◌+◌, ◌-◌, ◌^◌, ◌&&◌, min, max, ltb, true, false,
  if◌then◌else◌,
}

-- An entity with a `StableId` or a `Physical`.
pub record Named : Type 0 where
  pub entity : Entity
  pub is_physical : Bool
  pub stable : Option ℕ

-- `StableIdAllocator::allocate`: the next state is also the identifier.
unfoldable pub allocate : ℕ → ℕ
allocate next = max (min (2 ^ 64 - 1) (next + 1)) 1

-- `StableIdAllocator::observe`.
unfoldable pub observe : ℕ → ℕ → ℕ
observe next value = max next value

unfoldable pub id_or : Option ℕ → ℕ
id_or none = 0
id_or (some id) = id

unfoldable pub highest : List Named → ℕ
highest [] = 0
highest (r ∷ rows) = max (id_or r.stable) (highest rows)

-- The physical entities without an identifier, in ascending order.
unfoldable pub sort_in : Entity → List Entity → List Entity
sort_in e [] = e ∷ []
sort_in e (j ∷ entities) =
    let rest = sort_in e entities in if ltb j e then j ∷ rest else e ∷ j ∷ entities

unfoldable pub nameless_row : Bool → Option ℕ → Entity → List Entity → List Entity
nameless_row true none e rest = sort_in e rest
nameless_row _ _ e rest = rest

unfoldable pub nameless : List Named → List Entity
nameless [] = []
nameless (r ∷ rows) = nameless_row r.is_physical r.stable r.entity (nameless rows)

-- The identifiers allocated one after the other, and the state after them.
unfoldable pub assign : ℕ → List Entity → List (Entity × ℕ) × ℕ
assign next [] = ([], next)
assign next (e ∷ entities) =
    let id = allocate next in let (left, last) = assign id entities in ((e, id) ∷ left, last)

-- The identifier goes to the entity.
unfoldable pub name_row : List (Entity × ℕ) → Named → Named
name_row assigned r = elim (get assigned r.entity) [
  | none ↦ r
  | some id ↦ record r { stable = some id }
]

unfoldable pub name_rows : List (Entity × ℕ) → List Named → List Named
name_rows assigned [] = []
name_rows assigned (r ∷ rows) = name_row assigned r ∷ name_rows assigned rows

unfoldable pub ensure_stable_ids : ℕ → List Named → ℕ × List Named
ensure_stable_ids next rows =
    let (assigned, last) = assign (observe next (highest rows)) (nameless rows) in
    (last, name_rows assigned rows)
