-- ===== src/Core/Spatial.antt =====
-- crates/ertw_core/src/spatial_hash.rs: the spatial hash. A cell's i32 coordinates are kept as numbers
-- 2 ^ 31 higher, so that the least is 0; their sum wraps. A map is an association list.
pub mod Columns
pub mod Query
mod Tests
use ertw.Common.{
  ℕ, Bool, Option, none, some, List, [], ◌∷◌, ◌++◌, ◌==◌, ◌&&◌, if◌then◌else◌, min, ◌+◌, ◌-◌, ◌*◌,
  ◌/◌, ◌%◌, ◌^◌, zero, suc, length,
}
use ertw.Core.Components.{Entity}
use ertw.Core.World.{Vec2}
use ertw.Float.Arith.{div}
use ertw.Float.Round.{value}
use ertw.Float.Order.{F32, is_nan, is_neg, magnitude}

-- 4.0.
abbrev pub cell_size : F32
cell_size = 0x40800000

pub record Cell : Type 0 where
  pub x : ℕ
  pub y : ℕ

-- `x.floor() as i32`, which saturates and sends a NaN to 0; a value counts units of 2 ^ -149.
unfoldable pub floor_i32 : F32 → ℕ
floor_i32 x =
    if is_nan x
    then 2 ^ 31
    else if is_neg x
    then 2 ^ 31 - min (2 ^ 31) ((value (magnitude x) + (2 ^ 149 - 1)) / 2 ^ 149)
    else 2 ^ 31 + min (2 ^ 31 - 1) (value (magnitude x) / 2 ^ 149)

-- `x.ceil() as i32`, where that is not negative.
unfoldable pub ceil_i32 : F32 → Option ℕ
ceil_i32 x =
    if is_nan x
    then some 0
    else if is_neg x
    then (if value (magnitude x) / 2 ^ 149 == 0 then some 0 else none)
    else some (min (2 ^ 31 - 1) ((value (magnitude x) + (2 ^ 149 - 1)) / 2 ^ 149))

unfoldable pub from_pos : Vec2 → Cell
from_pos pos = record { x = floor_i32 (div pos.x cell_size); y = floor_i32 (div pos.y cell_size) }

unfoldable pub same_cell : Cell → Cell → Bool
same_cell c d = c.x == d.x && (c.y == d.y)

abbrev pub SpatialHash : Type 0
SpatialHash = List (Cell × List Entity)

-- `entry(cell).or_default().push(e)`.
unfoldable pub push_into : SpatialHash → Cell → Entity → SpatialHash
push_into [] cell e = (cell, e ∷ []) ∷ []
push_into ((c, entities) ∷ cells) cell e =
    let rest = push_into cells cell e in
    if same_cell c cell then (c, entities ++ (e ∷ [])) ∷ cells else (c, entities) ∷ rest

unfoldable pub push_all : SpatialHash → List (Entity × Vec2) → SpatialHash
push_all cells [] = cells
push_all cells ((e, pos) ∷ rows) = push_all (push_into cells (from_pos pos) e) rows

-- The map is cleared first.
unfoldable pub rebuild : SpatialHash → List (Entity × Vec2) → SpatialHash
rebuild cells rows = push_all [] rows

-- What `extend_from_slice` appends for a cell.
unfoldable pub bucket : SpatialHash → Cell → List Entity
bucket [] cell = []
bucket ((c, entities) ∷ cells) cell =
    let rest = bucket cells cell in if same_cell c cell then entities else rest

-- `center + d` for d from -r on, as the i-th of the range.
unfoldable pub shifted : ℕ → ℕ → ℕ → ℕ
shifted center r i = (center + (2 ^ 32 - r) + i) % 2 ^ 32

-- The inner loop, `n` steps from the `i`-th.
unfoldable pub column : SpatialHash → ℕ → ℕ → ℕ → ℕ → ℕ → List Entity
column cells x y r i zero = []
column cells x y r i (suc n) =
    bucket cells (record { x = x; y = shifted y r i }) ++ column cells x y r (suc i) n

unfoldable pub columns : SpatialHash → Cell → ℕ → ℕ → ℕ → List Entity
columns cells center r i zero = []
columns cells center r i (suc n) =
    column cells (shifted center.x r i) center.y r 0 (2 * r + 1) ++ columns cells center r (suc i) n

unfoldable pub query_cells : SpatialHash → Cell → Option ℕ → List Entity
query_cells cells center none = []
query_cells cells center (some r) = columns cells center r 0 (2 * r + 1)

unfoldable pub query_radius : SpatialHash → Vec2 → F32 → List Entity
query_radius cells pos radius = query_cells cells (from_pos pos) (ceil_i32 (div radius cell_size))

unfoldable pub occupied_cells : SpatialHash → ℕ
occupied_cells cells = length cells
