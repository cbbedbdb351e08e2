-- ===== src/Core/Spatial/Query.antt =====
-- What a query answers, against the list of positions that the hash was built from.
use ertw.Core.Spatial.Columns.{
  in_columns_row, stands_in, columns_lem, in_columns, in_column, in_range,
}
use ertw.Float.Order.{F32}
use ertw.Core.Spatial.{rebuild, query_cells, floor_i32, shifted, SpatialHash, from_pos, Cell}
use ertw.Common.{
  ltb, ℕ, Bool, false, ◌≡◌, refl, arith, List, [], ◌∷◌, ◌==◌, ◌&&◌, ◌||◌, leb, ◌+◌, ◌%◌, ◌^◌, zero,
  suc, ◌≤◌, ◌<◌, ◌∙◌, ◌-◌, ◌*◌, some,
}
use ertw.Core.Fragment.Divide.{contains}
use ertw.Core.Components.{Entity}
use ertw.Core.World.{Vec2}

-- A coordinate is at most `r` from the center's, around the wrap.
unfoldable pub within : ℕ → ℕ → ℕ → Bool
within center r c = leb ((c + r + (2 ^ 32 - center)) % 2 ^ 32) (2 * r)

-- Some row is the entity's and lies in the square of cells.
unfoldable pub stands_near : List (Entity × Vec2) → Entity → Cell → ℕ → Bool
stands_near [] e center r = false
stands_near ((j, pos) ∷ rows) e center r =
    j == e && (within center.x r (from_pos pos).x && within center.y r (from_pos pos).y)
    || stands_near rows e center r

abbrev offset : ℕ → ℕ → ℕ → ℕ
offset center r c = (c + r + (2 ^ 32 - center)) % 2 ^ 32

shifted-offset :
    (center r c i : ℕ)
    → center < 2 ^ 32
    → r < 2 ^ 31
    → c < 2 ^ 32
    → i < 2 ^ 32
    → (c == shifted center r i) ≡ (offset center r c == i)
unfolding shifted
shifted-offset center r c i h k l m = ground arith

in_range_lem :
    (center r c i n : ℕ)
    → center < 2 ^ 32
    → r < 2 ^ 31
    → c < 2 ^ 32
    → i + n ≤ 2 ^ 32
    → in_range center r c i n ≡ (leb i (offset center r c) && ltb (offset center r c) (i + n))
unfolding in_range
in_range_lem center r c i zero h k l m = ground arith
in_range_lem center r c i (suc n) h k l m = ground (
  arith,
  shifted-offset center r c i h k l (omega arith),
  in_range_lem center r c (suc i) n h k l (omega arith),
)

in_range-within :
    (center r c : ℕ)
    → center < 2 ^ 32
    → r < 2 ^ 31
    → c < 2 ^ 32
    → in_range center r c 0 (2 * r + 1) ≡ within center r c
unfolding within
in_range-within center r c h k l =
    ground (arith, in_range_lem center r c 0 (2 * r + 1) h k l (omega arith))

floor_i32-lt : (x : F32) → floor_i32 x < 2 ^ 32
unfolding floor_i32
floor_i32-lt x = ground arith

no_column : (e : Entity) (x y r i n : ℕ) → in_column [] e x y r i n ≡ false
unfolding in_column stands_in
no_column e x y r i zero = refl
no_column e x y r i (suc n) = ground (arith, no_column e x y r (suc i) n)

no_rows : (e : Entity) (center : Cell) (r i n : ℕ) → in_columns [] e center r i n ≡ false
unfolding in_columns
no_rows e center r i zero = refl
no_rows e center r i (suc n) = ground (
  arith,
  no_column e (shifted center.x r i) center.y r 0 (2 * r + 1),
  no_rows e center r (suc i) n,
)

from_pos-lt : (pos : Vec2) → ((from_pos pos).x < 2 ^ 32) × ((from_pos pos).y < 2 ^ 32)
unfolding from_pos
from_pos-lt pos = (floor_i32-lt _, floor_i32-lt _)

in_columns_near :
    (rows : List (Entity × Vec2)) (e : Entity) (center : Cell) (r : ℕ)
    → center.x < 2 ^ 32
    → center.y < 2 ^ 32
    → r < 2 ^ 31
    → in_columns rows e center r 0 (2 * r + 1) ≡ stands_near rows e center r
unfolding stands_near
in_columns_near [] e center r h k l = no_rows e center r 0 (2 * r + 1)
in_columns_near ((j, pos) ∷ rows) e center r h k l =
    let cell = from_pos pos in
    ground (
      arith,
      in_columns_row rows e j pos center r 0 (2 * r + 1),
      in_range-within center.x r cell.x h l ((from_pos-lt pos).0),
      in_range-within center.y r cell.y k l ((from_pos-lt pos).1),
      in_columns_near rows e center r h k l,
    )

-- After a rebuild, whatever the hash held before, a query with a radius of r cells answers exactly
-- the entities that have a position in the square of cells around the center.
pub query_cells-stands_near :
    (cells : SpatialHash) (rows : List (Entity × Vec2)) (pos : Vec2) (r : ℕ) (e : Entity)
    → r < 2 ^ 31
    → contains (query_cells (rebuild cells rows) (from_pos pos) (some r)) e
      ≡ stands_near rows e (from_pos pos) r
unfolding query_cells rebuild
query_cells-stands_near cells rows pos r e l =
    columns_lem rows e (from_pos pos) r 0 (2 * r + 1)
    ∙ in_columns_near rows e (from_pos pos) r ((from_pos-lt pos).0) ((from_pos-lt pos).1) l
