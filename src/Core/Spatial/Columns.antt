-- ===== src/Core/Spatial/Columns.antt =====
-- The loops of a query, against the list of positions that the hash was built from.
use ertw.Core.Spatial.{
  columns, column, shifted, push_all, SpatialHash, push_into, from_pos, bucket, same_cell, Cell,
}
use ertw.Common.{
  ℕ, Bool, false, ◌≡◌, refl, arith, List, [], ◌∷◌, ◌++◌, ◌==◌, ◌&&◌, ◌||◌, ◌+◌, zero, suc, ◌*◌,
}
use ertw.Core.Fragment.Divide.{contains}
use ertw.Core.Components.{Entity}
use ertw.Core.World.{Vec2}

-- Some row is the entity's and lies in the cell.
unfoldable pub stands_in : List (Entity × Vec2) → Entity → Cell → Bool
stands_in [] e cell = false
stands_in ((j, pos) ∷ rows) e cell =
    j == e && same_cell (from_pos pos) cell || stands_in rows e cell

contains-append :
    (xs ys : List Entity) (e : Entity) → contains (xs ++ ys) e ≡ (contains xs e || contains ys e)
unfolding contains
contains-append [] ys e = refl
contains-append (x ∷ xs) ys e = ground (arith, contains-append xs ys e)

contains-push_into :
    (cells : SpatialHash) (cell at : Cell) (j e : Entity)
    → contains (bucket (push_into cells at j) cell) e
      ≡ (contains (bucket cells cell) e || j == e && same_cell at cell)
unfolding bucket push_into contains same_cell
contains-push_into [] cell at j e = ground arith
contains-push_into ((c, es) ∷ cells) cell at j e =
    ground (arith, contains-append es (j ∷ []) e, contains-push_into cells cell at j e)

contains-push_all :
    (rows : List (Entity × Vec2)) (cells : SpatialHash) (cell : Cell) (e : Entity)
    → contains (bucket (push_all cells rows) cell) e
      ≡ (contains (bucket cells cell) e || stands_in rows e cell)
unfolding push_all stands_in
contains-push_all [] cells cell e = ground arith
contains-push_all ((j, pos) ∷ rows) cells cell e = ground (
  arith,
  contains-push_all rows (push_into cells (from_pos pos) j) cell e,
  contains-push_into cells cell (from_pos pos) j e,
)

-- Some row of the entity lies in one of `n` cells of a column, from the `i`-th on.
unfoldable pub in_column : List (Entity × Vec2) → Entity → ℕ → ℕ → ℕ → ℕ → ℕ → Bool
in_column rows e x y r i zero = false
in_column rows e x y r i (suc n) =
    stands_in rows e (record { x = x; y = shifted y r i }) || in_column rows e x y r (suc i) n

unfoldable pub in_columns : List (Entity × Vec2) → Entity → Cell → ℕ → ℕ → ℕ → Bool
in_columns rows e center r i zero = false
in_columns rows e center r i (suc n) =
    in_column rows e (shifted center.x r i) center.y r 0 (2 * r + 1)
    || in_columns rows e center r (suc i) n

module _ (rows : List (Entity × Vec2)) (e : Entity) where
  column_lem :
      (x y r i n : ℕ)
      → contains (column (push_all [] rows) x y r i n) e ≡ in_column rows e x y r i n
  unfolding column in_column contains bucket
  column_lem x y r i zero = refl
  column_lem x y r i (suc n) =
      let cell : Cell = record { x = x; y = shifted y r i } in
      ground (
        arith,
        contains-append (bucket (push_all [] rows) cell) (column (push_all [] rows) x y r (suc i) n)
            e,
        contains-push_all rows [] cell e,
        column_lem x y r (suc i) n,
      )

  pub columns_lem :
      (center : Cell) (r i n : ℕ)
      → contains (columns (push_all [] rows) center r i n) e ≡ in_columns rows e center r i n
  unfolding columns in_columns contains
  columns_lem center r i zero = refl
  columns_lem center r i (suc n) =
      let x = shifted center.x r i in
      ground (
        arith,
        contains-append (column (push_all [] rows) x center.y r 0 (2 * r + 1))
            (columns (push_all [] rows) center r (suc i) n) e,
        column_lem x center.y r 0 (2 * r + 1),
        columns_lem center r (suc i) n,
      )

-- The coordinate is one of `n` of the range, from the `i`-th on.
unfoldable pub in_range : ℕ → ℕ → ℕ → ℕ → ℕ → Bool
in_range center r c i zero = false
in_range center r c i (suc n) = c == shifted center r i || in_range center r c (suc i) n

in_column_row :
    (rows : List (Entity × Vec2)) (e j : Entity) (pos : Vec2) (x y r i n : ℕ)
    → in_column ((j, pos) ∷ rows) e x y r i n ≡ (
        j == e && ((from_pos pos).x == x && in_range y r (from_pos pos).y i n)
        || in_column rows e x y r i n)
unfolding in_column in_range stands_in same_cell
in_column_row rows e j pos x y r i zero = ground arith
in_column_row rows e j pos x y r i (suc n) =
    ground (arith, in_column_row rows e j pos x y r (suc i) n)

pub in_columns_row :
    (rows : List (Entity × Vec2)) (e j : Entity) (pos : Vec2) (center : Cell) (r i n : ℕ)
    → in_columns ((j, pos) ∷ rows) e center r i n ≡ (
        j == e
          && (in_range center.x r (from_pos pos).x i n
              && in_range center.y r (from_pos pos).y 0 (2 * r + 1))
        || in_columns rows e center r i n)
unfolding in_columns in_range
in_columns_row rows e j pos center r i zero = ground arith
in_columns_row rows e j pos center r i (suc n) = ground (
  arith,
  in_column_row rows e j pos (shifted center.x r i) center.y r 0 (2 * r + 1),
  in_columns_row rows e j pos center r (suc i) n,
)
