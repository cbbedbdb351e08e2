-- ===== src/Core/Spatial/Tests.antt =====
-- Two entities around the origin.
use ertw.Core.Spatial.Query.{query_cells-stands_near, stands_near}
use ertw.Core.Spatial.{from_pos, rebuild, query_cells}
use ertw.Core.Fragment.Divide.{contains}
use ertw.Core.World.{Vec2}
use ertw.Core.Components.{Entity}
use ertw.Common.{[], ◌∷◌, arith, ◌≡◌, some, List}

abbrev rows : List (Entity × Vec2)
rows = (1, record { x = 0; y = 0 }) ∷ (2, record { x = 0x3f800000; y = 0xbf800000 }) ∷ []

abbrev center : Vec2
center = record { x = 0; y = 0 }

query_cells-stands_near_example :
    contains (query_cells (rebuild [] rows) (from_pos center) (some 2)) 2
    ≡ stands_near rows 2 (from_pos center) 2
query_cells-stands_near_example = query_cells-stands_near [] rows center 2 2 (omega arith)
