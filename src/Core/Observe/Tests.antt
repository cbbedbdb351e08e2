-- ===== src/Core/Observe/Tests.antt =====
-- An agent that sees one of two neighbors.
use ertw.Core.Observe.Samples.{sorting}
use ertw.Core.Components.{Entity}
use ertw.Interface.Observation.{default_neighbor}
use ertw.Core.World.{Vec2}
use ertw.Core.Observe.Nearby.{nearest_views-IsSelection, IsSelection, IsAscending}
use ertw.Core.Observe.{nearest_views, Sighting}
use ertw.Float.Order.{F32}
use ertw.Common.{[], ◌∷◌, refl, ◌≡◌, length, List, min}

abbrev sighting : F32 → Sighting
sighting d = (d, default_neighbor)

-- At 4.0, 1.0 and 2.0.
abbrev three : List Sighting
three = sighting 0x40800000 ∷ sighting 0x3f800000 ∷ sighting 0x40000000 ∷ []

nearest_views-IsSelection_example :
    IsAscending (nearest_views sorting 2 three)
    × IsSelection (nearest_views sorting 2 three) three
    × (length (nearest_views sorting 2 three) ≡ min 2 3)
nearest_views-IsSelection_example =
    nearest_views-IsSelection sorting 2 three (refl, (refl, (refl, tt)))

abbrev nearby : Vec2 → F32 → List Entity
nearby pos radius = 1 ∷ 2 ∷ []
