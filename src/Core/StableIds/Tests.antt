-- ===== src/Core/StableIds/Tests.antt =====
-- One node with an identifier, and two without.
use ertw.Core.StableIds.Laws.{ensure_stable_ids_lem, IsIdentified}
use ertw.Core.StableIds.Unique.{IsUnique}
use ertw.Core.StableIds.{
  ensure_stable_ids, sort_in, nameless_row, nameless, id_or, highest, observe, Named,
}
use ertw.Common.{List, [], ◌∷◌, some, none, true, zero, suc, arith}

abbrev rows : List Named
rows =
    record { entity = 5; is_physical = true; stable = some 9 }
    ∷ record { entity = 7; is_physical = true; stable = none }
    ∷ record { entity = 6; is_physical = true; stable = none }
    ∷ []

rows-IsUnique : IsUnique rows
rows-IsUnique zero zero r s id h k a b = ground (arith, h, k)
rows-IsUnique zero (suc zero) r s id h k a b = ground (arith, h, k, a, b)
rows-IsUnique zero (suc (suc zero)) r s id h k a b = ground (arith, h, k, a, b)
rows-IsUnique zero (suc (suc (suc j))) r s id h k a b = absurd (cc)
rows-IsUnique (suc zero) j r s id h k a b = ground (arith, h, a)
rows-IsUnique (suc (suc zero)) j r s id h k a b = ground (arith, h, a)
rows-IsUnique (suc (suc (suc i))) j r s id h k a b = absurd (cc)

ensure_stable_ids_lem_example :
    IsUnique (ensure_stable_ids 3 rows).1 × IsIdentified (ensure_stable_ids 3 rows).1
unfolding observe highest id_or nameless nameless_row sort_in
ensure_stable_ids_lem_example = ensure_stable_ids_lem 3 rows rows-IsUnique (omega arith)
