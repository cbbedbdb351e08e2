-- ===== src/Core/Economy/Tests.antt =====
-- The economy of a world of two nodes.
use ertw.Core.Economy.Laws.{kinetic_harvest-IsFunded}
use ertw.Common.{◌∷◌, []}
use ertw.Core.World.Samples.{pair-IsFunded, pair, calm, plane}
use ertw.Core.Economy.Harvest.{kinetic_harvest}
use ertw.Core.World.Accounts.{IsFunded}

kinetic_harvest-IsFunded_example : IsFunded (kinetic_harvest plane calm (1 ∷ 2 ∷ []) pair)
kinetic_harvest-IsFunded_example =
    kinetic_harvest-IsFunded plane calm (1 ∷ 2 ∷ []) pair pair-IsFunded
