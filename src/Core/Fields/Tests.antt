-- ===== src/Core/Fields/Tests.antt =====
-- Two magnetic nodes a unit apart.
use ertw.Float.Round.{round_runs}
use ertw.Float.Order.{clamp, lt, fmax}
use ertw.Core.Tags.{has, magnetic}
use ertw.Float.Arith.{float_runs, mul}
use ertw.Core.Fields.Balance.{magnetize-IsBalanced, IsBalanced}
use ertw.Core.Components.{Entity}
use ertw.Core.World.{World}
use ertw.Core.Fields.Forces.{
  signum, plus, difference, negated, scale, pair_force, push, push_pair, attract, attract_all,
  body_at, magnetize, is_magnetic, Vectors,
}
use ertw.Core.Fields.{bounded_sample, sample, new_sampler, Noise}
use ertw.Core.World.Samples.{pair}
use ertw.Common.{none, arith, some, [], true, ◌||◌, ◌∷◌, ◌≡◌, ◌==◌, if◌then◌else◌, Bool, refl}

abbrev still : Noise
still = record { kinetic = λ x y. 0; thermal = λ x y. 0; em = λ x y. 0x3f000000; sin = λ x. 0 }

abbrev vectors : Vectors
vectors = record { length_squared = λ v. mul v.x v.x; normalize_or_zero = λ v. v }

abbrev magnets : World
magnets = record pair { tags = λ e. if e == 1 || e == 2 then some magnetic else none }

abbrev has_body : Entity → Bool
has_body e = e == 1 || e == 2

magnets_bodied : (e : Entity) → is_magnetic magnets e ≡ true → has_body e ≡ true
unfolding is_magnetic body_at
magnets_bodied e h = ground arith

-- The first is drawn by 1.2 to the second.
magnets_draw :
    magnetize still vectors magnets new_sampler has_body (λ p r. 1 ∷ 2 ∷ []) (1 ∷ 2 ∷ [])
    ≡ record { target = 1; force = record { x = 0x3f99999a; y = 0 } }
      ∷ record { target = 2; force = record { x = 0xbf99999a; y = 0x80000000 } }
      ∷ []
unfolding magnetize attract_all attract push_pair push pair_force is_magnetic body_at scale negated
    difference plus signum sample bounded_sample fmax lt clamp has float_runs round_runs
magnets_draw = refl

magnetize-IsBalanced_example :
    IsBalanced magnets
      (magnetize still vectors magnets new_sampler has_body (λ p r. 1 ∷ 2 ∷ []) (1 ∷ 2 ∷ []))
magnetize-IsBalanced_example =
    magnetize-IsBalanced still vectors magnets new_sampler has_body magnets_bodied
      (λ p r. 1 ∷ 2 ∷ []) (1 ∷ 2 ∷ [])
