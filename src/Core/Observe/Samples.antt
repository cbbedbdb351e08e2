-- ===== src/Core/Observe/Samples.antt =====
-- A flat algebra, a still noise and a selection by sorting, for the tests.
use ertw.Float.Order.{lt, is_nan}
use ertw.Core.Observe.Nearby.{by_distance-IsAscending, by_distance-Perm, IsAscending}
use mathlib.Core.Option.{some_inj}
use native.Mathlib.Decide.{ℕ_discrete}
use ertw.Core.World.{Vec2}
use ertw.Core.World.Samples.{pair}
use ertw.Core.Components.{Entity}
use ertw.Float.Round.{round_runs}
use ertw.Float.Arith.{float_runs, mul, sub, add}
use ertw.Core.Fields.{Noise}
use ertw.Core.Observe.{by_distance, IsNumber, Selection, Sighting, Optics}
use ertw.Common.{
  ◌⊎◌, inl, inr, some, sym, ap, ◌∙◌, Bool, ◌||◌, refl, arith, All-drop, ℕ, ◌≡◌, ◌<◌, All, List, [],
  ◌∷◌, take, drop, length, false, suc, zero,
}

abbrev pub flat : Optics
flat = record {
  to_world = λ e v. v;
  to_local = λ e v. v;
  plus = λ p q. record { x = add p.x q.x; y = add p.y q.y };
  minus = λ p q. record { x = sub p.x q.x; y = sub p.y q.y };
  scaled = λ p k. record { x = mul p.x k; y = mul p.y k };
  length_squared = λ p. add (mul p.x p.x) (mul p.y p.y);
  from_angle = λ angle. record { x = angle; y = 0 };
}

abbrev pub still : Noise
still = record { kinetic = λ x y. 0; thermal = λ x y. 0; em = λ x y. 0; sin = λ x. 0 }

ascending_splits :
    (n : ℕ) (l : List Sighting)
    → IsAscending l
    → All (λ s. All (λ t. lt t.0 s.0 ≡ false) (drop n l)) (take n l)
ascending_splits zero l h = tt
ascending_splits (suc n) [] h = tt
ascending_splits (suc n) (s ∷ l) h =
    (All-drop (λ t. lt t.0 s.0 ≡ false) n l (h.0), ascending_splits n l (h.1))

pub by_distance_splits :
    (n : ℕ) (l : List Sighting)
    → n < length l
    → All IsNumber l
    → All (λ s. All (λ t. lt t.0 s.0 ≡ false) (drop n (by_distance l))) (take n (by_distance l))
by_distance_splits n l h k = ascending_splits n (by_distance l) (by_distance-IsAscending l k)

-- A selection that panics on every NaN.
unfoldable pub has_nan : List Sighting → Bool
has_nan [] = false
has_nan (s ∷ l) = is_nan s.0 || has_nan l

pub has_nan_not : (n : ℕ) (l : List Sighting) → All IsNumber l → has_nan l ≡ false
unfolding has_nan
has_nan_not n [] h = refl
has_nan_not n (s ∷ l) h = ground (arith, h.0, has_nan_not n l h.1)

abbrev pub sorting : Selection
sorting = record {
  select = λ n l. by_distance l;
  select_permutes = λ n l. by_distance-Perm l;
  select_splits = by_distance_splits;
  panics = λ n l. has_nan l;
  panics_not = has_nan_not;
}

pair_stands :
    (a : Entity) (p : Vec2)
    → pair.position a ≡ some p
    → (p ≡ record { x = 0; y = 0 }) ⊎ (p ≡ record { x = 0x3f800000; y = 0 })
pair_stands a p h = elim (ℕ_discrete a 1) [
  | yes e ↦ inl (sym (some_inj.0 (sym (ap pair.position e) ∙ h)))
  | no n ↦ elim (ℕ_discrete a 2) [
    | yes e ↦ inr (sym (some_inj.0 (sym (ap pair.position e) ∙ h)))
    | no m ↦ absurd (ground (arith, n, m, h))
  ]
]

at_two :
    (p q p0 q0 : Vec2)
    → p ≡ p0
    → q ≡ q0
    → is_nan (flat.length_squared (flat.minus q0 p0)) ≡ false
    → is_nan (flat.length_squared (flat.minus q p)) ≡ false
at_two p q p0 q0 g h n = rw (g, h) n

-- Entities 1 and 2 stand a unit apart.
pub pair-IsMetered :
    (a b : Entity) (p q : Vec2)
    → pair.position a ≡ some p
    → pair.position b ≡ some q
    → is_nan (flat.length_squared (flat.minus q p)) ≡ false
unfolding float_runs round_runs
pair-IsMetered a b p q g h = elim (pair_stands a p g) [
  | inl i ↦ elim (pair_stands b q h) [
    | inl j ↦ at_two p q _ _ i j refl
    | inr j ↦ at_two p q _ _ i j refl
  ]
  | inr i ↦ elim (pair_stands b q h) [
    | inl j ↦ at_two p q _ _ i j refl
    | inr j ↦ at_two p q _ _ i j refl
  ]
]
