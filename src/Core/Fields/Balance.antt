-- ===== src/Core/Fields/Balance.antt =====
-- The magnetic forces come in pairs.
use ertw.Float.Arith.{neg_value, pos_value}
use ertw.Core.Components.{Entity}
use ertw.Float.Laws.{mul-lt}
use ertw.Float.Order.{negate, F32}
use ertw.Core.Fields.{FieldSampler, Noise}
use ertw.Core.Fields.Forces.{
  magnetic_range, push, magnetize, attract_all, attract, push_pair, pair_force, negated,
  is_magnetic, Force, Vectors, scale,
}
use ertw.Core.World.{Vec2, World}
use ertw.Common.{
  false, some_bind, if◌then◌else◌, ◌>>=◌, inr, not, map_or_both, ◌||◌, none, inl, leb, Option,
  Bool-cases, some, arith, true, ◌≡◌, ◌+◌, Bool, ◌∷◌, ◌++◌, [], ◌^◌, ◌<◌, ℕ, List, refl,
}

-- Forces in pairs on two magnetic nodes, the one the negation of the other.
pub data IsBalanced (w : World) : List Force → Type 0 where
  balanced : IsBalanced w []
  couple :
      (a b : Entity) (f : Vec2) {rest : List Force}
      → a < b
      → is_magnetic w a ≡ true
      → is_magnetic w b ≡ true
      → (f.x < 2 ^ 32) × (f.y < 2 ^ 32)
      → IsBalanced w rest
      → IsBalanced w
          (record { target = a; force = f } ∷ record { target = b; force = negated f } ∷ rest)

IsBalanced-append :
    {w : World} {xs ys : List Force} → IsBalanced w xs → IsBalanced w ys → IsBalanced w (xs ++ ys)
IsBalanced-append balanced k = k
IsBalanced-append (couple a b f lt ma mb words h) k =
    couple a b f lt ma mb words (IsBalanced-append h k)

scale-lt : (v : Vec2) (k : F32) → ((scale v k).x < 2 ^ 32) × ((scale v k).y < 2 ^ 32)
unfolding scale
scale-lt v k = (mul-lt v.x k, mul-lt v.y k)

else_some : {A : Type 0} (b : Bool) (v f : A) → (if b then none else some v) ≡ some f → v ≡ f
else_some true v f h = ground arith
else_some false v f h = ground arith

module _ (noise : Noise) (vectors : Vectors) (w : World) (sampler : FieldSampler)
    (has_body : Entity → Bool)
    (bodied : (e : Entity) → is_magnetic w e ≡ true → has_body e ≡ true) where
  pair_force-lt :
      (pos other f : Vec2)
      → pair_force noise vectors w sampler has_body pos other ≡ some f
      → (f.x < 2 ^ 32) × (f.y < 2 ^ 32)
  unfolding pair_force
  pair_force-lt pos other f h = let q = else_some _ _ f h in rw (← q) (scale-lt _ _)

  push_pair-IsBalanced :
      (e other : Entity) (force : Option Vec2)
      → e < other
      → is_magnetic w e ≡ true
      → is_magnetic w other ≡ true
      → ((f : Vec2) → force ≡ some f → (f.x < 2 ^ 32) × (f.y < 2 ^ 32))
      → IsBalanced w (push_pair noise vectors w sampler has_body e other force)
  unfolding push_pair push
  push_pair-IsBalanced e other none lt me mo words = balanced
  push_pair-IsBalanced e other (some f) lt me mo words =
      rw (bodied e me, bodied other mo) (couple e other f lt me mo (words f refl) balanced)

  attract-IsBalanced :
      (e : Entity) (pos : Vec2) (other : Entity)
      → is_magnetic w e ≡ true
      → IsBalanced w (attract noise vectors w sampler has_body e pos other)
  unfolding attract
  attract-IsBalanced e pos other me = elim (Bool-cases (leb other e || not (is_magnetic w other))) [
    | inl q ↦ rw q balanced
    | inr q ↦ rw q (
        push_pair-IsBalanced e other
          (w.position other >>= pair_force noise vectors w sampler has_body pos) (ground (arith, q))
          me (ground (arith, q))
          (λ f h.
            let (p, at, g) =
              some_bind (w.position other) (pair_force noise vectors w sampler has_body pos) f h in
            pair_force-lt pos p f g))
  ]

  attract_all-IsBalanced :
      (e : Entity) (pos : Vec2) (nearby : List Entity)
      → is_magnetic w e ≡ true
      → IsBalanced w (attract_all noise vectors w sampler has_body e pos nearby)
  unfolding attract_all
  attract_all-IsBalanced e pos [] me = balanced
  attract_all-IsBalanced e pos (other ∷ nearby) me =
      IsBalanced-append (attract-IsBalanced e pos other me) (attract_all-IsBalanced e pos nearby me)

  -- Where every magnetic node has a body, the magnetic forces are pairs on two different magnetic
  -- nodes, one the exact opposite of the other, whatever the spatial hash answers.
  pub magnetize-IsBalanced :
      (query_radius : Vec2 → F32 → List Entity) (nodes : List Entity)
      → IsBalanced w (magnetize noise vectors w sampler has_body query_radius nodes)
  unfolding magnetize
  magnetize-IsBalanced query_radius [] = balanced
  magnetize-IsBalanced query_radius (e ∷ nodes) =
      let rest = magnetize-IsBalanced query_radius nodes in
      elim (Bool-cases (is_magnetic w e)) [
        | inl q ↦ rw q (
            IsBalanced-append
              (map_or_both (IsBalanced w) []
                (λ pos.
                  attract_all noise vectors w sampler has_body e pos
                    (query_radius pos magnetic_range))
                (w.position e) balanced
                (λ pos at. attract_all-IsBalanced e pos (query_radius pos magnetic_range) q))
              rest)
        | inr q ↦ rw q rest
      ]

-- The sizes of the forces along one axis, those to one side and those to the other.
unfoldable pub total : (F32 → ℕ) → (Vec2 → F32) → List Force → ℕ
total side axis [] = 0
total side axis (f ∷ forces) = side (axis f.force) + total side axis forces

sides :
    (x : F32) → x < 2 ^ 32 → pos_value x + pos_value (negate x) ≡ neg_value x + neg_value (negate x)
sides x h = ground arith

total-balanced :
    {w : World} (axis : Vec2 → F32)
    → ((f : Vec2) → axis (negated f) ≡ negate (axis f))
    → ((f : Vec2) → (f.x < 2 ^ 32) × (f.y < 2 ^ 32) → axis f < 2 ^ 32)
    → {forces : List Force} → IsBalanced w forces
    → total pos_value axis forces ≡ total neg_value axis forces
unfolding total
total-balanced axis flip word balanced = refl
total-balanced axis flip word (couple a b f {rest} lt ma mb words h) =
    rw (flip f) (omega (arith, sides (axis f) (word f words), total-balanced axis flip word h))

-- Where every magnetic node has a body, the magnetic forces of a step add up to nothing: along each
-- axis the sizes to the one side are, exactly, those to the other.
pub magnetize_momentum :
    (noise : Noise) (vectors : Vectors) (w : World) (sampler : FieldSampler)
    (has_body : Entity → Bool)
    → ((e : Entity) → is_magnetic w e ≡ true → has_body e ≡ true)
    → (query_radius : Vec2 → F32 → List Entity) (nodes : List Entity)
    → (total pos_value (λ f. f.x) (magnetize noise vectors w sampler has_body query_radius nodes)
        ≡ total neg_value
            (λ f. f.x)
            (magnetize noise vectors w sampler has_body query_radius nodes))
      × (total pos_value (λ f. f.y) (magnetize noise vectors w sampler has_body query_radius nodes)
          ≡ total neg_value
              (λ f. f.y)
              (magnetize noise vectors w sampler has_body query_radius nodes))
unfolding negated
magnetize_momentum noise vectors w sampler has_body bodied query_radius nodes =
    let h = magnetize-IsBalanced noise vectors w sampler has_body bodied query_radius nodes in
    (
      total-balanced (λ f. f.x) (λ f. refl) (λ f words. words.0) h,
      total-balanced (λ f. f.y) (λ f. refl) (λ f words. words.1) h,
    )
