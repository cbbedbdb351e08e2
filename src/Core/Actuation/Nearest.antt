-- ===== src/Core/Actuation/Nearest.antt =====
-- The neighbor that a clamp takes hold of is a nearest one.
use mathlib.Core.Path.{subst}
use ertw.Core.Components.{Entity}
use ertw.Core.Actuation.{nearest_neighbor, nearest_from, range_squared, consider}
use ertw.Float.Order.{lt, is_nan, F32, le}
use mathlib.Core.List.{Mem, mem-cons_of_mem, mem-cons_self}
use mathlib.Core.Option
use ertw.Common.{
  All-imp, ◌∙◌, ap, sym, inr, inl, ◌⊎◌, [], All, ◌∷◌, List, refl, none, false, ◌==◌, true, arith,
  if◌then◌else◌, some, ◌≡◌, Bool, Option,
}
use ertw.Core.World.{Vec2, World, Geometry}

-- A candidate of the search, at its squared distance.
unfoldable pub candidate : Geometry → World → Entity → Vec2 → Entity → Option F32
candidate geo w self_e self_pos other = if other == self_e then none else elim (w.tags other) [
  | none ↦ none
  | some t ↦ elim (w.position other) [
    | none ↦ none
    | some pos ↦
        let d2 = geo.distance_squared pos self_pos in if lt range_squared d2 then none else some d2
  ]
]

-- A distance in hand is no further than a candidate's.
unfoldable pub covers : Option (Entity × F32) → Option F32 → Bool
covers none none = true
covers none (some d) = false
covers (some r) none = true
covers (some r) (some d) = le r.1 d

-- The distances are numbers.
abbrev pub IsMeasured : Option F32 → Type 0
IsMeasured c = (d : F32) → c ≡ some d → is_nan d ≡ false

unfoldable nearer : Option (Entity × F32) → Entity → Option F32 → Option (Entity × F32)
nearer best other none = best
nearer none other (some d) = some (other, d)
nearer (some r) other (some d) = if le r.1 d then some r else some (other, d)

-- The same for what is in hand.
abbrev IsNumbered : Option (Entity × F32) → Type 0
IsNumbered best = (r : Entity × F32) → best ≡ some r → is_nan r.1 ≡ false

nearer_number :
    (best : Option (Entity × F32)) (other : Entity) (c : Option F32)
    → IsNumbered best
    → IsMeasured c
    → IsNumbered (nearer best other c)
unfolding nearer
nearer_number best other none b m r e = b r e
nearer_number none other (some d) b m r e = ground (arith, m d refl)
nearer_number (some r) other (some d) b m s e = ground (arith, m d refl, b r refl)

covers-nearer_new :
    (best : Option (Entity × F32)) (other : Entity) (c : Option F32)
    → IsNumbered best
    → IsMeasured c
    → covers (nearer best other c) c ≡ true
unfolding nearer covers le
covers-nearer_new none other none b m = refl
covers-nearer_new (some r) other none b m = refl
covers-nearer_new none other (some d) b m = ground (arith, m d refl)
covers-nearer_new (some r) other (some d) b m = ground (arith, m d refl, b r refl)

covers-nearer_old :
    (best : Option (Entity × F32)) (other : Entity) (c x : Option F32)
    → IsNumbered best
    → IsMeasured c
    → IsMeasured x
    → covers best x ≡ true
    → covers (nearer best other c) x ≡ true
unfolding nearer covers le
covers-nearer_old best other none x b m mx h = h
covers-nearer_old none other (some d) none b m mx h = refl
covers-nearer_old none other (some d) (some y) b m mx h = ground arith
covers-nearer_old (some r) other (some d) none b m mx h = ground arith
covers-nearer_old (some r) other (some d) (some y) b m mx h =
    ground (arith, m d refl, mx y refl, b r refl)

nearer-cases :
    (best : Option (Entity × F32)) (other : Entity) (c : Option F32)
    → (nearer best other c ≡ best)
      ⊎ ((d : F32) × (c ≡ some d) × (nearer best other c ≡ some (other, d)))
unfolding nearer
nearer-cases best other none = inl refl
nearer-cases none other (some d) = inr (d, refl, refl)
nearer-cases (some r) other (some d) =
    elim (le r.1 d)
      as (λ x.
        ((if x then some r else some (other, d)) ≡ some r)
        ⊎ ((d' : F32) × (some d ≡ some d')
            × ((if x then some r else some (other, d)) ≡ some (other, d')))) [
              | true ↦ inl refl
              | false ↦ inr (d, refl, refl)
            ]

consider-nearer :
    (geo : Geometry) (w : World) (self_e : Entity) (self_pos : Vec2) (other : Entity)
    (best : Option (Entity × F32))
    → consider geo w self_e self_pos other best
      ≡ nearer best other (candidate geo w self_e self_pos other)
unfolding consider candidate nearer
consider-nearer geo w self_e self_pos other best = ground arith

module _ (geo : Geometry) (w : World) (self_e : Entity) (self_pos : Vec2) where
  -- Every candidate is at a distance that is a number.
  abbrev pub IsMetric : Type 0
  IsMetric = (o : Entity) → IsMeasured (candidate geo w self_e self_pos o)

  -- What is in hand is a candidate at its distance.
  abbrev IsFound : Option (Entity × F32) → Type 0
  IsFound best = (r : Entity × F32) → best ≡ some r → candidate geo w self_e self_pos r.0 ≡ some r.1

  found-IsNumbered : (best : Option (Entity × F32)) → IsMetric → IsFound best → IsNumbered best
  found-IsNumbered best m f r e = m r.0 r.1 (f r e)

  nearer-IsFound :
      (best : Option (Entity × F32)) (other : Entity)
      → IsFound best
      → IsFound (nearer best other (candidate geo w self_e self_pos other))
  unfolding nearer
  nearer-IsFound best other f r e =
      elim (nearer-cases best other (candidate geo w self_e self_pos other)) [
        | inl b ↦ f r (sym b ∙ e)
        | inr h ↦ ground (arith, h.1, sym h.2 ∙ e)
      ]

  -- The loop takes one more entity.
  nearest_from-cons :
      (other : Entity) (near : List Entity) (best : Option (Entity × F32))
      → nearest_from geo w self_e self_pos (other ∷ near) best
        ≡ nearest_from geo w self_e self_pos near
            (nearer best other (candidate geo w self_e self_pos other))
  unfolding nearest_from
  nearest_from-cons other near best =
      ap (nearest_from geo w self_e self_pos near)
        (consider-nearer geo w self_e self_pos other best)

  nearest_from-IsFound :
      (near : List Entity) (best : Option (Entity × F32))
      → IsFound best
      → IsFound (nearest_from geo w self_e self_pos near best)
  unfolding nearest_from
  nearest_from-IsFound [] best f r e = f r e
  nearest_from-IsFound (other ∷ near) best f r e =
      nearest_from-IsFound near (nearer best other (candidate geo w self_e self_pos other))
        (nearer-IsFound best other f) r (sym (nearest_from-cons other near best) ∙ e)

  nearest_from_old :
      (near : List Entity) (best : Option (Entity × F32)) (x : Option F32)
      → IsMetric
      → IsFound best
      → IsMeasured x
      → covers best x ≡ true
      → covers (nearest_from geo w self_e self_pos near best) x ≡ true
  unfolding nearest_from
  nearest_from_old [] best x m f mx h = h
  nearest_from_old (other ∷ near) best x m f mx h =
      let c = candidate geo w self_e self_pos other in
      ap (λ r. covers r x) (nearest_from-cons other near best)
      ∙ nearest_from_old near (nearer best other c) x m (nearer-IsFound best other f) mx
          (covers-nearer_old best other c x (found-IsNumbered best m f) (m other) mx h)

  nearest_from-All :
      (near : List Entity) (best : Option (Entity × F32))
      → IsMetric
      → IsFound best
      → All
          (λ o.
            covers
              (nearest_from geo w self_e self_pos near best)
              (candidate geo w self_e self_pos o)
            ≡ true)
          near
  nearest_from-All [] best m f = tt
  nearest_from-All (other ∷ near) best m f =
      let c = candidate geo w self_e self_pos other in
      subst (λ r. All (λ o. covers r (candidate geo w self_e self_pos o) ≡ true) (other ∷ near))
        (sym (nearest_from-cons other near best))
        (
          nearest_from_old near (nearer best other c) c m (nearer-IsFound best other f) (m other)
              (covers-nearer_new best other c (found-IsNumbered best m f) (m other)),
          nearest_from-All near (nearer best other c) m (nearer-IsFound best other f),
        )

  -- The entity found by the loop was among those it looked at.
  nearest_from-Mem :
      (near : List Entity) (best : Option (Entity × F32)) (r : Entity × F32)
      → nearest_from geo w self_e self_pos near best ≡ some r
      → (best ≡ some r) ⊎ Mem r.0 near
  unfolding nearest_from
  nearest_from-Mem [] best r h = inl h
  nearest_from-Mem (other ∷ near) best r h =
      let c = candidate geo w self_e self_pos other in
      elim (nearest_from-Mem near (nearer best other c) r
        (sym (nearest_from-cons other near best) ∙ h)) [
          | inr m ↦ inr (mem-cons_of_mem other m)
          | inl e ↦ elim (nearer-cases best other c) [
            | inl b ↦ inl (sym b ∙ e)
            | inr n ↦
                let same : other ≡ r.0 = ground (arith, sym n.2 ∙ e) in
                inr (subst (λ o. Mem o (other ∷ near)) same mem-cons_self)
          ]
        ]

  -- What the search answers: no entity where none is a candidate, or else a candidate of those it
  -- looked at that is at most as far as every other.
  abbrev pub IsNearest : List Entity → Option Entity → Type 0
  IsNearest near none = All (λ o. candidate geo w self_e self_pos o ≡ none) near
  IsNearest near (some e) =
      Mem e near
      × (d : F32) × (candidate geo w self_e self_pos e ≡ some d)
      × All (λ o. (d' : F32) → candidate geo w self_e self_pos o ≡ some d' → le d d' ≡ true) near

  nothing-IsFound : IsFound none
  nothing-IsFound r e = ground arith

  covers-none : (c : Option F32) → covers none c ≡ true → c ≡ none
  unfolding covers
  covers-none none h = refl
  covers-none (some d) h = ground arith

  covers-some :
      (r : Entity × F32) (c : Option F32)
      → covers (some r) c ≡ true
      → (d : F32) → c ≡ some d
      → le r.1 d ≡ true
  unfolding covers
  covers-some r none h d e = ground arith
  covers-some r (some x) h d e = ground arith

  nearest_from-taken :
      (near : List Entity) (r : Entity × F32)
      → nearest_from geo w self_e self_pos near none ≡ some r
      → Mem r.0 near
  nearest_from-taken near r h = elim (nearest_from-Mem near none r h) [
    | inl e ↦ ground arith
    | inr m ↦ m
  ]

  nearest_from-IsNearest :
      (near : List Entity) (best : Option (Entity × F32))
      → IsMetric
      → nearest_from geo w self_e self_pos near none ≡ best
      → IsNearest near (Option.map (λ (r : Entity × F32). r.0) best)
  nearest_from-IsNearest near none m h =
      All-imp (λ o c. covers-none _ c) near
        (subst (λ r. All (λ o. covers r (candidate geo w self_e self_pos o) ≡ true) near) h
          (nearest_from-All near none m nothing-IsFound))
  nearest_from-IsNearest near (some r) m h = (
    nearest_from-taken near r h,
    r.1,
    nearest_from-IsFound near none nothing-IsFound r h,
    All-imp (λ o c. covers-some r _ c) near
        (subst (λ s. All (λ o. covers s (candidate geo w self_e self_pos o) ≡ true) near) h
          (nearest_from-All near none m nothing-IsFound)),
  )

  -- The search finds an entity where one of those it looks at is a candidate: tagged, placed, not
  -- the agent itself and at a squared distance of at most 144.0; and what it finds is such a
  -- candidate, at most as far as every other, where the distances are numbers.
  pub nearest_neighbor-IsNearest :
      (near : List Entity) → IsMetric → IsNearest near (nearest_neighbor geo w self_e self_pos near)
  unfolding nearest_neighbor
  nearest_neighbor-IsNearest near m =
      nearest_from-IsNearest near (nearest_from geo w self_e self_pos near none) m refl
