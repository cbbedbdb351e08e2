-- ===== src/Core/Observe/Shape.antt =====
-- A built observation has the shape that its configuration promises.
use mathlib.Core.Path.{subst}
use ertw.Core.Components.{Oscillator, Physical, Entity, AgentTuning}
use ertw.Interface.Observation.{
  field_len, default_neighbor, InterfaceConfig, self_stride, new_observation, ObservationTensor,
  NeighborView,
}
use ertw.Core.World.{World, Vec2}
use ertw.Core.Fields.{FieldSampler, Noise}
use ertw.Float.Order.{F32, is_nan}
use mathlib.Core.Option.{some_inj}
use ertw.Core.Observe.{
  IsNumber, other_of, select_views, sight, origin, or_else, sightings, begin, self_state_of,
  nearest_views, panicked, self_of, absent, complete, seen, build_observation_with_scratch,
  build_from, with_views, Outcome, config_of, put_field, put_samples, put_sample, Selection,
  Sighting, keep_nearest, Optics, by_distance, slot, fill, put3,
}
use ertw.Common.{
  All, false, inl, inr, Option-cases, ◌>>=◌, sym, ◌*◌, drop, take, ap, ◌+◌, min, ◌∙◌, arith, refl,
  ◌≡◌, ◌≤◌, ◌<◌, length-append, length-take, length-drop, ℕ, List, [], ◌∷◌, length, replicate,
  length-replicate, some, none, zero, suc, Option,
}
use ertw.Interface.Observation.Laws.{IsShaped}

length-put3 :
    (base : ℕ) (v : F32) (g : Vec2) (field : List F32)
    → base + 3 ≤ length field
    → length (put3 base v g field) ≡ length field
unfolding put3
length-put3 base v g field le = omega (
  arith,
  length-append (take base field) (v ∷ g.x ∷ g.y ∷ drop (base + 3) field),
  length-take base field,
  length-drop (base + 3) field,
)

-- The ghosts that sightings fit over.
fill_fits :
    (s : List Sighting) (ghosts : List NeighborView)
    → length s ≤ length ghosts
    → (views : List NeighborView) × (fill s ghosts ≡ some views) × (length views ≡ length ghosts)
unfolding fill
fill_fits [] ghosts le = (ghosts, refl, refl)
fill_fits (s ∷ ss) [] le = absurd (omega arith)
fill_fits (s ∷ ss) (g ∷ ghosts) le =
    let (views, f, l) = fill_fits ss ghosts (omega arith) in (s.1 ∷ views, rw f refl, ap suc l)

length-slot : (s : Sighting) (l : List Sighting) → length (slot s l) ≡ suc (length l)
unfolding slot
length-slot s [] = refl
length-slot s (t ∷ ts) = ground (arith, length-slot s ts)

length-by_distance : (l : List Sighting) → length (by_distance l) ≡ length l
unfolding by_distance
length-by_distance [] = refl
length-by_distance (s ∷ ss) = length-slot s (by_distance ss) ∙ ap suc (length-by_distance ss)

module _ (optics : Optics) (noise : Noise) where
  length-put_field :
      (tune : AgentTuning) (e : Entity) (s index : ℕ) (v : F32) (g : Vec2) (field : List F32)
      → s < 4
      → index < 3
      → length field ≡ 36
      → length (put_field optics noise (config_of tune) e s index v g field) ≡ 36
  unfolding put_field config_of
  length-put_field tune e s index v g field lt le h =
      length-put3 ((index * 4 + s) * 3) v (optics.to_local e g) field (omega arith) ∙ h

  length-put_sample :
      (sampler : FieldSampler) (tune : AgentTuning) (e : Entity) (pos : Vec2) (s : ℕ)
      (field : List F32)
      → s < 4
      → length field ≡ 36
      → length (put_sample optics noise sampler (config_of tune) e pos s field) ≡ 36
  unfolding put_sample
  length-put_sample sampler tune e pos s field lt h =
      length-put_field tune e s 2 _ _ _ lt (omega arith) (
        length-put_field tune e s 1 _ _ _ lt (omega arith)
          (length-put_field tune e s 0 _ _ field lt (omega arith) h))

  length-put_samples :
      (sampler : FieldSampler) (tune : AgentTuning) (e : Entity) (pos : Vec2) (s n : ℕ)
      (field : List F32)
      → s + n ≤ 4
      → length field ≡ 36
      → length (put_samples optics noise sampler (config_of tune) e pos s n field) ≡ 36
  unfolding put_samples
  length-put_samples sampler tune e pos s zero field le h = h
  length-put_samples sampler tune e pos s (suc n) field le h =
      length-put_samples sampler tune e pos (suc s) n _ (omega arith)
        (length-put_sample sampler tune e pos s field (omega arith) h)

length-keep_nearest :
    (selection : Selection) (most : ℕ) (views : List Sighting)
    → length (keep_nearest selection most views) ≤ most
unfolding keep_nearest
length-keep_nearest selection most views = ground (
  arith,
  length-take (min most (length views)) (selection.select (min most (length views)) views),
)

views_fit :
    (selection : Selection) (n : ℕ) (s : List Sighting)
    → All IsNumber s
    → (views : List NeighborView) × ((select_views selection n s
          >>= (λ nearest. fill nearest (replicate n default_neighbor)))
        ≡ some views)
      × (length views ≡ n)
unfolding select_views nearest_views
views_fit selection n s h =
    let same = length-replicate n default_neighbor in
    let (views, f, l) = fill_fits (nearest_views selection n s) (replicate n default_neighbor) (
      omega (
        arith,
        same,
        length-by_distance (keep_nearest selection n s),
        length-keep_nearest selection n s,
      )) in
    (views, rw (selection.panics_not n s h) f, l ∙ same)

-- The squared distance of any two placed entities is a number.
abbrev pub IsMetered : Optics → World → Type 0
IsMetered optics w =
    (a b : Entity) (p q : Vec2)
    → w.position a ≡ some p
    → w.position b ≡ some q
    → is_nan (optics.length_squared (optics.minus q p)) ≡ false

module _ (optics : Optics) (noise : Noise) (w : World) (metered : IsMetered optics w) where
  sight-IsNumber :
      (c : InterfaceConfig) (e : Entity) (pos vel : Vec2) (other : Entity) (s : Sighting)
      → w.position e ≡ some pos
      → sight optics noise w c e pos vel other ≡ some s
      → IsNumber s
  unfolding sight other_of
  sight-IsNumber c e pos vel other s here h = elim (Option-cases (w.position other)) [
    | inl n ↦ absurd (ground (arith, n, h))
    | inr (q, n) ↦ let number = metered e other pos q here n in ground (arith, n, h, number)
  ]

  sightings-IsNumber :
      (c : InterfaceConfig) (e : Entity) (pos vel : Vec2) (near : List Entity)
      → w.position e ≡ some pos
      → All IsNumber (sightings optics noise w c e pos vel near)
  unfolding sightings
  sightings-IsNumber c e pos vel [] here = tt
  sightings-IsNumber c e pos vel (other ∷ near) here =
      elim (Option-cases (sight optics noise w c e pos vel other)) [
        | inl n ↦
            let eq : sightings optics noise w c e pos vel (other ∷ near)
                ≡ sightings optics noise w c e pos vel near =
              ground (arith, n) in
            subst (All IsNumber) (sym eq) (sightings-IsNumber c e pos vel near here)
        | inr (s, n) ↦
            let eq : sightings optics noise w c e pos vel (other ∷ near)
                ≡ s ∷ sightings optics noise w c e pos vel near =
              ground (arith, n) in
            subst (All IsNumber) (sym eq)
              (sight-IsNumber c e pos vel other s here n, sightings-IsNumber c e pos vel near here)
      ]

-- What a built observation is: of this step and this entity, in the shape of the agent's tuning.
abbrev pub IsObserved : ℕ → Entity → AgentTuning → Outcome → Type 0
IsObserved step e tune absent = Unit
IsObserved step e tune panicked = ⊥
IsObserved step e tune (seen obs) =
    IsShaped obs × (obs.step ≡ step) × (obs.entity_id ≡ e) × (obs.config ≡ config_of tune)

viewed-IsObserved :
    (step : ℕ) (e : Entity) (tune : AgentTuning) (obs : ObservationTensor)
    (o : Option (List NeighborView))
    → 0 < tune.max_neighbors
    → (obs.step ≡ step) × (obs.entity_id ≡ e) × (obs.config ≡ config_of tune)
    → (length obs.self_state ≡ 8)
    → (length obs.field ≡ 36)
    → (views : List NeighborView) × (o ≡ some views) × (length views ≡ tune.max_neighbors)
    → IsObserved step e tune (with_views obs o)
unfolding with_views config_of
viewed-IsObserved step e tune obs o pos h ls lf (views, q, l) = rw q (
  record {
    some_neighbors = subst (λ (c : InterfaceConfig). 0 < c.max_neighbors) (sym (h.2)) pos;
    self_len = ls;
    field_fits = subst (λ (c : InterfaceConfig). length obs.field ≡ field_len c) (sym (h.2)) lf;
    neighbors_fit = subst (λ (c : InterfaceConfig). length views ≡ c.max_neighbors) (sym (h.2)) l;
  },
  h.0,
  h.1,
  h.2,
)

-- The tensor of zeros and ghosts that an agent's observation starts from.
abbrev blank : AgentTuning → ObservationTensor
blank tune = record {
  step = 0;
  entity_id = 0;
  config = config_of tune;
  self_state = replicate self_stride 0;
  field = replicate 36 0;
  neighbors = replicate tune.max_neighbors default_neighbor;
}

started :
    (tune : AgentTuning)
    → 0 < tune.max_neighbors
    → new_observation (config_of tune) ≡ some (blank tune)
unfolding new_observation config_of
started tune h = ground (arith, h)

module _ (optics : Optics) (noise : Noise) (selection : Selection) where
  from-IsObserved :
      (w : World) (sampler : FieldSampler) (step : ℕ) (e : Entity) (near : Vec2 → F32 → List Entity)
      (tune : AgentTuning) (o : Option (Vec2 × Physical × Oscillator))
      → 0 < tune.max_neighbors
      → IsMetered optics w
      → ((s : Vec2 × Physical × Oscillator) → o ≡ some s → w.position e ≡ some s.0)
      → IsObserved step e tune
          (build_from optics noise selection w sampler step e near (blank tune) o)
  unfolding build_from complete self_state_of config_of
  from-IsObserved w sampler step e near tune none h metered at = tt
  from-IsObserved w sampler step e near tune (some (pos, p, osc)) h metered at =
      viewed-IsObserved step e tune _ _ h (refl, refl, refl) refl
        (length-put_samples optics noise sampler tune e pos 0 4 (replicate 36 0) (omega arith) refl)
        (views_fit selection tune.max_neighbors
          (sightings optics noise w (config_of tune) e pos (or_else (w.velocity e) origin)
            (near pos (tune.sensor_radius)))
          (sightings-IsNumber optics noise w metered (config_of tune) e pos
            (or_else (w.velocity e) origin) (near pos (tune.sensor_radius))
            (at (pos, p, osc) refl)))

  self_of-position :
      (w : World) (e : Entity) (s : Vec2 × Physical × Oscillator)
      → self_of optics noise selection w e ≡ some s
      → w.position e ≡ some s.0
  unfolding self_of
  self_of-position w e s h = elim (Option-cases (w.position e)) [
    | inl n ↦ absurd (ground (arith, n, h))
    | inr (q, n) ↦ elim (Option-cases (w.physical e)) [
      | inl m ↦ absurd (ground (arith, n, m, h))
      | inr (p, m) ↦ elim (Option-cases (w.oscillator e)) [
        | inl k ↦ absurd (ground (arith, n, m, k, h))
        | inr (osc, k) ↦
            let same : some (q, p, osc) ≡ some s = sym (ground (arith, n, m, k)) ∙ h in
            n ∙ ap some (ap (λ (t : Vec2 × Physical × Oscillator). t.0) (some_inj.0 same))
      ]
    ]
  ]

  pub build_observation-IsObserved :
      (w : World) (sampler : FieldSampler) (step : ℕ) (e : Entity) (near : Vec2 → F32 → List Entity)
      (tune : AgentTuning)
      → 0 < tune.max_neighbors
      → IsMetered optics w
      → IsObserved step e tune
          (build_observation_with_scratch optics noise selection w sampler step e near tune)
  unfolding build_observation_with_scratch begin
  build_observation-IsObserved w sampler step e near tune h metered =
      subst (λ o. IsObserved step e tune (begin optics noise selection w sampler step e near o))
        (sym (started tune h))
        (from-IsObserved w sampler step e near tune (self_of optics noise selection w e) h metered
          (self_of-position w e))
