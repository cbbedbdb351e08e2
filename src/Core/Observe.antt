-- ===== src/Core/Observe.antt =====
-- crates/ertw_core/src/agents.rs: `build_observation_with_scratch`, the observation of one agent.
-- `near` is what the spatial hash answers, and the vector algebra of `bevy::math` and the selection
-- of the standard library are parameters.
pub mod Shape
pub mod Nearby
pub mod Samples
mod Tests
use ertw.Interface.Observation.{new_observation, InterfaceConfig, NeighborView, ObservationTensor}
use ertw.Core.Fields.{Noise, FieldSampler, sample_with_gradient}
use ertw.Core.Lineage.{reproduction_energy_threshold}
use ertw.Core.Components.{AgentTuning, Physical, Oscillator, Entity}
use ertw.Core.World.{World, Vec2}
use ertw.Core.Tags.{CustomTags}
use ertw.Float.Arith.{sub, mul, div, of_ℕ}
use ertw.Float.Order.{is_nan, F32, lt, fmax}
use ertw.Common.{
  Bool, false, ◌≡◌, ltb, All, length, min, ◌<◌, ℕ, Option, none, some, List, [], ◌∷◌, ◌++◌, ◌>>=◌,
  ◌==◌, ◌||◌, if◌then◌else◌, take, drop, ◌+◌, ◌*◌, ◌-◌, true, suc, zero,
}
use mathlib.Core.Option
use mathlib.Core.List.{Perm}

-- `rotation * v` and `rotation.inverse() * v` for an entity's rotation, the algebra of `Vec2`, and
-- `Vec2::from_angle`.
pub record Optics : Type 0 where
  pub to_world : Entity → Vec2 → Vec2
  pub to_local : Entity → Vec2 → Vec2
  pub plus : Vec2 → Vec2 → Vec2
  pub minus : Vec2 → Vec2 → Vec2
  pub scaled : Vec2 → F32 → Vec2
  pub length_squared : Vec2 → F32
  pub from_angle : F32 → Vec2

-- A neighbor with its squared distance.
abbrev pub Sighting : Type 0
Sighting = F32 × NeighborView

-- What building an observation comes to: `None`, a panic, or the tensor.
pub data Outcome : Type 0 where
  absent panicked : Outcome
  seen : ObservationTensor → Outcome

abbrev pub origin : Vec2
origin = record { x = 0; y = 0 }

-- `unwrap_or`.
unfoldable pub or_else {ℓ} : {A : Type ℓ} → Option A → A → A
or_else none a = a
or_else (some b) a = b

-- `field[base..base + 3]`, in place.
unfoldable pub put3 : ℕ → F32 → Vec2 → List F32 → List F32
put3 base v g field = take base field ++ (v ∷ g.x ∷ g.y ∷ drop (base + 3) field)

-- The views of the neighbors go over the ghosts; `none` is an index out of bounds.
unfoldable pub fill : List Sighting → List NeighborView → Option (List NeighborView)
fill [] ghosts = some ghosts
fill (s ∷ sightings) [] = none
fill (s ∷ sightings) (g ∷ ghosts) = Option.map (λ views. s.1 ∷ views) (fill sightings ghosts)

-- `sort_by` on the squared distance, which is stable; what cannot be compared counts as equal.
unfoldable pub slot : Sighting → List Sighting → List Sighting
slot s [] = s ∷ []
slot s (t ∷ ts) = let rest = slot s ts in if lt t.0 s.0 then t ∷ rest else s ∷ t ∷ ts

unfoldable pub by_distance : List Sighting → List Sighting
by_distance [] = []
by_distance (s ∷ ss) = slot s (by_distance ss)

unfoldable pub config_of : AgentTuning → InterfaceConfig
config_of tune = record {
  max_neighbors = tune.max_neighbors;
  sensor_radius = tune.sensor_radius;
  field_samples = 4;
  field_channels = 3;
}

unfoldable pub self_state_of : Vec2 → Physical → Oscillator → List F32
self_state_of velocity p osc =
    velocity.x
    ∷ velocity.y
    ∷ p.mass
    ∷ p.structure
    ∷ p.energy
    ∷ osc.freq
    ∷ osc.phase
    ∷ fmax (sub p.energy reproduction_energy_threshold) 0
    ∷ []

module _ (optics : Optics) (noise : Noise) where
  open optics use {to_world, to_local, plus, minus, scaled, length_squared, from_angle}

  -- The `s`-th probe: the center, then the ring.
  unfoldable pub local_probe : InterfaceConfig → ℕ → Vec2
  local_probe c s =
      if s == 0 || (c.field_samples == 1)
      then origin
      else scaled (from_angle (mul (div (of_ℕ (s - 1)) (of_ℕ (c.field_samples - 1))) 0x40c90fdb))
          c.sensor_radius

  -- One field's three entries of the sample `s`.
  unfoldable pub put_field : InterfaceConfig → Entity → ℕ → ℕ → F32 → Vec2 → List F32 → List F32
  put_field c e s index v gradient field =
      put3 ((index * c.field_samples + s) * c.field_channels) v (to_local e gradient) field

  -- The epsilon of the gradient is 0.05.
  unfoldable pub put_sample :
      FieldSampler → InterfaceConfig → Entity → Vec2 → ℕ → List F32 → List F32
  put_sample sampler c e pos s field =
      let probe = plus pos (to_world e (local_probe c s)) in
      let (f, g) = sample_with_gradient noise sampler probe 0x3d4ccccd in
      put_field c e s 2 f.em g.em
        (put_field c e s 1 f.thermal g.thermal (put_field c e s 0 f.kinetic g.kinetic field))

  -- The samples from `s` on, `n` of them.
  unfoldable pub put_samples :
      FieldSampler → InterfaceConfig → Entity → Vec2 → ℕ → ℕ → List F32 → List F32
  put_samples sampler c e pos s zero field = field
  put_samples sampler c e pos s (suc n) field =
      put_samples sampler c e pos (suc s) n (put_sample sampler c e pos s field)

  -- The components of the three queries on another entity.
  unfoldable pub other_of : World → Entity → Option (Vec2 × Physical × CustomTags)
  other_of w other = do
    pos ← w.position other
    phys ← w.physical other
    t ← w.tags other
    some (pos, phys, t)

  unfoldable pub view_of :
      World → Entity → Vec2 → Vec2 → Entity → Vec2 → Physical → CustomTags → NeighborView
  view_of w e self_vel rel other pos phys t =
      let p = to_local e rel in
      let v = to_local e (minus (or_else (w.velocity other) origin) self_vel) in
      record {
        rel_pos = record { x = p.x; y = p.y };
        rel_vel = record { x = v.x; y = v.y };
        mass = phys.mass;
        structure = phys.structure;
        energy = phys.energy;
        tags = t;
        conductivity = or_else (w.conductivity other) 0x3f19999a;
        osc_freq = or_else (Option.map (λ (o : Oscillator). o.freq) (w.oscillator other)) 0;
        osc_phase = or_else (Option.map (λ (o : Oscillator). o.phase) (w.oscillator other)) 0;
        valid = true;
      }

  -- The body of the loop over the entities near by.
  unfoldable pub sight : World → InterfaceConfig → Entity → Vec2 → Vec2 → Entity → Option Sighting
  sight w c e self_pos self_vel other = if other == e then none else do
    (pos, phys, t) ← other_of w other
    let rel = minus pos self_pos
    let dist2 = length_squared rel
    if lt (mul c.sensor_radius c.sensor_radius) dist2
        then none
        else some (dist2, view_of w e self_vel rel other pos phys t)

  unfoldable pub sightings :
      World → InterfaceConfig → Entity → Vec2 → Vec2 → List Entity → List Sighting
  sightings w c e self_pos self_vel [] = []
  sightings w c e self_pos self_vel (other ∷ near) =
      let rest = sightings w c e self_pos self_vel near in
      elim (sight w c e self_pos self_vel other) [ none ↦ rest | some s ↦ s ∷ rest ]

abbrev pub IsNumber : Sighting → Type 0
IsNumber s = is_nan s.0 ≡ false

-- `select_nth_unstable_by(n, ..)` as the standard library documents it: a permutation whose first n
-- elements are not farther than any later one, where the comparison is an order. That selection and
-- `sort_by` may panic where it is none: `panics` says whether they do, and never where all distances
-- are numbers.
pub record Selection : Type 0 where
  pub select : ℕ → List Sighting → List Sighting
  pub select_permutes : (n : ℕ) (l : List Sighting) → Perm (select n l) l
  pub select_splits :
      (n : ℕ) (l : List Sighting)
      → n < length l
      → All IsNumber l
      → All (λ s. All (λ t. lt t.0 s.0 ≡ false) (drop n (select n l))) (take n (select n l))
  pub panics : ℕ → List Sighting → Bool
  pub panics_not : (n : ℕ) (l : List Sighting) → All IsNumber l → panics n l ≡ false

module _ (selection : Selection) where
  open selection use {select, panics}

  unfoldable pub keep_nearest : ℕ → List Sighting → List Sighting
  keep_nearest most views =
      let keep = min most (length views) in
      if ltb keep (length views) then take keep (select keep views) else views

  unfoldable pub nearest_views : ℕ → List Sighting → List Sighting
  nearest_views most views = by_distance (keep_nearest most views)

  -- The same with the panics of the selection and the sort.
  unfoldable pub select_views : ℕ → List Sighting → Option (List Sighting)
  select_views most views = if panics most views then none else some (nearest_views most views)

-- The neighbors written over the ghosts.
unfoldable pub with_views : ObservationTensor → Option (List NeighborView) → Outcome
with_views obs none = panicked
with_views obs (some views) = seen (record obs { neighbors = views })

module _ (optics : Optics) (noise : Noise) (selection : Selection) where
  -- The agent's own components are there.
  unfoldable pub complete :
      World
      → FieldSampler
      → ℕ
      → Entity
      → (Vec2 → F32 → List Entity)
      → ObservationTensor
      → Vec2
      → Physical
      → Oscillator
      → Outcome
  complete w sampler step e near obs pos p osc =
      let c = obs.config in
      let vel = or_else (w.velocity e) origin in
      let views = sightings optics noise w c e pos vel (near pos c.sensor_radius) in
      with_views
        (record obs {
          step = step;
          entity_id = e;
          self_state = self_state_of (optics.to_local e vel) p osc;
          field = put_samples optics noise sampler c e pos 0 c.field_samples obs.field;
        })
        (do nearest ← select_views selection c.max_neighbors views; fill nearest obs.neighbors)

  unfoldable pub build_from :
      World
      → FieldSampler
      → ℕ
      → Entity
      → (Vec2 → F32 → List Entity)
      → ObservationTensor
      → Option (Vec2 × Physical × Oscillator)
      → Outcome
  build_from w sampler step e near obs none = absent
  build_from w sampler step e near obs (some (pos, p, osc)) =
      complete w sampler step e near obs pos p osc

  unfoldable pub self_of : World → Entity → Option (Vec2 × Physical × Oscillator)
  self_of w e = do pos ← w.position e; p ← w.physical e; osc ← w.oscillator e; some (pos, p, osc)

  -- The assertion of `ObservationTensor::new` comes first.
  unfoldable pub begin :
      World
      → FieldSampler
      → ℕ
      → Entity
      → (Vec2 → F32 → List Entity)
      → Option ObservationTensor
      → Outcome
  begin w sampler step e near none = panicked
  begin w sampler step e near (some obs) = build_from w sampler step e near obs (self_of w e)

  unfoldable pub build_observation_with_scratch :
      World → FieldSampler → ℕ → Entity → (Vec2 → F32 → List Entity) → AgentTuning → Outcome
  build_observation_with_scratch w sampler step e near tune =
      begin w sampler step e near (new_observation (config_of tune))
