-- ===== src/Core/Economy.antt =====
-- crates/ertw_core/src/economy.rs: decay, shelter, harvesting and traps. `senses` is what the
-- spatial hash and the fields answer; a list of entities is the order of a query.
pub mod Harvest
pub mod Laws
mod Tests
use ertw.Core.Actuation.{fixed_dt}
use ertw.Core.Fragment.Divide.{contains}
use ertw.Core.Tags.{clamp_capable, thermal_vent, agent, has, shelter, without, CustomTags}
use ertw.Core.Fragment.{queue_fragment, can_fragment, Queued}
use ertw.Float.Arith.{sub, add, mul}
use ertw.Core.Components.{vented, ClampJoint, Entity, Physical}
use ertw.Common.{
  ◌>>=◌, ◌&&◌, ◌++◌, ◌||◌, not, [], some, none, false, ◌==◌, ◌∷◌, Option, if◌then◌else◌, Bool, List,
}
use ertw.Core.Ledger.{drain, credit, Account}
use ertw.Core.World.{account_of, remove, set_account, is_tagged, Senses, World, Vec2, Geometry}
use ertw.Float.Order.{lt, fmax, le, F32}
use mathlib.Core.Option

-- BASE_DRAIN, and the radius of a shelter.
abbrev pub base_drain : F32
base_drain = 0x3f19999a

abbrev pub shelter_radius : F32
shelter_radius = 0x40200000

module _ (geo : Geometry) (senses : Senses) where
  unfoldable pub is_shelter : World → Entity → Vec2 → Entity → Bool
  is_shelter w e pos other = if other == e then false else elim (w.position other) [
    | none ↦ false
    | some p ↦
        is_tagged w shelter other
        && le (geo.distance_squared p pos) (mul shelter_radius shelter_radius)
  ]

  unfoldable pub any_shelter : World → Entity → Vec2 → List Entity → Bool
  any_shelter w e pos [] = false
  any_shelter w e pos (other ∷ nearby) = is_shelter w e pos other || any_shelter w e pos nearby

  -- 0.25 or 1.0.
  unfoldable pub shelter_exposure_factor : World → Entity → Vec2 → F32
  shelter_exposure_factor w e pos =
      if any_shelter w e pos (senses.query_radius pos shelter_radius)
      then 0x3e800000
      else 0x3f800000

-- BASE_DRAIN * (1.0 + thermal_load * shelter_factor) * (0.4 + 0.6 * cond).
unfoldable pub drain_rate : F32 → F32 → F32 → F32
drain_rate thermal factor cond =
    mul (mul base_drain (add 0x3f800000 (mul thermal factor)))
      (add 0x3ecccccd (mul 0x3f19999a cond))

-- What ambient heat does to a vent: 2.0 and 0.3 a second.
unfoldable pub heat_vent : Account → F32 → Account
heat_vent a thermal =
    let a' = (credit a vented (mul (mul 0x40000000 thermal) fixed_dt)).0 in
    record a' {
      physical = record (a'.physical) {
        structure = sub a'.physical.structure (mul (mul 0x3e99999a thermal) fixed_dt);
      };
    }

-- One node's account over one step.
unfoldable pub decay : Account → Bool → F32 → F32 → F32 → Account
decay a vent thermal factor cond =
    let a' = if vent then heat_vent a thermal else a in
    (drain a' (mul (drain_rate thermal factor cond) fixed_dt)).0

unfoldable pub queue_death : List Entity → Entity → List Entity
queue_death deaths e = if contains deaths e then deaths else deaths ++ (e ∷ [])

-- What becomes of the node: at most one of the two queues takes it.
unfoldable pub judge :
    Physical → F32 → Entity → List Queued → List Entity → List Queued × List Entity
judge p threshold e fragments deaths =
    if le p.structure 0 && lt 0 p.energy && can_fragment p threshold
    then (queue_fragment e none fragments, deaths)
    else (fragments, if le p.energy 0 then queue_death deaths e else deaths)

-- The components of the query.
pub record Exposed : Type 0 where
  pub position : Vec2
  pub conductivity : F32
  pub tags : CustomTags
  pub threshold : F32
  pub account : Account

unfoldable pub exposed : World → Entity → Option Exposed
exposed w e = if w.dead e then none else do
  position ← w.position e
  conductivity ← w.conductivity e
  tags ← w.tags e
  threshold ← w.yield_threshold e
  account ← account_of w e
  some (record {
    position = position;
    conductivity = conductivity;
    tags = tags;
    threshold = threshold;
    account = account;
  })

pub record Decayed : Type 0 where
  pub world : World
  pub fragments : List Queued
  pub deaths : List Entity

module _ (geo : Geometry) (senses : Senses) where
  unfoldable pub drain_node : Option Exposed → Decayed → Entity → Decayed
  drain_node none s e = s
  drain_node (some x) s e =
      let thermal = fmax (senses.thermal x.position) 0 in
      let factor = shelter_exposure_factor geo senses s.world e x.position in
      let a = decay x.account (has x.tags thermal_vent) thermal factor x.conductivity in
      let (fragments, deaths) = judge a.physical x.threshold e s.fragments s.deaths in
      record { world = set_account s.world e a; fragments = fragments; deaths = deaths }

  unfoldable pub thermodynamic_drain : List Entity → Decayed → Decayed
  thermodynamic_drain [] s = s
  thermodynamic_drain (e ∷ entities) s =
      thermodynamic_drain entities (drain_node (exposed s.world e) s e)

-- The joint entities that stay when an endpoint dies.
unfoldable pub without_joints : Entity → List (Entity × ClampJoint) → List (Entity × ClampJoint)
without_joints e [] = []
without_joints e ((j, joint) ∷ joints) =
    let rest = without_joints e joints in
    if (joint.owner == e) || (joint.target == e) then rest else (j, joint) ∷ rest

unfoldable pub is_joint_of : Entity → Entity → List (Entity × ClampJoint) → Bool
is_joint_of e j [] = false
is_joint_of e j ((i, joint) ∷ joints) =
    i == j && ((joint.owner == e) || (joint.target == e)) || is_joint_of e j joints

-- One queued death: the joints go, the flags of an agent, and the components of a controller.
unfoldable pub bury : World → Entity → World
bury w e = if not (w.alive e) then w else record w {
  joints = without_joints e w.joints;
  alive = λ j. w.alive j && not (is_joint_of e j w.joints);
  tags = λ j.
      if e == j
      then Option.map (λ t. without (without t agent) clamp_capable) (w.tags j)
      else w.tags j;
  marker = remove w.marker e;
  tuning = remove w.tuning e;
  clamp = remove w.clamp e;
  fabricate = remove w.fabricate e;
  reproduction = remove w.reproduction e;
  dead = λ j. (e == j) || w.dead j;
}

-- The second component is the queue that it leaves.
unfoldable pub run_deaths : List Entity → World → World × List Entity
run_deaths [] w = (w, [])
run_deaths (e ∷ queued) w = run_deaths queued (bury w e)
