-- ===== src/Core/Actuation/Tests.antt =====
-- Actuators in a world of two nodes.
use ertw.Core.Fragment.Divide.{contains}
use ertw.Core.Actuation.Joints.{cleanup_joints, despawned, joints_left}
use ertw.Core.Actuation.Reach.{reachable_clamps}
use mathlib.Core.Option.{some_inj}
use ertw.Core.Ledger.{debit_available, valid_energy_amount}
use ertw.Core.World.{account_of, set_account, queue}
use ertw.Core.Actuation.{acquire, apply_clamp}
use ertw.Core.Actuation.Links.{
  flush, pending, apply_command, apply_commands, IsTidy, here, next, drives, flushes,
}
use ertw.Core.Actuation.Cleanup.{
  owner_matches, is_joint, is_intact, reset_clamp, reset_clamps, orphans, is_physical,
  cleanup_clamp_joints,
}
use ertw.Core.Ledger.Laws.{total}
use native.Mathlib.Decide.{ℕ_discrete}
use ertw.Core.World.Samples.{healthy, pair, plane}
use ertw.Common.{
  Bool-cases, inl, inr, map_or, ◌==◌, ap, ◌∙◌, refl, if◌then◌else◌, true, sym, arith, [], ◌≡◌, none,
  ◌∷◌, ◌≢◌, some, ℕ,
}
use ertw.Float.Arith.{add, float_runs}
use ertw.Core.Actuation.Fabricate.{
  drive_fabricator_reserve, drive_fabricator_lem, bought, is_funded,
}
use ertw.Float.Order.{fmin, fmax, le, lt, IsNonneg, F32}
use ertw.Core.Actuation.{
  fabricate_energy_cost, fabricate_cooldown, released, nearest_neighbor, hold, let_go, tick,
  respond, drive_fabricator, drive_clamp,
}
use ertw.Core.Actuation.Clamp.{drive_steps_open, open_clamp, drive_steps}
use ertw.Core.Components.{Entity, ClampJoint, fabrication, ClampState}
use ertw.Core.Actuation.Nearest.{nearest_neighbor-IsNearest, IsNearest, IsMetric, candidate}
use ertw.Interface.Action.{default_action, ActionTensor}
use ertw.Core.World.{World, is_tagged, Vec2}
use ertw.Float.Round.{round_runs}

abbrev origin : Vec2
origin = record { x = 0; y = 0 }

abbrev ask : ActionTensor
ask = record default_action { clamp = 0x3f800000; fabricate = 0x3f800000 }

two-IsCandidate : candidate plane pair 1 origin 2 ≡ some 0x3f800000
unfolding candidate float_runs round_runs lt is_tagged
two-IsCandidate = refl

others : (o : ℕ) → o ≢ 2 → candidate plane pair 1 origin o ≡ none
unfolding candidate
others o n = ground arith

pair-IsMetric : IsMetric plane pair 1 origin
pair-IsMetric o d h = elim (ℕ_discrete o 2) [
  | yes e ↦
      let same : some 0x3f800000 ≡ some d =
        sym two-IsCandidate ∙ ap (candidate plane pair 1 origin) (sym e) ∙ h in
      ground arith
  | no n ↦ let gone = sym (others o n) ∙ h in ground arith
]

nearest_neighbor-IsNearest_example :
    IsNearest plane pair 1 origin (1 ∷ 2 ∷ []) (nearest_neighbor plane pair 1 origin (1 ∷ 2 ∷ []))
nearest_neighbor-IsNearest_example =
    nearest_neighbor-IsNearest plane pair 1 origin (1 ∷ 2 ∷ []) pair-IsMetric

abbrev holding : ClampState
holding = record { target = some 2; joint = some 9; cooldown = 0 }

lets_go : (drive_clamp pair 1 default_action holding none).1.joint ≡ none
unfolding drive_clamp respond let_go hold tick lt le
lets_go = refl

drive_steps_open_example :
    (rest : F32) × (drive_steps ((ask, some 2) ∷ (ask, none) ∷ []) pair 1 released
      ≡ (pair, open_clamp rest))
drive_steps_open_example = drive_steps_open ((ask, some 2) ∷ (ask, none) ∷ []) pair 1 (omega arith)

ask-is_funded : is_funded ask healthy 0 ≡ true
unfolding is_funded tick lt le
ask-is_funded = refl

builds : drive_fabricator ask (some healthy) 0 ≡ (fabricate_cooldown, some (bought healthy))
builds = drive_fabricator_lem ask healthy 0 ∙ rw ask-is_funded refl

drive_fabricator_reserve_example :
    IsNonneg (bought healthy).physical.energy
    × IsNonneg (bought healthy).physical.mass
    × (total (bought healthy).ledger fabrication
        ≡ add (total healthy.ledger fabrication) fabricate_energy_cost)
drive_fabricator_reserve_example =
    drive_fabricator_reserve ask healthy (bought healthy) 0 fabricate_cooldown (omega arith)
      (omega arith) builds

-- Entity 1 holds on to 2 by the joint 9.
abbrev held_joint : ClampJoint
held_joint = record { owner = 1; target = 2 }

abbrev clamped : World
clamped = record pair {
  clamp = λ e. if e == 1 then some holding else none;
  joints = (9, held_joint) ∷ [];
}

cleanup_joints_example :
    (is_physical clamped 1 ≡ true)
    × (owner_matches (cleanup_clamp_joints (1 ∷ []) clamped) 9 held_joint ≡ true)
unfolding cleanup_clamp_joints orphans reset_clamps reset_clamp is_intact is_physical is_joint
    owner_matches joints_left despawned
cleanup_joints_example = cleanup_joints (1 ∷ []) clamped 0 9 held_joint refl

abbrev open_hand : ClampState
open_hand = record { target = none; joint = none; cooldown = 0 }

abbrev gripped : ClampState
gripped = record { target = some 2; joint = some 10; cooldown = 0 }

-- Entity 1 with an open clamp, which then takes hold of 2.
abbrev idle : World
idle = record pair { clamp = λ e. if e == 1 then some open_hand else none; next_entity = 10 }

abbrev gripping : World
gripping = flush (apply_clamp idle 1 ask (some 2))

idle_had : (e : Entity) (c : ClampState) → idle.clamp e ≡ some c → (e ≡ 1) × (open_hand ≡ c)
idle_had e c h = elim (Bool-cases (e == 1)) [
  | inl s ↦ (ground (arith, s), some_inj.0 (rw s at h))
  | inr n ↦ absurd (ground (arith, n, h))
]

idle-IsTidy : IsTidy idle
unfolding is_physical pending
idle-IsTidy = record {
  body = λ e c h. ground (arith, (idle_had e c h).0);
  given =
      λ e c j h n. absurd (ground (arith, ap (λ (u : ClampState). u.joint) (idle_had e c h).1, n));
  standing = tt;
  coming = tt;
}

reachable_clamps_example :
    (map_or true (is_physical gripping) (some 2) ≡ true)
    × (map_or true
          (is_joint (joints_left (cleanup_clamp_joints (1 ∷ []) gripping).commands gripping.joints))
          (some 10)
        ≡ true)
unfolding cleanup_clamp_joints orphans reset_clamps reset_clamp is_intact is_physical is_joint
    owner_matches despawned contains flush apply_clamp apply_command apply_commands drive_clamp
    acquire hold respond lt le tick account_of set_account queue debit_available float_runs
    round_runs fmin valid_energy_amount fmax
reachable_clamps_example =
    reachable_clamps (1 ∷ []) 1 gripped idle-IsTidy
      (next (next here (drives idle 1 ask (some 2))) (flushes (apply_clamp idle 1 ask (some 2))))
      refl refl refl
