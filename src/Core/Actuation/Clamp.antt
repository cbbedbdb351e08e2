-- ===== src/Core/Actuation/Clamp.antt =====
-- The state machine of the clamp.
use ertw.Float.Round.{round_runs}
use ertw.Float.Arith.{float_runs}
use ertw.Interface.Action.{ActionTensor}
use ertw.Float.Order.{F32, le, lt}
use ertw.Core.World.{World}
use ertw.Core.Actuation.{
  respond, clamp_cooldown, released, tick, drive_clamp, hold, let_go, acquire,
}
use ertw.Core.Components.{Entity, ClampState}
use ertw.Common.{
  inr, ◌≤◌, inl, ◌⊎◌, ◌≢◌, refl, zero, ◌&&◌, [], ◌∷◌, suc, length, ℕ, List, arith, Option, false,
  ◌≡◌, true, Bool, none, some,
}

-- A clamp that holds something, holds it by a joint.
unfoldable pub is_paired : ClampState → Bool
is_paired c = elim c.target [
  | none ↦ elim c.joint [ none ↦ true | some j ↦ false ]
  | some t ↦ elim c.joint [ none ↦ false | some j ↦ true ]
]

acquire-is_paired :
    (w : World) (e : Entity) (c : ClampState) (found : Option Entity)
    → is_paired c ≡ true
    → is_paired (acquire w e c found).1 ≡ true
unfolding acquire is_paired
acquire-is_paired w e c found h = ground arith

let_go-is_paired :
    (w : World) (c : ClampState) → is_paired c ≡ true → is_paired (let_go w c).1 ≡ true
unfolding let_go is_paired
let_go-is_paired w c h = ground arith

hold-is_paired :
    (w : World) (e : Entity) (c : ClampState) → is_paired c ≡ true → is_paired (hold w e c).1 ≡ true
unfolding hold is_paired
hold-is_paired w e c h = ground arith

respond-is_paired :
    (w : World) (e : Entity) (action : ActionTensor) (c : ClampState) (found : Option Entity)
    → is_paired c ≡ true
    → is_paired (respond w e action c found).1 ≡ true
unfolding respond
respond-is_paired w e action c found h =
    ground (arith, acquire-is_paired w e c found, let_go-is_paired w c)

-- Whatever the action and the surroundings, a clamp that has a target exactly where it has a joint
-- is such a clamp after the step.
pub drive_clamp-is_paired :
    (w : World) (e : Entity) (action : ActionTensor) (c : ClampState) (found : Option Entity)
    → is_paired c ≡ true
    → is_paired (drive_clamp w e action c found).1 ≡ true
unfolding drive_clamp is_paired
drive_clamp-is_paired w e action c found h =
    let ready : ClampState = record c { cooldown = tick c.cooldown } in
    let r = respond w e action ready found in
    hold-is_paired r.0 e r.1 (respond-is_paired w e action ready found h)

not-le : (x : F32) → lt 0 x ≡ true → le x 0 ≡ false
unfolding lt le
not-le x h = ground arith

abbrev pub open_clamp : F32 → ClampState
open_clamp cooldown = record { target = none; joint = none; cooldown = cooldown }

-- An open clamp whose cooldown is above zero after the step's tick stays open, without a command.
drive_clamp_cooling :
    (w : World) (e : Entity) (action : ActionTensor) (cooldown : F32) (found : Option Entity)
    → lt 0 (tick cooldown) ≡ true
    → drive_clamp w e action (open_clamp cooldown) found ≡ (w, open_clamp (tick cooldown))
unfolding drive_clamp respond let_go hold
drive_clamp_cooling w e action cooldown found h = ground (arith, not-le (tick cooldown) h)

-- The joint is there, or the release is complete.
abbrev IsSettled : ClampState → Type 0
IsSettled c = (c.joint ≢ none) ⊎ (c ≡ released)

some_ne : (joint : Entity) (r : Option Entity) → r ≡ some joint → r ≢ none
some_ne joint r h n = cc

acquire-IsSettled :
    (w : World) (e : Entity) (c : ClampState) (found : Option Entity)
    → c.joint ≢ none
    → IsSettled (acquire w e c found).1
unfolding acquire
acquire-IsSettled w e c found h = ground arith

let_go-IsSettled : (w : World) (c : ClampState) → c.joint ≢ none → IsSettled (let_go w c).1
unfolding let_go
let_go-IsSettled w c h = ground arith

hold-IsSettled : (w : World) (e : Entity) (c : ClampState) → IsSettled c → IsSettled (hold w e c).1
unfolding hold
hold-IsSettled w e c h = ground arith

respond-IsSettled :
    (w : World) (e : Entity) (action : ActionTensor) (c : ClampState) (found : Option Entity)
    → c.joint ≢ none
    → IsSettled (respond w e action c found).1
unfolding respond
respond-IsSettled w e action c found h =
    ground (arith, acquire-IsSettled w e c found h, let_go-IsSettled w c h)

settle : (c : ClampState) → c.joint ≡ none → IsSettled c → c ≡ released
settle c n (inl s) = absurd (s n)
settle c n (inr r) = r

-- A clamp that loses its joint in a step starts the cooldown in full.
pub drive_clamp_release :
    (w : World) (e : Entity) (action : ActionTensor) (c : ClampState) (found : Option Entity)
    (joint : Entity)
    → c.joint ≡ some joint
    → (drive_clamp w e action c found).1.joint ≡ none
    → (drive_clamp w e action c found).1 ≡ released
unfolding drive_clamp
drive_clamp_release w e action c found joint h n =
    let ready : ClampState = record c { cooldown = tick c.cooldown } in
    let r = respond w e action ready found in
    let held = respond-IsSettled w e action ready found (some_ne joint c.joint h) in
    settle (drive_clamp w e action c found).1 n (hold-IsSettled r.0 e r.1 held)

-- The inputs of a clamp over some steps: what the agent asked, and the neighbor found.
unfoldable pub drive_steps :
    List (ActionTensor × Option Entity) → World → Entity → ClampState → World × ClampState
drive_steps [] w e c = (w, c)
drive_steps ((action, found) ∷ inputs) w e c =
    let (w', c') = drive_clamp w e action c found in drive_steps inputs w' e c'

unfoldable ticks_stay : ℕ → F32 → Bool
ticks_stay zero cooldown = true
ticks_stay (suc n) cooldown = lt 0 (tick cooldown) && ticks_stay n (tick cooldown)

drive_steps_cooling :
    (inputs : List (ActionTensor × Option Entity)) (w : World) (e : Entity) (cooldown : F32) (n : ℕ)
    → length inputs ≤ n
    → ticks_stay n cooldown ≡ true
    → (rest : F32) × (drive_steps inputs w e (open_clamp cooldown) ≡ (w, open_clamp rest))
unfolding drive_steps ticks_stay
drive_steps_cooling [] w e cooldown n h s = (cooldown, refl)
drive_steps_cooling ((action, found) ∷ inputs) w e cooldown zero h s = ground arith
drive_steps_cooling ((action, found) ∷ inputs) w e cooldown (suc n) h s =
    let now : lt 0 (tick cooldown) ≡ true = ground arith in
    rw (drive_clamp_cooling w e action cooldown found now)
      (drive_steps_cooling inputs w e (tick cooldown) n (omega arith) (ground arith))

stays_90 : ticks_stay 90 clamp_cooldown ≡ true
unfolding ticks_stay tick float_runs round_runs lt
stays_90 = refl

-- For a second and a half of steps after a release the clamp stays open, queues no command and
-- leaves the world as it is, whatever the agent asks for and whoever is near.
pub drive_steps_open :
    (inputs : List (ActionTensor × Option Entity)) (w : World) (e : Entity)
    → length inputs ≤ 90
    → (rest : F32) × (drive_steps inputs w e released ≡ (w, open_clamp rest))
drive_steps_open inputs w e h = drive_steps_cooling inputs w e clamp_cooldown 90 h stays_90
