-- ===== src/Core/Actuation/Effect.antt =====
-- What the clamp of one entity does to the links.
use mathlib.Core.Path.{subst}
use ertw.Float.Order.{le, lt}
use ertw.Float.Arith.{mul}
use ertw.Interface.Action.{ActionTensor}
use mathlib.Core.List.{append-nil}
use ertw.Core.Ledger.{debit_available, Account}
use ertw.Core.Actuation.Cleanup.{is_physical}
use ertw.Core.Components.{actuation, Entity, ClampState}
use ertw.Core.Actuation.{
  fixed_dt, half, clamp_drain, drive_clamp, respond, tick, acquire, let_go, released, hold,
  drop_joint,
}
use ertw.Core.Actuation.Links.{pending-append, pending}
use ertw.Core.World.{spawn_joint, despawn, Command, set_account, queue, account_of, World}
use mathlib.Core.Option.{some_inj}
use ertw.Common.{
  if◌then◌else◌, ◌&&◌, if_both, ◌⊎◌, ◌∙◌, ap, sym, ◌==◌, Bool-cases, inr, arith, ◌+◌, inl, none, [],
  Option-cases, ◌∷◌, Option, ◌++◌, some, ◌≡◌, List, refl,
}

-- The clamp keeps its joint or loses it, and no joint is asked for.
pub record IsCalm (w : World) (c : ClampState) (s : World × ClampState) : Type 0 where
  pub clamps : (x : Entity) → s.0.clamp x ≡ w.clamp x
  pub joints : s.0.joints ≡ w.joints
  pub bodies : (x : Entity) → is_physical s.0 x ≡ is_physical w x
  pub asked : pending s.0.commands ≡ pending w.commands
  pub given : s.0.next_entity ≡ w.next_entity
  pub kept : (j : Entity) → s.1.joint ≡ some j → c.joint ≡ some j

-- The clamp has at most the joint that is asked for.
pub record IsOpening (w : World) (e : Entity) (s : World × ClampState) : Type 0 where
  pub clamps : (x : Entity) → s.0.clamp x ≡ w.clamp x
  pub joints : s.0.joints ≡ w.joints
  pub bodies : (x : Entity) → is_physical s.0 x ≡ is_physical w x
  pub target : Entity
  pub asked :
      pending s.0.commands
      ≡ pending w.commands ++ ((w.next_entity, record { owner = e; target = target }) ∷ [])
  pub given : s.0.next_entity ≡ w.next_entity + 1
  pub kept : (j : Entity) → s.1.joint ≡ some j → j ≡ w.next_entity

pub pending_despawn :
    (commands : List Command) (j : Entity)
    → pending (commands ++ (despawn j ∷ [])) ≡ pending commands
unfolding pending
pending_despawn commands j = pending-append commands (despawn j ∷ []) ∙ rw append-nil

drop_joint-IsCalm :
    (w : World) (c : ClampState) (joint : Option Entity) → IsCalm w c (drop_joint w joint, released)
unfolding drop_joint queue is_physical
drop_joint-IsCalm w c none = record {
  clamps = λ x. refl;
  joints = refl;
  bodies = λ x. refl;
  asked = refl;
  given = refl;
  kept = λ j h. absurd (cc);
}
drop_joint-IsCalm w c (some k) = record {
  clamps = λ x. refl;
  joints = refl;
  bodies = λ x. refl;
  asked = pending_despawn w.commands k;
  given = refl;
  kept = λ j h. absurd (cc);
}

same-IsCalm : (w : World) (c : ClampState) → IsCalm w c (w, c)
same-IsCalm w c = record {
  clamps = λ x. refl;
  joints = refl;
  bodies = λ x. refl;
  asked = refl;
  given = refl;
  kept = λ j h. h;
}

-- An account is written where there was one.
account-bodies :
    (w : World) (e : Entity) (a b : Account) (x : Entity)
    → account_of w e ≡ some a
    → is_physical (set_account w e b) x ≡ is_physical w x
unfolding account_of set_account is_physical
account-bodies w e a b x h = elim (Option-cases (w.physical e)) [
  | inl q ↦ absurd (ground (arith, q, h))
  | inr (p, q) ↦ elim (Bool-cases (e == x)) [
    | inl s ↦ let same : e ≡ x = ground (arith, s) in ground (arith, s, q, ap w.physical same)
    | inr d ↦ ground (arith, d)
  ]
]

IsCalm-trans :
    {w v : World} {c d : ClampState} {s : World × ClampState}
    → IsCalm w c (v, d)
    → IsCalm v d s
    → IsCalm w c s
IsCalm-trans a b = record {
  clamps = λ x. b.clamps x ∙ a.clamps x;
  joints = b.joints ∙ a.joints;
  bodies = λ x. b.bodies x ∙ a.bodies x;
  asked = b.asked ∙ a.asked;
  given = b.given ∙ a.given;
  kept = λ j h. a.kept j (b.kept j h);
}

paid-IsCalm :
    (w : World) (e : Entity) (a b : Account) (c : ClampState)
    → account_of w e ≡ some a
    → IsCalm w c (set_account w e b, c)
unfolding set_account
paid-IsCalm w e a b c h = record {
  clamps = λ x. refl;
  joints = refl;
  bodies = λ x. account-bodies w e a b x h;
  asked = refl;
  given = refl;
  kept = λ j k. k;
}

hold-IsCalm : (w : World) (e : Entity) (c : ClampState) → IsCalm w c (hold w e c)
unfolding hold
hold-IsCalm w e c = elim (Option-cases c.target) [
  | inl q ↦
      let eq : hold w e c ≡ (w, c) = ground (arith, q) in
      subst (IsCalm w c) (sym eq) (same-IsCalm w c)
  | inr (t, q) ↦ elim (Option-cases (w.position t)) [
    | inl n ↦
        let eq : hold w e c ≡ (drop_joint w c.joint, released) = ground (arith, q, n) in
        subst (IsCalm w c) (sym eq) (drop_joint-IsCalm w c c.joint)
    | inr (p, n) ↦ elim (Option-cases (account_of w e)) [
      | inl gone ↦
          let eq : hold w e c ≡ (w, c) = ground (arith, q, n, gone) in
          subst (IsCalm w c) (sym eq) (same-IsCalm w c)
      | inr (a, there) ↦
          let a' = (debit_available a actuation (mul clamp_drain fixed_dt)).0 in
          let w' = set_account w e a' in
          let paid = paid-IsCalm w e a a' c there in
          let eq : hold w e c
              ≡ (if le a'.physical.energy 0 then (drop_joint w' c.joint, released) else (w', c)) =
            ground (arith, q, n, there) in
          subst (IsCalm w c) (sym eq) (
            if_both (IsCalm w c) (le a'.physical.energy 0)
              (IsCalm-trans paid (drop_joint-IsCalm w' c c.joint)) paid)
    ]
  ]
]

let_go-IsCalm : (w : World) (c : ClampState) → IsCalm w c (let_go w c)
unfolding let_go drop_joint
let_go-IsCalm w c = elim (Option-cases c.joint) [
  | inl q ↦
      let eq : let_go w c ≡ (w, record c { target = none }) = ground (arith, q) in
      subst (IsCalm w c) (sym eq) (record {
        clamps = λ x. refl;
        joints = refl;
        bodies = λ x. refl;
        asked = refl;
        given = refl;
        kept = λ j h. h;
      })
  | inr (k, q) ↦
      let eq : let_go w c ≡ (queue w (despawn k), released) = ground (arith, q) in
      subst (IsCalm w c) (sym eq) (drop_joint-IsCalm w c (some k))
]

opened :
    (w : World) (e : Entity) (c : ClampState) (t : Entity)
    → IsOpening w e (
      record (queue w (spawn_joint w.next_entity e t)) { next_entity = w.next_entity + 1 },
      record c { target = some t; joint = some w.next_entity },
    )
unfolding queue is_physical pending
opened w e c t = record {
  clamps = λ x. refl;
  joints = refl;
  bodies = λ x. refl;
  target = t;
  asked = pending-append w.commands (spawn_joint w.next_entity e t ∷ []);
  given = refl;
  kept = λ j h. sym (some_inj.0 h);
}

acquire-links :
    (w : World) (e : Entity) (c : ClampState) (found : Option Entity)
    → IsCalm w c (acquire w e c found) ⊎ IsOpening w e (acquire w e c found)
unfolding acquire
acquire-links w e c found = elim (Option-cases c.target) [
  | inr (k, q) ↦
      let eq : acquire w e c found ≡ (w, c) = ground (arith, q) in
      inl (subst (IsCalm w c) (sym eq) (same-IsCalm w c))
  | inl q ↦ elim (Option-cases found) [
    | inl n ↦
        let eq : acquire w e c found ≡ (w, c) = ground (arith, q, n) in
        inl (subst (IsCalm w c) (sym eq) (same-IsCalm w c))
    | inr (t, n) ↦
        let eq : acquire w e c found ≡ (
          record (queue w (spawn_joint w.next_entity e t)) { next_entity = w.next_entity + 1 },
          record c { target = some t; joint = some w.next_entity },
        ) =
          ground (arith, q, n) in
        inr (subst (IsOpening w e) (sym eq) (opened w e c t))
  ]
]

ticked-IsCalm :
    (w : World) (c : ClampState) → IsCalm w c (w, record c { cooldown = tick c.cooldown })
ticked-IsCalm w c = record {
  clamps = λ x. refl;
  joints = refl;
  bodies = λ x. refl;
  asked = refl;
  given = refl;
  kept = λ j h. h;
}

-- The command acquires a target, or leaves the links as they are.
respond-links :
    (w : World) (e : Entity) (action : ActionTensor) (c : ClampState) (found : Option Entity)
    → IsCalm w c (respond w e action c found) ⊎ IsOpening w e (respond w e action c found)
unfolding respond
respond-links w e action c found =
    let wants = lt half action.clamp in
    let links = λ (s : World × ClampState). IsCalm w c s ⊎ IsOpening w e s in
    if_both links (wants && le c.cooldown 0) (acquire-links w e c found)
      (if_both links wants (inl (same-IsCalm w c)) (inl (let_go-IsCalm w c)))

IsOpening-trans :
    {w v : World} {e : Entity} {d : ClampState} {s : World × ClampState}
    → IsOpening w e (v, d)
    → IsCalm v d s
    → IsOpening w e s
IsOpening-trans a b = record {
  clamps = λ x. b.clamps x ∙ a.clamps x;
  joints = b.joints ∙ a.joints;
  bodies = λ x. b.bodies x ∙ a.bodies x;
  target = a.target;
  asked = b.asked ∙ a.asked;
  given = b.given ∙ a.given;
  kept = λ j h. a.kept j (b.kept j h);
}

pub drive_clamp-links :
    (w : World) (e : Entity) (action : ActionTensor) (c : ClampState) (found : Option Entity)
    → IsCalm w c (drive_clamp w e action c found) ⊎ IsOpening w e (drive_clamp w e action c found)
unfolding drive_clamp
drive_clamp-links w e action c found =
    let ready : ClampState = record c { cooldown = tick c.cooldown } in
    let s = respond w e action ready found in
    let after = hold-IsCalm s.0 e s.1 in
    elim (respond-links w e action ready found) [
      | inl calm ↦ inl (IsCalm-trans (IsCalm-trans (ticked-IsCalm w c) calm) after)
      | inr opening ↦ inr (IsOpening-trans opening after)
    ]
