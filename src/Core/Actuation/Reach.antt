-- ===== src/Core/Actuation/Reach.antt =====
-- The links are tidy in every world that the steps reach, so that the cleanup leaves clamps and joints
-- in agreement.
use ertw.Core.Fragment.Divide.{contains}
use ertw.Core.Snapshot.Members.{All-get_elem?}
use ertw.Core.Actuation.Sound.{cleanup_clamps, IsOwned}
use ertw.Core.Actuation.Tidy.{update_cases, apply_clamp-IsTidy, remove_cases}
use mathlib.Core.List.{append-nil}
use mathlib.Core.Path.{subst}
use ertw.Core.Actuation.Effect.{pending_despawn}
use ertw.Core.Actuation.Intact.{reset_one_clamp}
use ertw.Core.Actuation.Joints.{joints_left, despawned, without_orphans, reset_one}
use ertw.Core.Actuation.{drop_joint}
use ertw.Core.Actuation.Links.{
  changes, bears, flushes, buries, cleans, here, next, drives, ClampReach, ClampStep,
  pending-append, apply_command, flush, apply_commands, without_joint, IsLink, IsLink-imp, pending,
  IsTidy,
}
use ertw.Core.Components.{Physical, ClampJoint, ClampState, Entity}
use ertw.Core.Actuation.Cleanup.{
  is_joint, cleanup_clamp_joints, orphans, reset_clamps, is_intact, is_physical, reset_clamp,
}
use ertw.Core.World.{
  update, spawn_daughter, spawn_structure, despawn, spawn_joint, Command, queue, World,
}
use ertw.Common.{
  ◌+◌, map_or, none, All-append, ◌++◌, if_both, [], ◌∷◌, ap, ◌∙◌, ◌==◌, sym, All, Bool-cases, List,
  inr, ◌≤◌, inl, Option-cases, true, some, arith, ◌≡◌, refl,
}

-- A world with the same clamps or fewer, and the same joints or fewer.
fewer-IsTidy :
    (w v : World)
    → IsTidy w
    → ((e : Entity) (c : ClampState) → v.clamp e ≡ some c → is_physical v e ≡ true)
    → w.next_entity ≤ v.next_entity
    → ((e : Entity) (c : ClampState) (j : Entity)
        → v.clamp e ≡ some c
        → c.joint ≡ some j
        → (d : ClampState) × (w.clamp e ≡ some d) × (d.joint ≡ some j))
    → v.joints ≡ w.joints
    → pending v.commands ≡ pending w.commands
    → IsTidy v
fewer-IsTidy w v t body le before joints asked =
    let keep = λ (links : List (Entity × ClampJoint)).
      IsLink-imp w.clamp v.clamp w.next_entity v.next_entity le (λ e c j g n lt. before e c j g n)
        links in
    record {
      body = body;
      given =
          λ e c j g n. let (d, gd, nd) = before e c j g n in omega (arith, le, t.given e d j gd nd);
      standing = subst (All (IsLink v.clamp v.next_entity)) (sym joints) (keep w.joints t.standing);
      coming =
          subst (All (IsLink v.clamp v.next_entity)) (sym asked)
            (keep (pending w.commands) t.coming);
    }

reset_one_rest :
    (e : Entity) (w : World)
    → ((reset_one e w).joints ≡ w.joints)
      × ((reset_one e w).next_entity ≡ w.next_entity)
      × (pending (reset_one e w).commands ≡ pending w.commands)
      × ((x : Entity) → is_physical (reset_one e w) x ≡ is_physical w x)
unfolding reset_clamp drop_joint queue is_physical
reset_one_rest e w = elim (Option-cases (w.clamp e)) [
  | inl q ↦ rw q (refl, refl, refl, λ x. refl)
  | inr (c, q) ↦ rw q (elim (Bool-cases (is_intact w c)) [
    | inl s ↦ rw s (refl, refl, refl, λ x. refl)
    | inr f ↦ elim (Option-cases c.joint) [
      | inl n ↦ rw (f, n) (refl, refl, refl, λ x. refl)
      | inr (k, n) ↦ rw (f, n) (refl, refl, pending_despawn w.commands k, λ x. refl)
    ]
  ])
]

-- A clamp after a round was one before.
reset_one_had :
    (e : Entity) (w : World) (x : Entity) (c : ClampState)
    → (reset_one e w).clamp x ≡ some c
    → (d : ClampState) × (w.clamp x ≡ some d)
unfolding reset_clamp drop_joint queue
reset_one_had e w x c h = elim (Option-cases (w.clamp e)) [
  | inl q ↦ (c, rw q at h)
  | inr (k, q) ↦ elim (Bool-cases (e == x)) [
    | inl s ↦ let same : e ≡ x = ground (arith, s) in (k, ap w.clamp (sym same) ∙ q)
    | inr d ↦ elim (Option-cases k.joint) [
      | inl n ↦ (c, ground (arith, q, n, h, d))
      | inr (j, n) ↦ (c, ground (arith, q, n, h, d))
    ]
  ]
]

reset_one-IsTidy : (e : Entity) (w : World) → IsTidy w → IsTidy (reset_one e w)
reset_one-IsTidy e w t =
    let (joints, given, asked, bodies) = reset_one_rest e w in
    fewer-IsTidy w (reset_one e w) t
      (λ x c g. let (d, h) = reset_one_had e w x c g in bodies x ∙ t.body x d h)
      (omega (arith, given))
      (λ x c j g n. elim (reset_one_clamp e w x c g) [ inl q ↦ absurd (cc) | inr q ↦ (c, q, n) ])
      joints asked

reset_clamps-IsTidy :
    (entities : List Entity) (w : World) → IsTidy w → IsTidy (reset_clamps entities w)
unfolding reset_clamps
reset_clamps-IsTidy [] w t = t
reset_clamps-IsTidy (e ∷ entities) w t =
    reset_clamps-IsTidy entities (reset_one e w) (reset_one-IsTidy e w t)

pending-orphans :
    (w : World) (joints : List (Entity × ClampJoint)) → pending (orphans w joints) ≡ []
unfolding pending orphans
pending-orphans w [] = refl
pending-orphans w ((j, joint) ∷ joints) = ground (arith, pending-orphans w joints)

cleanup-IsTidy :
    (w : World) (entities : List Entity) → IsTidy w → IsTidy (cleanup_clamp_joints entities w)
unfolding cleanup_clamp_joints is_physical
cleanup-IsTidy w entities t = reset_clamps-IsTidy entities (without_orphans w) (
    fewer-IsTidy w (without_orphans w) t t.body le_refl_entity (λ e c j g n. (c, g, n)) refl
      (pending-append w.commands (orphans w w.joints)
        ∙ rw (pending-orphans w w.joints) (append-nil (pending w.commands))))
  where
    le_refl_entity : w.next_entity ≤ w.next_entity
    le_refl_entity = omega arith

without_joint-All :
    (P : Entity × ClampJoint → Type 0) (e : Entity) (joints : List (Entity × ClampJoint))
    → All P joints
    → All P (without_joint e joints)
unfolding without_joint
without_joint-All P e [] h = tt
without_joint-All P e ((j, joint) ∷ joints) h =
    if_both (All P) (j == e) (without_joint-All P e joints h.1)
      (h.0, without_joint-All P e joints h.1)

-- Each command keeps the links tidy, and those that later commands bring.
apply_commands-IsTidy :
    (commands : List Command) (w : World)
    → w.commands ≡ []
    → IsTidy w
    → All (IsLink w.clamp w.next_entity) (pending commands)
    → IsTidy (apply_commands commands w)
unfolding apply_commands apply_command pending is_physical
apply_commands-IsTidy [] w none_left t h = t
apply_commands-IsTidy (spawn_joint j owner target ∷ commands) w none_left t h =
    let link : Entity × ClampJoint = (j, record { owner = owner; target = target }) in
    apply_commands-IsTidy commands (record w { joints = w.joints ++ (link ∷ []) }) none_left
      (record {
        body = t.body;
        given = t.given;
        standing =
            All-append (IsLink w.clamp w.next_entity) w.joints (link ∷ []) t.standing (h.0, tt);
        coming = t.coming;
      })
      h.1
apply_commands-IsTidy (despawn e ∷ commands) w none_left t h =
    let v : World = apply_command w (despawn e) in
    let keep = λ (links : List (Entity × ClampJoint)).
      IsLink-imp w.clamp v.clamp w.next_entity w.next_entity (omega arith)
        (λ x c j g n lt. (c, (remove_cases w.clamp e x c g).1, n)) links in
    apply_commands-IsTidy commands v none_left
      (record {
        body =
            λ x c g. let (d, at) = remove_cases w.clamp e x c g in ground (arith, d, t.body x c at);
        given = λ x c j g n. t.given x c j (remove_cases w.clamp e x c g).1 n;
        standing =
            without_joint-All (IsLink v.clamp w.next_entity) e w.joints (keep w.joints t.standing);
        coming = keep (pending w.commands) t.coming;
      })
      (keep (pending commands) h)
apply_commands-IsTidy (spawn_structure p m e ∷ commands) w none_left t h =
    apply_commands-IsTidy commands w none_left t h
apply_commands-IsTidy (spawn_daughter d ∷ commands) w none_left t h =
    apply_commands-IsTidy commands w none_left t h

flush-IsTidy : (w : World) → IsTidy w → IsTidy (flush w)
unfolding flush is_physical pending
flush-IsTidy w t =
    apply_commands-IsTidy w.commands (record w { commands = [] }) refl
      (record { body = t.body; given = t.given; standing = t.standing; coming = tt }) t.coming

bears-IsTidy :
    (w : World) (p : Physical) (c : ClampState)
    → c.joint ≡ none
    → IsTidy w
    → IsTidy (record w {
      physical = update w.physical w.next_entity p;
      clamp = update w.clamp w.next_entity c;
      next_entity = w.next_entity + 1;
    })
unfolding is_physical
bears-IsTidy w p c open_hand t =
    let v : World = record w {
      physical = update w.physical w.next_entity p;
      clamp = update w.clamp w.next_entity c;
      next_entity = w.next_entity + 1;
    } in
    fewer-IsTidy w v t
      (λ x d g. elim (update_cases w.clamp w.next_entity c x d g) [
        | inl (q, u) ↦ ground (arith, q)
        | inr (q, u) ↦ ground (arith, q, t.body x d u)
      ])
      (omega arith)
      (λ x d j g n. elim (update_cases w.clamp w.next_entity c x d g) [
        | inl (q, u) ↦ absurd (ground (arith, open_hand, ap (λ (b : ClampState). b.joint) u, n))
        | inr (q, u) ↦ (d, u, n)
      ])
      refl refl

Step-IsTidy : {w v : World} → ClampStep w v → IsTidy w → IsTidy v
unfolding queue is_physical
Step-IsTidy (drives w e action found) t = apply_clamp-IsTidy w e action found t
Step-IsTidy (cleans w entities) t = cleanup-IsTidy w entities t
Step-IsTidy (buries w e) t =
    fewer-IsTidy w (queue w (despawn e)) t t.body (omega arith) (λ x c j g n. (c, g, n)) refl
      (pending_despawn w.commands e)
Step-IsTidy (flushes w) t = flush-IsTidy w t
Step-IsTidy (bears w p c open_hand) t = bears-IsTidy w p c open_hand t
Step-IsTidy (changes w physical same) t =
    fewer-IsTidy w (record w { physical = physical }) t (λ x c g. same x ∙ t.body x c g)
      (omega arith) (λ x c j g n. (c, g, n)) refl refl

pub Reach-IsTidy : {start w : World} → ClampReach start w → IsTidy start → IsTidy w
Reach-IsTidy here t = t
Reach-IsTidy (next r step) t = Step-IsTidy step (Reach-IsTidy r t)

tidy-IsOwned : (w : World) → IsTidy w → IsOwned w
tidy-IsOwned w t e c g = (
  t.body e c g,
  λ i j joint n at.
      (All-get_elem? (IsLink w.clamp w.next_entity) w.joints i (j, joint) t.standing at).1 e c g n,
)

-- In a world that steps of the systems reach in any order from a tidy one, once no command is queued:
-- after the cleanup, a clamp that it visited has a target that is physical, if any, and a joint that
-- is left, if any.
pub reachable_clamps :
    {start w : World} (entities : List Entity) (e : Entity) (c : ClampState)
    → IsTidy start
    → ClampReach start w
    → w.commands ≡ []
    → contains entities e ≡ true
    → (cleanup_clamp_joints entities w).clamp e ≡ some c
    → (map_or true (is_physical w) c.target ≡ true)
      × (map_or true
            (is_joint (joints_left (cleanup_clamp_joints entities w).commands w.joints))
            c.joint
          ≡ true)
unfolding despawned
reachable_clamps {w = w} entities e c t r idle visited g =
    cleanup_clamps entities w (tidy-IsOwned w (Reach-IsTidy r t))
      (λ j. ap (λ l. despawned l j) idle) e c visited g
