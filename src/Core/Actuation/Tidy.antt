-- ===== src/Core/Actuation/Tidy.antt =====
-- Each step keeps the links tidy.
use mathlib.Core.Path.{subst}
use ertw.Core.Actuation.Effect.{drive_clamp-links, IsOpening, IsCalm}
use ertw.Core.Actuation.Links.{pending, IsLink, IsLink-imp, IsTidy}
use ertw.Interface.Action.{ActionTensor}
use ertw.Core.Actuation.{drive_clamp, apply_clamp}
use ertw.Core.Actuation.Cleanup.{is_physical}
use ertw.Core.World.{remove, update, World}
use ertw.Core.Components.{ClampJoint, ClampState, Entity}
use mathlib.Core.Option.{some_inj}
use ertw.Common.{
  [], ◌∷◌, All-append, All, ◌∙◌, inr, List, sym, Bool-cases, ap, false, arith, ◌==◌, ◌⊎◌, inl, some,
  Option-cases, ◌≡◌, Option,
}

pub update_cases :
    {A : Type 0} (f : Entity → Option A) (e : Entity) (v : A) (x : Entity) (d : A)
    → update f e v x ≡ some d
    → ((e ≡ x) × (v ≡ d)) ⊎ ((e == x ≡ false) × (f x ≡ some d))
update_cases f e v x d h = elim (Bool-cases (e == x)) [
  | inl s ↦ inl (ground (arith, s), some_inj.0 (rw s at h))
  | inr n ↦ inr (n, rw n at h)
]

pub remove_cases :
    {A : Type 0} (f : Entity → Option A) (e x : Entity) (d : A)
    → remove f e x ≡ some d
    → (e == x ≡ false) × (f x ≡ some d)
remove_cases f e x d h = elim (Bool-cases (e == x)) [
  | inl s ↦ absurd (ground (arith, s, h))
  | inr n ↦ (n, rw n at h)
]

-- The world with the clamp of one entity written.
abbrev with_clamp : World → Entity → ClampState → World
with_clamp w e c = record w { clamp = update w.clamp e c }

calm-IsTidy :
    (w : World) (e : Entity) (c : ClampState) (s : World × ClampState)
    → IsTidy w
    → w.clamp e ≡ some c
    → IsCalm w c s
    → IsTidy (with_clamp s.0 e s.1)
unfolding is_physical
calm-IsTidy w e c s t at calm =
    let before : (x : Entity) (d : ClampState) (j : Entity)
        → (with_clamp s.0 e s.1).clamp x ≡ some d
        → d.joint ≡ some j
        → (d0 : ClampState) × (w.clamp x ≡ some d0) × (d0.joint ≡ some j) =
      λ x d j g n. elim (update_cases s.0.clamp e s.1 x d g) [
        | inl (q, v) ↦
            (c, ap w.clamp (sym q) ∙ at, calm.kept j (ap (λ (u : ClampState). u.joint) v ∙ n))
        | inr (q, v) ↦ (d, sym (calm.clamps x) ∙ v, n)
      ] in
    let keep = λ (links : List (Entity × ClampJoint)).
      IsLink-imp w.clamp (with_clamp s.0 e s.1).clamp w.next_entity s.0.next_entity
        (omega (arith, calm.given)) (λ x d j g n lt. before x d j g n) links in
    record {
      body = λ x d g. calm.bodies x ∙ elim (update_cases s.0.clamp e s.1 x d g) [
        | inl (q, v) ↦ t.body x c (ap w.clamp (sym q) ∙ at)
        | inr (q, v) ↦ t.body x d (sym (calm.clamps x) ∙ v)
      ];
      given = λ x d j g n.
          let (d0, g0, n0) = before x d j g n in omega (arith, t.given x d0 j g0 n0, calm.given);
      standing =
          subst (All (IsLink (with_clamp s.0 e s.1).clamp s.0.next_entity)) (sym calm.joints)
            (keep w.joints t.standing);
      coming =
          subst (All (IsLink (with_clamp s.0 e s.1).clamp s.0.next_entity)) (sym calm.asked)
            (keep (pending w.commands) t.coming);
    }

opening-IsTidy :
    (w : World) (e : Entity) (c : ClampState) (s : World × ClampState)
    → IsTidy w
    → w.clamp e ≡ some c
    → IsOpening w e s
    → IsTidy (with_clamp s.0 e s.1)
unfolding is_physical
opening-IsTidy w e c s t at opening =
    let w' = with_clamp s.0 e s.1 in
    let link : Entity × ClampJoint =
      (w.next_entity, record { owner = e; target = opening.target }) in
    let keep = λ (links : List (Entity × ClampJoint)).
      IsLink-imp w.clamp w'.clamp w.next_entity s.0.next_entity (omega (arith, opening.given))
        (λ x d j g n lt. elim (update_cases s.0.clamp e s.1 x d g) [
          | inl (q, v) ↦
              absurd (omega (arith, lt, opening.kept j (ap (λ (u : ClampState). u.joint) v ∙ n)))
          | inr (q, v) ↦ (d, sym (opening.clamps x) ∙ v, n)
        ])
        links in
    let new : IsLink w'.clamp s.0.next_entity link = (
      omega (arith, opening.given),
      λ x d g n. elim (update_cases s.0.clamp e s.1 x d g) [
        | inl (q, v) ↦ q
        | inr (q, v) ↦
            absurd (omega (arith, t.given x d w.next_entity (sym (opening.clamps x) ∙ v) n))
      ],
    ) in
    record {
      body = λ x d g. opening.bodies x ∙ elim (update_cases s.0.clamp e s.1 x d g) [
        | inl (q, v) ↦ t.body x c (ap w.clamp (sym q) ∙ at)
        | inr (q, v) ↦ t.body x d (sym (opening.clamps x) ∙ v)
      ];
      given = λ x d j g n. elim (update_cases s.0.clamp e s.1 x d g) [
        | inl (q, v) ↦
            omega (arith, opening.given, opening.kept j (ap (λ (u : ClampState). u.joint) v ∙ n))
        | inr (q, v) ↦ omega (arith, opening.given, t.given x d j (sym (opening.clamps x) ∙ v) n)
      ];
      standing =
          subst (All (IsLink w'.clamp s.0.next_entity)) (sym opening.joints)
            (keep w.joints t.standing);
      coming = subst (All (IsLink w'.clamp s.0.next_entity)) (sym opening.asked) (
          All-append (IsLink w'.clamp s.0.next_entity) (pending w.commands) (link ∷ [])
            (keep (pending w.commands) t.coming) (new, tt));
    }

pub apply_clamp-IsTidy :
    (w : World) (e : Entity) (action : ActionTensor) (found : Option Entity)
    → IsTidy w
    → IsTidy (apply_clamp w e action found)
unfolding apply_clamp
apply_clamp-IsTidy w e action found t = elim (Option-cases (w.clamp e)) [
  | inl q ↦ let eq : apply_clamp w e action found ≡ w = ground (arith, q) in subst IsTidy (sym eq) t
  | inr (c, q) ↦
      let s = drive_clamp w e action c found in
      let eq : apply_clamp w e action found ≡ with_clamp s.0 e s.1 = ground (arith, q) in
      subst IsTidy (sym eq) (elim (drive_clamp-links w e action c found) [
        | inl calm ↦ calm-IsTidy w e c s t q calm
        | inr opening ↦ opening-IsTidy w e c s t q opening
      ])
]
