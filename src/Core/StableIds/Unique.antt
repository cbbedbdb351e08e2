-- ===== src/Core/StableIds/Unique.antt =====
-- New identifiers are new.
use ertw.Core.StableIds.{
  Named, allocate, observe, id_or, highest, nameless, assign, name_row, name_rows,
  ensure_stable_ids,
}
use ertw.Core.Components.{Entity}
use ertw.Core.Registry.{get}
use ertw.Common.{
  get_elem?, ap, sym, ◌∙◌, ◌⊎◌, inl, inr, zero, suc, min, ℕ, some, List, [], ◌∷◌, ◌+◌, ◌-◌, ◌^◌,
  ◌≤◌, ◌<◌, ◌≡◌, length, max, refl, arith,
}

-- Identifiers count up from above a number.
abbrev IsCounting : ℕ → List (Entity × ℕ) → Type 0
IsCounting m [] = Unit
IsCounting m ((e, id) ∷ assigned) = (id ≡ m + 1) × IsCounting (m + 1) assigned

assign-IsCounting :
    (m : ℕ) (entities : List Entity)
    → m + length entities < 2 ^ 64
    → IsCounting m (assign m entities).0
unfolding assign allocate
assign-IsCounting m [] h = tt
assign-IsCounting m (e ∷ entities) h =
    let q : max (min (2 ^ 64 - 1) (m + 1)) 1 ≡ m + 1 = omega (arith, h) in
    rw q (refl, assign-IsCounting (m + 1) entities (omega (arith, h)))

counting_get :
    (m : ℕ) (assigned : List (Entity × ℕ)) (e : Entity) (id : ℕ)
    → IsCounting m assigned
    → get assigned e ≡ some id
    → m < id
unfolding get
counting_get m [] e id c h = absurd (cc)
counting_get m ((j, k) ∷ assigned) e id c h =
    ground (arith, c.0, c.1, h, counting_get (m + 1) assigned e id)

-- Two entities are not given one identifier.
counting-eq :
    (m : ℕ) (assigned : List (Entity × ℕ)) (e j : Entity) (id : ℕ)
    → IsCounting m assigned
    → get assigned e ≡ some id
    → get assigned j ≡ some id
    → e ≡ j
unfolding get
counting-eq m [] e j id c h k = absurd (cc)
counting-eq m ((i, n) ∷ assigned) e j id c h k = ground (
  arith,
  c.0,
  c.1,
  h,
  k,
  counting_get (m + 1) assigned e id,
  counting_get (m + 1) assigned j id,
  counting-eq (m + 1) assigned e j id,
)

highest-ge :
    (rows : List Named) (i : ℕ) (r : Named) (id : ℕ)
    → get_elem? rows i ≡ some r
    → r.stable ≡ some id
    → id ≤ highest rows
unfolding highest id_or
highest-ge [] i r id h k = absurd (cc)
highest-ge (s ∷ rows) zero r id h k = ground (arith, h, k)
highest-ge (s ∷ rows) (suc i) r id h k = ground (arith, highest-ge rows i r id h k)

observed :
    (next : ℕ) (rows : List Named) (i : ℕ) (r : Named) (id : ℕ)
    → get_elem? rows i ≡ some r
    → r.stable ≡ some id
    → id ≤ observe next (highest rows)
unfolding observe
observed next rows i r id h k = omega (arith, highest-ge rows i r id h k)

-- No two entities have one identifier.
abbrev pub IsUnique : List Named → Type 0
IsUnique rows =
    (i j : ℕ) (r s : Named) (id : ℕ)
    → get_elem? rows i ≡ some r
    → get_elem? rows j ≡ some s
    → r.stable ≡ some id
    → s.stable ≡ some id
    → r.entity ≡ s.entity

-- A row of the result, with the row that it was.
pub origin_of :
    (assigned : List (Entity × ℕ)) (rows : List Named) (i : ℕ) (r' : Named)
    → get_elem? (name_rows assigned rows) i ≡ some r'
    → (r : Named) × (get_elem? rows i ≡ some r) × (r' ≡ name_row assigned r)
unfolding name_rows
origin_of assigned [] i r' h = absurd (cc)
origin_of assigned (r ∷ rows) zero r' h = (r, refl, ground (arith, h))
origin_of assigned (r ∷ rows) (suc i) r' h = origin_of assigned rows i r' h

-- The identifier of a row of the result was assigned to its entity, or the row had it.
id_cases :
    (assigned : List (Entity × ℕ)) (r : Named) (id : ℕ)
    → (name_row assigned r).stable ≡ some id
    → (get assigned r.entity ≡ some id) ⊎ (r.stable ≡ some id)
unfolding name_row
id_cases assigned r id h = ground (arith, h)

name_row-entity :
    (assigned : List (Entity × ℕ)) (r : Named) → (name_row assigned r).entity ≡ r.entity
unfolding name_row
name_row-entity assigned r = ground arith

same_entity :
    (m : ℕ) (assigned : List (Entity × ℕ)) (r s : Named) (id : ℕ)
    → IsCounting m assigned
    → ((n : ℕ) → r.stable ≡ some n → n ≤ m)
    → ((n : ℕ) → s.stable ≡ some n → n ≤ m)
    → (r.stable ≡ some id → s.stable ≡ some id → r.entity ≡ s.entity)
    → (get assigned r.entity ≡ some id) ⊎ (r.stable ≡ some id)
    → (get assigned s.entity ≡ some id) ⊎ (s.stable ≡ some id)
    → r.entity ≡ s.entity
same_entity m assigned r s id c hr hs u (inl a) (inl b) =
    counting-eq m assigned r.entity s.entity id c a b
same_entity m assigned r s id c hr hs u (inl a) (inr b) =
    absurd (omega (arith, hs id b, counting_get m assigned r.entity id c a))
same_entity m assigned r s id c hr hs u (inr a) (inl b) =
    absurd (omega (arith, hr id a, counting_get m assigned s.entity id c b))
same_entity m assigned r s id c hr hs u (inr a) (inr b) = u a b

pub ensure-IsUnique :
    (next : ℕ) (rows : List Named)
    → IsUnique rows
    → observe next (highest rows) + length (nameless rows) < 2 ^ 64
    → IsUnique (ensure_stable_ids next rows).1
unfolding ensure_stable_ids
ensure-IsUnique next rows u le i j r' s' id hi hj hr hs =
    let m = observe next (highest rows) in
    let assigned = (assign m (nameless rows)).0 in
    let (r, gr, qr) = origin_of assigned rows i r' hi in
    let (s, gs, qs) = origin_of assigned rows j s' hj in
    let e =
      same_entity m assigned r s id (assign-IsCounting m (nameless rows) le)
        (λ n h. observed next rows i r n gr h) (λ n h. observed next rows j s n gs h)
        (λ a b. u i j r s id gr gs a b)
        (id_cases assigned r id (ap (λ (t : Named). t.stable) (sym qr) ∙ hr))
        (id_cases assigned s id (ap (λ (t : Named). t.stable) (sym qs) ∙ hs)) in
    ap (λ (t : Named). t.entity) qr
    ∙ name_row-entity assigned r
    ∙ e
    ∙ sym (name_row-entity assigned s)
    ∙ ap (λ (t : Named). t.entity) (sym qs)
