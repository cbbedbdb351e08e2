-- ===== src/Core/StableIds/Laws.antt =====
-- All nodes get an identifier of their own.
use ertw.Core.StableIds.Unique.{IsUnique, ensure-IsUnique, origin_of}
use ertw.Core.Fragment.Divide.{contains}
use ertw.Core.StableIds.{
  sort_in, nameless_row, Named, allocate, observe, highest, nameless, assign, name_row,
  ensure_stable_ids,
}
use ertw.Core.Components.{Entity}
use ertw.Core.Registry.{get}
use mathlib.Core.Path.{subst}
use ertw.Common.{
  ◌==◌, ◌||◌, Bool-cases, Option-cases, get_elem?, ap, sym, ◌∙◌, inl, inr, zero, suc, ℕ, Bool,
  Option, none, some, List, [], ◌∷◌, ◌+◌, ◌^◌, ◌<◌, ◌≡◌, length, true, refl, arith,
}

-- Every physical node has an identifier.
abbrev pub IsIdentified : List Named → Type 0
IsIdentified rows =
    (i : ℕ) (r : Named)
    → get_elem? rows i ≡ some r
    → r.is_physical ≡ true
    → (id : ℕ) × (r.stable ≡ some id)

contains-sort_in :
    (e j : Entity) (l : List Entity) → contains (sort_in e l) j ≡ (e == j || contains l j)
unfolding contains sort_in
contains-sort_in e j [] = refl
contains-sort_in e j (k ∷ l) = ground (arith, contains-sort_in e j l)

contains-nameless_row :
    (b : Bool) (o : Option ℕ) (e j : Entity) (l : List Entity)
    → contains l j ≡ true
    → contains (nameless_row b o e l) j ≡ true
unfolding nameless_row
contains-nameless_row b o e j l h = ground (arith, h, contains-sort_in e j l)

contains-nameless_row_self :
    (b : Bool) (o : Option ℕ) (e : Entity) (l : List Entity)
    → b ≡ true
    → o ≡ none
    → contains (nameless_row b o e l) e ≡ true
unfolding nameless_row
contains-nameless_row_self b o e l h k = ground (arith, h, k, contains-sort_in e e l)

contains-nameless :
    (rows : List Named) (i : ℕ) (r : Named)
    → get_elem? rows i ≡ some r
    → r.is_physical ≡ true
    → r.stable ≡ none
    → contains (nameless rows) r.entity ≡ true
unfolding nameless
contains-nameless [] i r h p n = absurd (cc)
contains-nameless (s ∷ rows) zero r h p n =
    let q : s ≡ r = ground (arith, h) in
    subst
      (λ (t : Named).
        contains (nameless_row t.is_physical t.stable t.entity (nameless rows)) r.entity ≡ true)
      (sym q) (contains-nameless_row_self r.is_physical r.stable r.entity (nameless rows) p n)
contains-nameless (s ∷ rows) (suc i) r h p n =
    contains-nameless_row s.is_physical s.stable s.entity r.entity (nameless rows)
      (contains-nameless rows i r h p n)

assign_reaches :
    (m : ℕ) (l : List Entity) (e : Entity)
    → contains l e ≡ true
    → (id : ℕ) × (get (assign m l).0 e ≡ some id)
unfolding assign contains get
assign_reaches m [] e h = absurd (cc)
assign_reaches m (j ∷ l) e h = elim (Bool-cases (j == e)) [
  | inl q ↦ (allocate m, rw q refl)
  | inr q ↦ let (id, g) = assign_reaches (allocate m) l e (ground (arith, h, q)) in (id, rw q g)
]

named_by :
    (assigned : List (Entity × ℕ)) (r : Named) (id : ℕ)
    → get assigned r.entity ≡ some id
    → (name_row assigned r).stable ≡ some id
unfolding name_row
named_by assigned r id h = ground (arith, h)

stays_named :
    (assigned : List (Entity × ℕ)) (r : Named) (id : ℕ)
    → r.stable ≡ some id
    → (n : ℕ) × ((name_row assigned r).stable ≡ some n)
unfolding name_row
stays_named assigned r id h = elim (Option-cases (get assigned r.entity)) [
  | inl q ↦ (id, ground (arith, q, h))
  | inr (n, q) ↦ (n, ground (arith, q))
]

name_row-is_physical :
    (assigned : List (Entity × ℕ)) (r : Named) → (name_row assigned r).is_physical ≡ r.is_physical
unfolding name_row
name_row-is_physical assigned r = ground arith

row_named :
    (m : ℕ) (rows : List Named) (i : ℕ) (r : Named)
    → get_elem? rows i ≡ some r
    → r.is_physical ≡ true
    → (id : ℕ) × ((name_row (assign m (nameless rows)).0 r).stable ≡ some id)
row_named m rows i r h p = elim (Option-cases r.stable) [
  | inl n ↦
      let (id, g) = assign_reaches m (nameless rows) r.entity (contains-nameless rows i r h p n) in
      (id, named_by (assign m (nameless rows)).0 r id g)
  | inr (id, e) ↦ stays_named (assign m (nameless rows)).0 r id e
]

ensure-IsIdentified : (next : ℕ) (rows : List Named) → IsIdentified (ensure_stable_ids next rows).1
unfolding ensure_stable_ids
ensure-IsIdentified next rows i r' h p =
    let m = observe next (highest rows) in
    let assigned = (assign m (nameless rows)).0 in
    let (r, g, q) = origin_of assigned rows i r' h in
    let physical =
      sym (name_row-is_physical assigned r) ∙ ap (λ (t : Named). t.is_physical) (sym q) ∙ p in
    let (id, e) = row_named m rows i r g physical in (id, ap (λ (t : Named). t.stable) q ∙ e)

-- Where the entities with identifiers have different ones and the numbers do not run out, all
-- physical nodes have an identifier afterwards, and no two entities have the same.
pub ensure_stable_ids_lem :
    (next : ℕ) (rows : List Named)
    → IsUnique rows
    → observe next (highest rows) + length (nameless rows) < 2 ^ 64
    → IsUnique (ensure_stable_ids next rows).1 × IsIdentified (ensure_stable_ids next rows).1
ensure_stable_ids_lem next rows u le =
    (ensure-IsUnique next rows u le, ensure-IsIdentified next rows)
