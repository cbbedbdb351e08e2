-- ===== src/Evaluator/Rank.antt =====
-- The ranking is stable, complete and best-first.
use ertw.Evaluator.{CompetenceRecord, comes_before, place, sorted, indexed, rank, finite_metric}
use ertw.Common.{
  inr, inl, All, Bool-cases, true, false, ◌≡◌, arith, ℕ, List, [], ◌∷◌, map, suc, ◌<◌, refl,
}
use ertw.Float.Order.{total_lt, F32}
use mathlib.Core.List.{Perm}
use mathlib.Core.List.Perm

-- The first is ranked before the second: no rule prefers the second, and where none prefers the
-- first either, it was given earlier.
abbrev pub IsBefore : ℕ × CompetenceRecord → ℕ × CompetenceRecord → Type 0
IsBefore x y = (comes_before y.1 x.1 ≡ false) × (comes_before x.1 y.1 ≡ false → x.0 < y.0)

abbrev pub IsRanked : List (ℕ × CompetenceRecord) → Type 0
IsRanked [] = Unit
IsRanked (x ∷ ys) = All (IsBefore x) ys × IsRanked ys

total_lt_asym : (x y : F32) → total_lt x y ≡ true → total_lt y x ≡ false
unfolding total_lt
total_lt_asym x y h = ground arith

total_lt_split : (x y z : F32) → total_lt x y ≡ false → total_lt y z ≡ false → total_lt x z ≡ false
unfolding total_lt
total_lt_split x y z h k = ground arith

comes_before_asym : (a b : CompetenceRecord) → comes_before a b ≡ true → comes_before b a ≡ false
unfolding comes_before
comes_before_asym a b h =
    ground (
      arith,
      total_lt_asym (finite_metric b.energy_accumulated) (finite_metric a.energy_accumulated),
    )

comes_before_split :
    (a b c : CompetenceRecord)
    → comes_before a b ≡ false
    → comes_before b c ≡ false
    → comes_before a c ≡ false
unfolding comes_before
comes_before_split a b c h k = ground (
  arith,
  total_lt_split (finite_metric c.energy_accumulated) (finite_metric b.energy_accumulated)
      (finite_metric a.energy_accumulated),
)

place-All :
    (P : ℕ × CompetenceRecord → Type 0) (x : ℕ × CompetenceRecord)
    (ys : List (ℕ × CompetenceRecord))
    → P x
    → All P ys
    → All P (place x ys)
unfolding place
place-All P x [] p h = (p, tt)
place-All P x (y ∷ ys) p h = elim (Bool-cases (comes_before y.1 x.1)) [
  | inl e ↦ rw e (h.0, place-All P x ys p (h.1))
  | inr e ↦ rw e (p, h)
]

after :
    (x y : ℕ × CompetenceRecord) (ys : List (ℕ × CompetenceRecord))
    → comes_before y.1 x.1 ≡ false
    → All (λ z. x.0 < z.0) ys
    → All (IsBefore y) ys
    → All (IsBefore x) ys
after x y [] e l h = tt
after x y (z ∷ ys) e l h =
    ((comes_before_split z.1 y.1 x.1 (h.0.0) e, λ k. l.0), after x y ys e (l.1) (h.1))

place-IsRanked :
    (x : ℕ × CompetenceRecord) (ys : List (ℕ × CompetenceRecord))
    → All (λ y. x.0 < y.0) ys
    → IsRanked ys
    → IsRanked (place x ys)
unfolding place
place-IsRanked x [] l h = (tt, tt)
place-IsRanked x (y ∷ ys) l h = elim (Bool-cases (comes_before y.1 x.1)) [
  | inl e ↦ rw e (
    place-All (IsBefore y) x ys (comes_before_asym y.1 x.1 e, (λ k. ground (arith, k, e))) (h.0),
    place-IsRanked x ys (l.1) (h.1),
  )
  | inr e ↦ rw e ((((e, λ k. l.0), after x y ys e (l.1) (h.0))), h)
]

place-Perm :
    (x : ℕ × CompetenceRecord) (ys : List (ℕ × CompetenceRecord)) → Perm (place x ys) (x ∷ ys)
unfolding place
place-Perm x [] = Perm.refl _
place-Perm x (y ∷ ys) = elim (Bool-cases (comes_before y.1 x.1)) [
  | inl e ↦ rw e (Perm.trans (Perm.cons y (place-Perm x ys)) (Perm.swap x y ys))
  | inr e ↦ rw e (Perm.refl _)
]

sorted-Perm : (xs : List (ℕ × CompetenceRecord)) → Perm (sorted xs) xs
unfolding sorted
sorted-Perm [] = Perm.refl _
sorted-Perm (x ∷ xs) = Perm.trans (place-Perm x (sorted xs)) (Perm.cons x (sorted-Perm xs))

sorted-All :
    (P : ℕ × CompetenceRecord → Type 0) (xs : List (ℕ × CompetenceRecord))
    → All P xs
    → All P (sorted xs)
unfolding sorted
sorted-All P [] h = tt
sorted-All P (x ∷ xs) h = place-All P x (sorted xs) (h.0) (sorted-All P xs (h.1))

indexed_above :
    (i j : ℕ) (records : List CompetenceRecord) → i < j → All (λ y. i < y.0) (indexed j records)
unfolding indexed
indexed_above i j [] le = tt
indexed_above i j (r ∷ records) le = (le, indexed_above i (suc j) records (omega arith))

sorted-IsRanked : (i : ℕ) (records : List CompetenceRecord) → IsRanked (sorted (indexed i records))
unfolding sorted indexed
sorted-IsRanked i [] = tt
sorted-IsRanked i (r ∷ records) =
    place-IsRanked (i, r) (sorted (indexed (suc i) records))
      (sorted-All (λ y. i < y.0) _ (indexed_above i (suc i) records (omega arith)))
      (sorted-IsRanked (suc i) records)

-- The ranking lists the indices of a permutation of the records in which each stands before those
-- that it is better than, and before those it ties with that were given later.
pub rank_lem :
    (records : List CompetenceRecord)
    → (l : List (ℕ × CompetenceRecord)) × (rank records ≡ map (λ x. x.0) l)
      × Perm l (indexed 0 records)
      × IsRanked l
unfolding rank
rank_lem records =
    (sorted (indexed 0 records), refl, sorted-Perm (indexed 0 records), sorted-IsRanked 0 records)
