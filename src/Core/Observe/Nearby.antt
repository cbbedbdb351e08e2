-- ===== src/Core/Observe/Nearby.antt =====
-- Which neighbors an observation holds: the nearest, in order.
use mathlib.Core.Path.{subst}
use ertw.Float.Order.{F32, is_nan, lt}
use ertw.Core.Observe.{
  IsNumber, nearest_views, keep_nearest, Selection, by_distance, slot, Sighting,
}
use ertw.Common.{
  All-prefix, length-take, ◌∙◌, take-append-drop, sym, ltb, length, min, arith, refl, ◌≡◌, true,
  false, Bool-cases, All, ℕ, List, [], ◌∷◌, ◌++◌, drop, suc, ap, inl, inr,
}
use mathlib.Core.HLevel.{×_prop}
use mathlib.Core.Logic.{∥∥₁_elim}
use mathlib.Core.List.{append-nil, Perm}
use mathlib.Core.List.Perm
use mathlib.Core.List.Permᴰ.{Permᴰ, nil, cons, swap, trans}

-- No later sighting is nearer.
abbrev pub IsAscending : List Sighting → Type 0
IsAscending [] = Unit
IsAscending (s ∷ ss) = All (λ t. lt t.0 s.0 ≡ false) ss × IsAscending ss

-- None of the second list is nearer than one of the first.
abbrev pub IsNearer : List Sighting → List Sighting → Type 0
IsNearer near far = All (λ s. All (λ t. lt t.0 s.0 ≡ false) far) near

lt_split : (x y z : F32) → is_nan y ≡ false → lt x y ≡ false → lt y z ≡ false → lt x z ≡ false
unfolding lt
lt_split x y z n h k = ground arith

lt_asym : (x y : F32) → lt x y ≡ true → lt y x ≡ false
unfolding lt
lt_asym x y h = ground arith

slot-All :
    (P : Sighting → Type 0) (s : Sighting) (ts : List Sighting) → P s → All P ts → All P (slot s ts)
unfolding slot
slot-All P s [] p h = (p, tt)
slot-All P s (t ∷ ts) p h = elim (Bool-cases (lt t.0 s.0)) [
  | inl e ↦ rw e (h.0, slot-All P s ts p (h.1))
  | inr e ↦ rw e (p, h)
]

behind :
    (s t : Sighting) (ts : List Sighting)
    → IsNumber t
    → lt t.0 s.0 ≡ false
    → All (λ u. lt u.0 t.0 ≡ false) ts
    → All (λ u. lt u.0 s.0 ≡ false) ts
behind s t [] n h a = tt
behind s t (u ∷ ts) n h a = (lt_split u.0 t.0 s.0 n (a.0) h, behind s t ts n h (a.1))

slot-IsAscending :
    (s : Sighting) (ts : List Sighting) → All IsNumber ts → IsAscending ts → IsAscending (slot s ts)
unfolding slot
slot-IsAscending s [] n h = (tt, tt)
slot-IsAscending s (t ∷ ts) n h = elim (Bool-cases (lt t.0 s.0)) [
  | inl e ↦ rw e (
    slot-All (λ u. lt u.0 t.0 ≡ false) s ts (lt_asym t.0 s.0 e) (h.0),
    slot-IsAscending s ts (n.1) (h.1),
  )
  | inr e ↦ rw e ((e, behind s t ts (n.0) e (h.0)), h)
]

by_distance-All : (P : Sighting → Type 0) (l : List Sighting) → All P l → All P (by_distance l)
unfolding by_distance
by_distance-All P [] h = tt
by_distance-All P (s ∷ ss) h = slot-All P s (by_distance ss) (h.0) (by_distance-All P ss (h.1))

pub by_distance-IsAscending : (l : List Sighting) → All IsNumber l → IsAscending (by_distance l)
unfolding by_distance
by_distance-IsAscending [] n = tt
by_distance-IsAscending (s ∷ ss) n =
    slot-IsAscending s (by_distance ss) (by_distance-All IsNumber ss (n.1))
      (by_distance-IsAscending ss (n.1))

slot-Perm : (s : Sighting) (ts : List Sighting) → Perm (slot s ts) (s ∷ ts)
unfolding slot
slot-Perm s [] = Perm.refl _
slot-Perm s (t ∷ ts) = elim (Bool-cases (lt t.0 s.0)) [
  | inl e ↦ rw e (Perm.trans (Perm.cons t (slot-Perm s ts)) (Perm.swap s t ts))
  | inr e ↦ rw e (Perm.refl _)
]

pub by_distance-Perm : (l : List Sighting) → Perm (by_distance l) l
unfolding by_distance
by_distance-Perm [] = Perm.refl _
by_distance-Perm (s ∷ ss) =
    Perm.trans (slot-Perm s (by_distance ss)) (Perm.cons s (by_distance-Perm ss))

-- The kept sightings and the ones left out.
pub record IsSelection (kept views : List Sighting) : Type 0 where
  pub left : List Sighting
  pub same : Perm (kept ++ left) views
  pub nearer : IsNearer kept left

nearer_none : (l : List Sighting) → IsNearer l []
nearer_none [] = tt
nearer_none (s ∷ l) = (tt, nearer_none l)

lengthᴰ : {l m : List Sighting} → Permᴰ l m → length l ≡ length m
lengthᴰ (nil) = refl
lengthᴰ (cons e d) = ap suc (lengthᴰ d)
lengthᴰ (swap e k) = refl
lengthᴰ (trans d e) = lengthᴰ d ∙ lengthᴰ e

length-eq_of_perm : {l m : List Sighting} → Perm l m → length l ≡ length m
length-eq_of_perm p = ∥∥₁_elim p (hlevel) (λ d. lengthᴰ d)

IsNumber-prop : (l : List Sighting) → IsProp (All IsNumber l)
IsNumber-prop [] = hlevel
IsNumber-prop (s ∷ l) = let ih = IsNumber-prop l in ×_prop (hlevel) ih

permutedᴰ : {l m : List Sighting} → Permᴰ l m → All IsNumber l → All IsNumber m
permutedᴰ (nil) h = h
permutedᴰ (cons e d) h = (subst IsNumber e (h.0), permutedᴰ d (h.1))
permutedᴰ (swap e k) h = (subst IsNumber k (h.1.0), (subst IsNumber e (h.0), h.1.1))
permutedᴰ (trans d e) h = permutedᴰ e (permutedᴰ d h)

permuted : {l m : List Sighting} → Perm l m → All IsNumber l → All IsNumber m
permuted {m = m} p h = ∥∥₁_elim p (IsNumber-prop m) (λ d. permutedᴰ d h)

module _ (selection : Selection) where
  open selection use {select, select_permutes, select_splits}

  keep_nearest-IsSelection :
      (most : ℕ) (views : List Sighting)
      → All IsNumber views
      → IsSelection (keep_nearest selection most views) views
  unfolding keep_nearest
  keep_nearest-IsSelection most views n =
      let keep = min most (length views) in
      elim (Bool-cases (ltb keep (length views))) [
        | inl e ↦ rw e (record {
          left = drop keep (select keep views);
          same =
              subst (λ l. Perm l views) (sym (take-append-drop keep (select keep views)))
                (select_permutes keep views);
          nearer = select_splits keep views (ground (arith, e)) n;
        })
        | inr e ↦ rw e (record {
          left = [];
          same = subst (λ l. Perm l views) (sym (append-nil views)) (Perm.refl views);
          nearer = nearer_none views;
        })
      ]

  length-keep_nearest_lem :
      (most : ℕ) (views : List Sighting)
      → length (keep_nearest selection most views) ≡ min most (length views)
  unfolding keep_nearest
  length-keep_nearest_lem most views =
      let keep = min most (length views) in
      ground (
        arith,
        length-take keep (select keep views),
        length-eq_of_perm (select_permutes keep views),
      )

  -- Where every distance is a number, the neighbors of an observation are sorted by distance, as many
  -- as are sighted and asked for, and none that is left out is nearer than one that is kept.
  pub nearest_views-IsSelection :
      (most : ℕ) (views : List Sighting)
      → All IsNumber views
      → IsAscending (nearest_views selection most views)
        × IsSelection (nearest_views selection most views) views
        × (length (nearest_views selection most views) ≡ min most (length views))
  unfolding nearest_views
  nearest_views-IsSelection most views n =
      let kept = keep_nearest selection most views in
      let s = keep_nearest-IsSelection most views n in
      let same = by_distance-Perm kept in
      (
        by_distance-IsAscending kept
            (All-prefix IsNumber kept s.left (permuted (Perm.symm s.same) n)),
        record {
          left = s.left;
          same = Perm.trans (Perm.append_right s.left same) s.same;
          nearer = by_distance-All (λ a. All (λ t. lt t.0 a.0 ≡ false) s.left) kept s.nearer;
        },
        length-eq_of_perm same ∙ length-keep_nearest_lem most views,
      )
