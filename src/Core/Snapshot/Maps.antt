-- ===== src/Core/Snapshot/Maps.antt =====
-- What a map that was collected from the rows of a table answers.
use ertw.Core.Registry.Laws.{get-insert}
use ertw.Core.Registry.{get}
use ertw.Core.Snapshot.{collect, put_entry}
use ertw.Common.{
  zero, ap, [], refl, ◌∙◌, suc, ◌∷◌, arith, ◌≢◌, ◌<◌, none, some, ◌≡◌, get_elem?, List, ℕ, Option,
}

-- The keys of the rows grow.
abbrev pub IsAscending : {A : Type 0} → (A → Option ℕ) → List A → Type 0
IsAscending {A} key rows =
    (i j : ℕ) (r s : A) (a b : ℕ)
    → get_elem? rows i ≡ some r
    → get_elem? rows j ≡ some s
    → key r ≡ some a
    → key s ≡ some b
    → i < j
    → a < b

get-put_entry_other :
    {B : Type 0} (o : Option ℕ) (v : Option B) (m : List (ℕ × B)) (k : ℕ)
    → ((a : ℕ) → o ≡ some a → a ≢ k)
    → get (put_entry o v m) k ≡ get m k
unfolding put_entry
get-put_entry_other none v m k h = refl
get-put_entry_other (some a) none m k h = refl
get-put_entry_other (some a) (some b) m k h = ground (arith, get-insert m a k b, h a refl)

get-put_entry :
    {B : Type 0} (k : ℕ) (v : Option B) (m : List (ℕ × B))
    → get m k ≡ none
    → get (put_entry (some k) v m) k ≡ v
unfolding put_entry
get-put_entry k none m h = h
get-put_entry k (some b) m h = ground (arith, get-insert m k k b)

module _ {A : Type 0} {B : Type 0} (key : A → Option ℕ) (value : A → Option B) where
  get-collect_above :
      (rows : List A) (m : List (ℕ × B)) (k : ℕ)
      → ((i : ℕ) (r : A) (a : ℕ) → get_elem? rows i ≡ some r → key r ≡ some a → k < a)
      → get (collect key value m rows) k ≡ get m k
  unfolding collect
  get-collect_above [] m k h = refl
  get-collect_above (r ∷ rows) m k h =
      get-collect_above rows (put_entry (key r) (value r) m) k (λ i. h (suc i))
      ∙ get-put_entry_other (key r) (value r) m k (λ a e q. ground (arith, h 0 r a refl e, q))

  -- Where the keys grow, a key finds the value of its own row.
  pub get-collect :
      (rows : List A) (m : List (ℕ × B)) (i : ℕ) (r : A) (k : ℕ)
      → IsAscending key rows
      → get_elem? rows i ≡ some r
      → key r ≡ some k
      → get m k ≡ none
      → get (collect key value m rows) k ≡ value r
  unfolding collect
  get-collect [] m i r k up g e n = absurd (cc)
  get-collect (s ∷ rows) m zero r k up g e n =
      let q : s ≡ r = ground arith in
      get-collect_above rows (put_entry (key s) (value s) m) k
        (λ j t a gt et. up 0 (suc j) r t k a g gt e et (omega arith))
      ∙ rw q (rw e (get-put_entry k (value r) m n))
  get-collect (s ∷ rows) m (suc i) r k up g e n =
      get-collect rows (put_entry (key s) (value s) m) i r k
        (λ a b t u c d ga gb ea eb h. up (suc a) (suc b) t u c d ga gb ea eb (omega (arith, h))) g e
        (get-put_entry_other (key s) (value s) m k
            (λ a es q. ground (arith, up 0 (suc i) s r a k refl g es e, q))
          ∙ n)

  -- A key of no row finds nothing.
  pub get-collect_absent :
      (rows : List A) (m : List (ℕ × B)) (k : ℕ)
      → ((i : ℕ) (r : A) → get_elem? rows i ≡ some r → key r ≢ some k)
      → get (collect key value m rows) k ≡ get m k
  unfolding collect
  get-collect_absent [] m k h = refl
  get-collect_absent (r ∷ rows) m k h =
      get-collect_absent rows (put_entry (key r) (value r) m) k (λ i. h (suc i))
      ∙ get-put_entry_other (key r) (value r) m k (λ a e q. h 0 r refl (e ∙ ap some q))
