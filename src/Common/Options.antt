-- ===== src/Common/Options.antt =====
-- Chains of steps that may have no result, for do blocks.
use mathlib.Core.Option
use mathlib.Core.Path.{◌≡◌, refl}
use native.Mathlib.Omega.{arith}
use mathlib.Core.Option.{Option, none, some}

infixl 5 ◌>>=◌
abbrev pub ◌>>=◌ {ℓ ℓ'} : {A : Type ℓ} {B : Type ℓ'} → Option A → (A → Option B) → Option B
none >>= f = none
some a >>= f = f a

-- Where a mapped option comes from.
pub some-map {ℓ ℓ'} :
    {A : Type ℓ} {B : Type ℓ'} (f : A → B) (o : Option A) (y : B)
    → Option.map f o ≡ some y
    → (x : A) × (o ≡ some x) × (f x ≡ y)
some-map f none y h = ground arith
some-map f (some x) y h = (x, refl, ground arith)

-- `o.map_or(default, f)`.
abbrev pub map_or {ℓ ℓ'} : {A : Type ℓ} {B : Type ℓ'} → B → (A → B) → Option A → B
map_or default f none = default
map_or default f (some a) = f a

-- What holds of the default and of every image holds of the result.
pub map_or_both {ℓ ℓ' κ} :
    {A : Type ℓ} {B : Type ℓ'} (P : B → Type κ) (default : B) (f : A → B) (o : Option A)
    → P default
    → ((a : A) → o ≡ some a → P (f a))
    → P (map_or default f o)
map_or_both P default f none h k = h
map_or_both P default f (some a) h k = k a refl

-- Where the result of a chain comes from.
pub some_bind {ℓ ℓ'} :
    {A : Type ℓ} {B : Type ℓ'} (o : Option A) (f : A → Option B) (y : B)
    → (o >>= f) ≡ some y
    → (x : A) × (o ≡ some x) × (f x ≡ some y)
some_bind none f y h = ground arith
some_bind (some x) f y h = (x, refl, h)
