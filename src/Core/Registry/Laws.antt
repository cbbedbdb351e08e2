-- ===== src/Core/Registry/Laws.antt =====
-- A registered controller is found by its identifier, and only the active ones are kept.
use native.Mathlib.Decide.{ℕ_discrete}
use ertw.Common.{refl, [], ◌∷◌, arith, some, none, ◌==◌, if◌then◌else◌, Bool, ◌≡◌, ℕ, List}
use ertw.Core.Registry.{retain, retain_ids, WorldAgents, insert, register, get}

pub get-insert :
    {S : Type 0} (controllers : List (ℕ × S)) (id j : ℕ) (s : S)
    → get (insert controllers id s) j ≡ (if id == j then some s else get controllers j)
unfolding get insert
get-insert [] id j s = refl
get-insert ((k, t) ∷ controllers) id j s = ground (arith, get-insert controllers id j s)

-- The controller that was registered is found under the identifier it was given, and what other
-- identifiers name is as it was.
pub get-register :
    {S : Type 0} (w : WorldAgents S) (s : S) (j : ℕ)
    → get (register w s).0.controllers j
      ≡ (if (register w s).1 == j then some s else get w.controllers j)
unfolding register
get-register w s j = get-insert w.controllers w.next_id j s

pub get-retain_ids :
    {S : Type 0} (active : ℕ → Bool) (controllers : List (ℕ × S)) (j : ℕ)
    → get (retain_ids active controllers) j ≡ (if active j then get controllers j else none)
unfolding get retain_ids
get-retain_ids active [] j = ground arith
get-retain_ids active ((k, s) ∷ controllers) j = elim (ℕ_discrete k j) [
  | yes e ↦ rw e (ground (arith, get-retain_ids active controllers j))
  | no n ↦ ground (arith, get-retain_ids active controllers j)
]

-- After the sweep an identifier names what it named, where it is active, and nothing otherwise.
pub get-retain :
    {S : Type 0} (w : WorldAgents S) (active : ℕ → Bool) (j : ℕ)
    → get (retain w active).controllers j ≡ (if active j then get w.controllers j else none)
unfolding retain
get-retain w active j = get-retain_ids active w.controllers j
