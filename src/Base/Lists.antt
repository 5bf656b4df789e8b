-- ===== src/Base/Lists.antt =====
-- Tests over lists: membership of texts, filters and counts by a Boolean test.
use Prim.Native.Nat.{ℕ, suc, ◌+◌}
use Prim.Native.String.{String}
use mathlib.Core.Path.{◌≡◌, refl}
use mathlib.Core.Bool.{Bool, true, false, not, ◌&&◌, ◌||◌}
use mathlib.Core.List.{List, [], ◌∷◌, ◌++◌}
use native.Mathlib.Omega.{arith}
use skill_centric_agent_syst.Base.Tests.{◌==◌, if◌then◌else◌, eq_iff, eq_refl}

-- `x in xs`
unfoldable pub member : String → List String → Bool
member x [] = false
member x (y ∷ ys) = (x == y) || member x ys

module _ {ℓ} {A : Type ℓ} where
  -- `all(p(x) for x in xs)`
  unfoldable pub every : (A → Bool) → List A → Bool
  every p [] = true
  every p (x ∷ xs) = p x && every p xs

  -- `[x for x in xs if p(x)]`
  unfoldable pub keep : (A → Bool) → List A → List A
  keep p [] = []
  keep p (x ∷ xs) = let rest = keep p xs in if p x then x ∷ rest else rest

  -- `sum(1 for x in xs if p(x))`
  unfoldable pub tally : (A → Bool) → List A → ℕ
  tally p [] = 0
  tally p (x ∷ xs) = let rest = tally p xs in if p x then suc rest else rest

  abbrev pub is_empty : List A → Bool
  is_empty [] = true
  is_empty (x ∷ xs) = false

-- `sorted(set(xs) - set(ys))`, of which the code asks only whether it is empty.
unfoldable pub missing : List String → List String → List String
unfolding keep
missing xs ys = keep (λ x. not (member x ys)) xs

-- Nothing is missing exactly when every element of the first list is in the second.
pub missing-none :
    (xs ys : List String)
    → is_empty (missing xs ys) ≡ true
    → (x : String) → member x xs ≡ true
    → member x ys ≡ true
unfolding missing member
missing-none [] ys h x m = cc
missing-none (z ∷ zs) ys h x m = ground (arith, eq_iff x z, missing-none zs ys (ground arith) x)

-- Every second list that holds the first leaves nothing missing.
pub none-missing :
    (xs ys : List String)
    → ((x : String) → member x xs ≡ true → member x ys ≡ true)
    → is_empty (missing xs ys) ≡ true
unfolding missing member
none-missing [] ys h = refl
none-missing (z ∷ zs) ys h =
    ground (arith, h z, eq_refl z, none-missing zs ys (λ x m. h x (ground (arith, m))))

pub member-append :
    (x : String) (xs ys : List String) → member x (xs ++ ys) ≡ (member x xs || member x ys)
unfolding member
member-append x [] ys = refl
member-append x (z ∷ zs) ys = ground (arith, member-append x zs ys)

module _ {ℓ} {A : Type ℓ} (p : A → Bool) where
  pub tally-append : (xs ys : List A) → tally p (xs ++ ys) ≡ tally p xs + tally p ys
  unfolding tally
  tally-append [] ys = omega arith
  tally-append (x ∷ xs) ys = ground (arith, tally-append xs ys)
