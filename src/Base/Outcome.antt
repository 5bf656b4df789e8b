-- ===== src/Base/Outcome.antt =====
-- Code that may raise and writes nothing.
use mathlib.Core.Path.{◌≡◌, refl}
use mathlib.Core.Bool.{Bool, true, false}
use mathlib.Core.Option.{Option, none, some}
use mathlib.Core.List.{List, [], ◌∷◌}

pub data Outcome {ℓ} (E A : Type ℓ) : Type ℓ where
  ok : A → Outcome E A
  err : E → Outcome E A

infixl 10 ◌>>=◌ ◌>>◌
abbrev pub ◌>>=◌ {ℓ} : {E A B : Type ℓ} → Outcome E A → (A → Outcome E B) → Outcome E B
ok a >>= f = f a
err e >>= f = err e

abbrev pub ◌>>◌ : {E B : Type 0} → Outcome E (Unit {0}) → Outcome E B → Outcome E B
m >> n = m >>= λ _. n

-- `if not b: raise e`
abbrev pub check : {E : Type 0} → Bool → E → Outcome E (Unit {0})
check true e = ok tt
check false e = err e

-- A value, or an exception where there is none.
abbrev pub some_or {ℓ} : {E A : Type ℓ} → Option A → E → Outcome E A
some_or none e = err e
some_or (some a) e = ok a

module _ {E : Type 0} where
  -- A check that passed held, and so did the rest.
  pub check_inv :
      {B : Type 0} (b : Bool) (e : E) (m : Outcome E B) (r : B)
      → (check b e >> m) ≡ ok r
      → (b ≡ true) × (m ≡ ok r)
  check_inv true e m r h = (refl, h)
  check_inv false e m r h = cc

  pub check_ok : (b : Bool) (e : E) → check b e ≡ ok tt → b ≡ true
  check_ok true e h = refl
  check_ok false e h = cc

  pub seq_inv :
      {B : Type 0} (m : Outcome E (Unit {0})) (n : Outcome E B) (r : B)
      → (m >> n) ≡ ok r
      → (m ≡ ok tt) × (n ≡ ok r)
  seq_inv (ok u) n r h = (refl, h)
  seq_inv (err e) n r h = cc

  pub bind_inv :
      {A B : Type 0} (m : Outcome E A) (f : A → Outcome E B) (r : B)
      → (m >>= f) ≡ ok r
      → (a : A) × (m ≡ ok a) × (f a ≡ ok r)
  bind_inv (ok a) f r h = (a, refl, h)
  bind_inv (err e) f r h = cc

  -- `for x in xs: step(x)`
  unfoldable pub for_each :
      {A : Type 0} → (A → Outcome E (Unit {0})) → List A → Outcome E (Unit {0})
  for_each step [] = ok tt
  for_each step (x ∷ xs) = step x >> for_each step xs
