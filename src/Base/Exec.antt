-- ===== src/Base/Exec.antt =====
-- Methods that write to an object and may raise. What was written before the exception stays
-- written, so the state comes back beside the error too.
use mathlib.Core.Path.{◌≡◌, refl, sym, ap, ◌∙◌}
use mathlib.Core.Logic.{◌⊎◌, inl, inr}
use skill_centric_agent_syst.Base.Outcome.{Outcome, ok, err}

abbrev pub Exec {ℓ} : Type ℓ → Type ℓ → Type ℓ → Type ℓ
Exec E S A = S → Outcome E A × S

module _ {ℓ} {E S A : Type ℓ} where
  abbrev pub pure : A → Exec E S A
  pure a s = (ok a, s)

  abbrev pub raise : E → Exec E S A
  raise e s = (err e, s)

  -- Code that writes nothing.
  abbrev pub lift : Outcome E A → Exec E S A
  lift r s = (r, s)

  abbrev pub gets : (S → A) → Exec E S A
  gets f s = (ok (f s), s)

module _ {E S : Type 0} where
  abbrev pub puts : (S → S) → Exec E S (Unit {0})
  puts f s = (ok tt, f s)

module _ {ℓ} {E S A B : Type ℓ} where
  abbrev pub continue : Outcome E A → (A → Exec E S B) → Exec E S B
  continue (ok a) f s = f a s
  continue (err e) f s = (err e, s)

  infixl 10 ◌>>=◌
  unfoldable pub ◌>>=◌ : Exec E S A → (A → Exec E S B) → Exec E S B
  ◌>>=◌ m f s = let (r, s') = m s in continue r f s'

infixl 10 ◌>>◌
abbrev pub ◌>>◌ : {E S B : Type 0} → Exec E S (Unit {0}) → Exec E S B → Exec E S B
m >> n = m >>= λ _. n

-- A sequence that returned went through both parts.
pub then_inv :
    {E S B : Type 0} (m : Exec E S (Unit {0})) (n : Exec E S B) (s t : S) (b : B)
    → (m >> n) s ≡ (ok b, t)
    → (x : S) × (m s ≡ (ok tt, x)) × (n x ≡ (ok b, t))
unfolding ◌>>=◌
then_inv {E} {S} {B} m n s t b = go (m s) refl
  where
    go :
        (r : Outcome E (Unit {0}) × S)
        → m s ≡ r
        → continue r.0 (λ _. n) r.1 ≡ (ok b, t)
        → (x : S) × (m s ≡ (ok tt, x)) × (n x ≡ (ok b, t))
    go (ok u, x) e h = (x, e, h)
    go (err f, x) e h = cc

-- The same where the first part writes nothing.
pub continue_inv :
    {E S B : Type 0} (r : Outcome E (Unit {0})) (n : Exec E S B) (s t : S) (b : B)
    → continue r (λ _. n) s ≡ (ok b, t)
    → (r ≡ ok tt) × (n s ≡ (ok b, t))
continue_inv (ok u) n s t b h = (refl, h)
continue_inv (err f) n s t b h = cc

-- A sequence that returned went through both parts, of which the first gave a value.
pub bind_inv :
    {E S A B : Type 0} (m : Exec E S A) (f : A → Exec E S B) (s t : S) (b : B)
    → (m >>= f) s ≡ (ok b, t)
    → (a : A) × ((x : S) × (m s ≡ (ok a, x)) × (f a x ≡ (ok b, t)))
unfolding ◌>>=◌
bind_inv {E} {S} {A} {B} m f s t b = go (m s) refl
  where
    go :
        (r : Outcome E A × S)
        → m s ≡ r
        → continue r.0 f r.1 ≡ (ok b, t)
        → (a : A) × ((x : S) × (m s ≡ (ok a, x)) × (f a x ≡ (ok b, t)))
    go (ok a, x) e h = (a, (x, e, h))
    go (err f, x) e h = cc

-- The same where the first part writes nothing.
pub lift_inv :
    {E S A B : Type 0} (r : Outcome E A) (f : A → Exec E S B) (s t : S) (b : B)
    → continue r f s ≡ (ok b, t)
    → (a : A) × (r ≡ ok a) × (f a s ≡ (ok b, t))
lift_inv (ok a) f s t b h = (a, refl, h)
lift_inv (err e) f s t b h = cc

-- A sequence ended in its first part with an exception, or in its second.
pub bind_cases :
    {E S A B : Type 0} (m : Exec E S A) (f : A → Exec E S B) (s t : S) (r : Outcome E B)
    → (m >>= f) s ≡ (r, t)
    → ((e : E) × (m s ≡ (err e, t)) × (r ≡ err e))
      ⊎ ((a : A) × ((x : S) × (m s ≡ (ok a, x)) × (f a x ≡ (r, t))))
unfolding ◌>>=◌
bind_cases {E} {S} {A} {B} m f s t r = go (m s) refl
  where
    go :
        (q : Outcome E A × S)
        → m s ≡ q
        → continue q.0 f q.1 ≡ (r, t)
        → ((e : E) × (m s ≡ (err e, t)) × (r ≡ err e))
          ⊎ ((a : A) × ((x : S) × (m s ≡ (ok a, x)) × (f a x ≡ (r, t))))
    go (ok a, x) e h = inr (a, (x, e, h))
    go (err y, x) e h = inl (y, e ∙ ap (λ z. (err y, z)) (ap (λ z. z.1) h), sym (ap (λ z. z.0) h))

-- A sequence keeps what both of its parts keep.
pub bind-keeps :
    {E S A B C : Type 0} (p : S → C) (m : Exec E S A) (f : A → Exec E S B) (s : S)
    → p (m s).1 ≡ p s
    → ((a : A) (t : S) → p (f a t).1 ≡ p t)
    → p ((m >>= f) s).1 ≡ p s
unfolding ◌>>=◌
bind-keeps {E} {S} {A} {B} p m f s h k = go (m s) h
  where
    go : (q : Outcome E A × S) → p q.1 ≡ p s → p (continue q.0 f q.1).1 ≡ p s
    go (ok a, x) e = k a x ∙ e
    go (err y, x) e = e
