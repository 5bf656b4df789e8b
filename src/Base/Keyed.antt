-- ===== src/Base/Keyed.antt =====
-- Dictionaries of records that are stored under their own identifiers, each once.
use Prim.Native.String.{String}
use mathlib.Core.Path.{◌≡◌, refl, sym, ap, subst, ◌∙◌}
use mathlib.Core.Option.{none, some}
use mathlib.Core.List.{[], ◌∷◌}
use native.Mathlib.Omega.{arith}
use skill_centric_agent_syst.Base.Tests.{◌==◌, eq_iff, eq_refl, Bool-cases}
use mathlib.Core.Logic.{inl, inr}
use skill_centric_agent_syst.Base.Dicts.{Dict, get, insert, modify, values, get-insert, get-modify}
use skill_centric_agent_syst.Base.Sorting.{All}

module _ {V : Type 0} (id : V → String) where
  -- Every key is the identifier of its record and stands once.
  abbrev pub IsKeyed : Dict V → Type 0
  IsKeyed [] = Unit {0}
  IsKeyed ((k, v) ∷ d) = (id v ≡ k) × (get k d ≡ none) × IsKeyed d

  pub insert-IsKeyed : (v : V) (d : Dict V) → IsKeyed d → IsKeyed (insert (id v) v d)
  unfolding insert get
  insert-IsKeyed v [] h = (refl, refl, tt)
  insert-IsKeyed v ((j, w) ∷ d) h = elim (Bool-cases (id v == j)) [
    | inl same ↦ rw same ((eq_iff (id v) j).0 same, h.1, h.2)
    | inr other ↦ rw other (
      h.0,
      rw (get-insert (id v) j v d) (ground (arith, eq_iff j (id v), eq_iff (id v) j, h.1)),
      insert-IsKeyed v d h.2,
    )
  ]

  pub modify-IsKeyed :
      (k : String) (f : V → V) (d : Dict V)
      → ((v : V) → id (f v) ≡ id v)
      → IsKeyed d
      → IsKeyed (modify k f d)
  unfolding modify get
  modify-IsKeyed k f [] keeps h = tt
  modify-IsKeyed k f ((j, w) ∷ d) keeps h = elim (Bool-cases (k == j)) [
    | inl same ↦ rw same (keeps w ∙ h.0, h.1, h.2)
    | inr other ↦ rw other (
      h.0,
      rw (get-modify k j f d) (ground (arith, h.1, eq_iff j k)),
      modify-IsKeyed k f d keeps h.2,
    )
  ]

  -- What the rest of the dictionary holds is not hidden by its first key.
  get_tail :
      (j i : String) (w v : V) (d : Dict V)
      → get j d ≡ none
      → get i d ≡ some v
      → get i ((j, w) ∷ d) ≡ some v
  unfolding get
  get_tail j i w v d h g = elim (Bool-cases (i == j)) [
    | inl same ↦ cc (h, subst (λ x. get x d ≡ some v) ((eq_iff i j).0 same) g)
    | inr other ↦ rw other g
  ]

  -- In such a dictionary each value is found under its identifier.
  values-found :
      (d e : Dict V)
      → IsKeyed d
      → ((j : String) (v : V) → get j d ≡ some v → get j e ≡ some v)
      → All (λ v. get (id v) e ≡ some v) (values d)
  unfolding values get
  values-found [] e h inside = tt
  values-found ((j, w) ∷ d) e h inside = (
    rw h.0 (inside j w (rw (eq_refl j))),
    values-found d e h.2 (λ i v g. inside i v (get_tail j i w v d h.1 g)),
  )

  pub All-found : (d : Dict V) → IsKeyed d → All (λ v. get (id v) d ≡ some v) (values d)
  All-found d h = values-found d d h (λ j v g. g)

  -- What holds of all values holds of one that is found.
  pub found-All :
      (P : V → Type 0) (k : String) (v : V) (d : Dict V) → All P (values d) → get k d ≡ some v → P v
  unfolding values get
  found-All P k v [] h g = cc
  found-All P k v ((j, w) ∷ d) h g = elim (Bool-cases (k == j)) [
    | inl same ↦ subst P (ground arith) h.0
    | inr other ↦ found-All P k v d h.1 (ground arith)
  ]

  pub found-id : (k : String) (v : V) (d : Dict V) → IsKeyed d → get k d ≡ some v → id v ≡ k
  unfolding get
  found-id k v [] h g = cc
  found-id k v ((j, w) ∷ d) h g = elim (Bool-cases (k == j)) [
    | inl same ↦
        (let here : w ≡ v = ground arith in ap id (sym here) ∙ h.0 ∙ sym ((eq_iff k j).0 same))
    | inr other ↦ found-id k v d h.2 (ground arith)
  ]
