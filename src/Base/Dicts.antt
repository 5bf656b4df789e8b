-- ===== src/Base/Dicts.antt =====
-- Python's `dict` with text keys: the pairs in the order of insertion. An assignment to a key
-- that is there keeps its place, any other goes to the end.
use Prim.Native.Nat.{ℕ, ◌+◌}
use Prim.Native.String.{String}
use mathlib.Core.Path.{◌≡◌, refl}
use mathlib.Core.Bool.{Bool}
use mathlib.Core.Option.{Option, none, some}
use mathlib.Core.List.{List, [], ◌∷◌}
use native.Mathlib.Omega.{arith}
use skill_centric_agent_syst.Base.Tests.{◌==◌, if◌then◌else◌, eq_iff}
use skill_centric_agent_syst.Base.Lists.{tally}

abbrev pub Dict {ℓ} : Type ℓ → Type ℓ
Dict V = List (String × V)

abbrev pub unit : Bool → ℕ
unit b = if b then 1 else 0

module _ {ℓ} {V : Type ℓ} where
  -- `d.get(k)`
  unfoldable pub get : String → Dict V → Option V
  get k [] = none
  get k ((j, v) ∷ d) = if k == j then some v else get k d

  -- `d[k] = v`
  unfoldable pub insert : String → V → Dict V → Dict V
  insert k v [] = (k, v) ∷ []
  insert k v ((j, w) ∷ d) = if k == j then (j, v) ∷ d else (j, w) ∷ insert k v d

  -- `d[k].update(…)` of the record under a key that is there
  unfoldable pub modify : String → (V → V) → Dict V → Dict V
  modify k f [] = []
  modify k f ((j, v) ∷ d) = if k == j then (j, f v) ∷ d else (j, v) ∷ modify k f d

  -- `list(d.values())`
  unfoldable pub values : Dict V → List V
  values [] = []
  values ((j, v) ∷ d) = v ∷ values d

  unfoldable pub keys : Dict V → List String
  keys [] = []
  keys ((j, v) ∷ d) = j ∷ keys d

  pub get-insert :
      (k j : String) (v : V) (d : Dict V)
      → get j (insert k v d) ≡ (if j == k then some v else get j d)
  unfolding get insert
  get-insert k j v [] = refl
  get-insert k j v ((i, w) ∷ d) =
      ground (arith, eq_iff j k, eq_iff k i, eq_iff j i, get-insert k j v d)

  abbrev pub update_found : (V → V) → Option V → Option V
  update_found f none = none
  update_found f (some v) = some (f v)

  pub get-modify :
      (k j : String) (f : V → V) (d : Dict V)
      → get j (modify k f d) ≡ (if j == k then update_found f (get j d) else get j d)
  unfolding get modify
  get-modify k j f [] = ground arith
  get-modify k j f ((i, w) ∷ d) =
      ground (arith, eq_iff j k, eq_iff k i, eq_iff j i, get-modify k j f d)

  pub keys-modify : (k : String) (f : V → V) (d : Dict V) → keys (modify k f d) ≡ keys d
  unfolding keys modify
  keys-modify k f [] = refl
  keys-modify k f ((i, w) ∷ d) = ground (arith, keys-modify k f d)

  -- How many of the values of a dictionary pass a test.
  unfoldable pub count_values : (V → Bool) → Dict V → ℕ
  unfolding tally values
  count_values p d = tally p (values d)

  -- A change of the value under one key changes the count by that value alone.
  pub count_values-modify :
      (p : V → Bool) (k : String) (f : V → V) (v : V) (d : Dict V)
      → get k d ≡ some v
      → count_values p (modify k f d) + unit (p v) ≡ count_values p d + unit (p (f v))
  unfolding count_values get modify
  count_values-modify p k f v [] h = ground arith
  count_values-modify p k f v ((i, w) ∷ d) h = ground (arith, count_values-modify p k f v d)

  pub count_values-insert :
      (p : V → Bool) (k : String) (v : V) (d : Dict V)
      → get k d ≡ none
      → count_values p (insert k v d) ≡ count_values p d + unit (p v)
  unfolding count_values get insert
  count_values-insert p k v [] h = ground arith
  count_values-insert p k v ((i, w) ∷ d) h = ground (arith, count_values-insert p k v d)
