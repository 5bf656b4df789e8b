-- ===== src/Runtime/Artifacts/Secrecy.antt =====
-- What a reader of a redacted artifact can see, at every place of the payload.
use skill_centric_agent_syst.Base.{
  ℕ, zero, suc, String, ◌≡◌, refl, sym, ap, ◌∙◌, Bool, true, false, not, ◌&&◌, Option, none, some,
  List, [], ◌∷◌, ◌⊎◌, inl, inr, Bool-cases, arith, eq_iff, if◌then◌else◌, ◌==◌, Json, null, bool,
  int, float, str, arr, obj, Items, nil, cons, Fields, end, field,
}
use skill_centric_agent_syst.Runtime.Artifacts.Redaction.{
  Patterns, redacted, is_sensitive_key, redact_sensitive_data, redact_items, redact_fields,
}

-- A step into a JSON value: to the value of a key, or to an element.
pub data Hop : Type 0 where
  key : String → Hop
  index : ℕ → Hop

unfoldable pub value_of : String → Fields → Option Json
value_of k end = none
value_of k (field j v fs) = if k == j then some v else value_of k fs

unfoldable pub element : ℕ → Items → Option Json
element n nil = none
element zero (cons v vs) = some v
element (suc n) (cons v vs) = element n vs

-- The value that a step leads to.
unfoldable pub hop : Hop → Json → Option Json
unfolding value_of element
hop (key k) (obj fs) = value_of k fs
hop (index n) (arr vs) = element n vs
hop h v = none

-- The value at the end of a path.
unfoldable pub reach : List Hop → Json → Option Json
unfolding hop
reach [] v = some v
reach (h ∷ p) v = elim (hop h v) [ none ↦ none | some w ↦ reach p w ]

abbrev pub mapped : (Json → Json) → Option Json → Option Json
mapped f none = none
mapped f (some v) = some (f v)

module _ (patterns : Patterns) (casefold : String → String) where
  abbrev pub is_open : Hop → Bool
  is_open (key k) = not (is_sensitive_key patterns casefold k)
  is_open (index n) = true

  -- No key of the path is sensitive.
  unfoldable pub open_path : List Hop → Bool
  open_path [] = true
  open_path (h ∷ p) = is_open h && open_path p

  abbrev mask : Hop → Json → Json
  mask h v = if is_open h then redact_sensitive_data patterns casefold v else str redacted

  value_of-redact :
      (k : String) (fs : Fields)
      → value_of k (redact_fields patterns casefold fs) ≡ mapped (mask (key k)) (value_of k fs)
  unfolding value_of redact_fields
  value_of-redact k end = refl
  value_of-redact k (field j v fs) = elim (Bool-cases (k == j)) [
    | inl same ↦ rw same (elim (Bool-cases (is_sensitive_key patterns casefold j)) [
      | inl hidden ↦ rw ((eq_iff k j).0 same, hidden) refl
      | inr shown ↦ rw ((eq_iff k j).0 same, shown) refl
    ])
    | inr other ↦ rw other (value_of-redact k fs)
  ]

  element-redact :
      (n : ℕ) (vs : Items)
      → element n (redact_items patterns casefold vs)
        ≡ mapped (redact_sensitive_data patterns casefold) (element n vs)
  unfolding element redact_items
  element-redact n nil = refl
  element-redact zero (cons v vs) = refl
  element-redact (suc n) (cons v vs) = element-redact n vs

  hop-redact :
      (h : Hop) (v : Json)
      → hop h (redact_sensitive_data patterns casefold v) ≡ mapped (mask h) (hop h v)
  unfolding hop redact_sensitive_data
  hop-redact (key k) (obj fs) = value_of-redact k fs
  hop-redact (index n) (arr vs) = element-redact n vs
  hop-redact (key k) null = refl
  hop-redact (key k) (bool b) = refl
  hop-redact (key k) (int b) = refl
  hop-redact (key k) (float b) = refl
  hop-redact (key k) (str b) = refl
  hop-redact (key k) (arr b) = refl
  hop-redact (index k) null = refl
  hop-redact (index k) (bool b) = refl
  hop-redact (index k) (int b) = refl
  hop-redact (index k) (float b) = refl
  hop-redact (index k) (str b) = refl
  hop-redact (index k) (obj b) = refl

  masked :
      (h : Hop) (v : Json) → is_open h ≡ true → mask h v ≡ redact_sensitive_data patterns casefold v
  masked h v e = rw e refl

  masked_out : (h : Hop) (v : Json) → is_open h ≡ false → mask h v ≡ str redacted
  masked_out h v e = rw e refl

  abbrev follow : List Hop → Option Json → Option Json
  follow p o = elim o [ none ↦ none | some w ↦ reach p w ]

  -- What a redacted payload shows at a path that leads to `o` in the payload.
  abbrev pub Shows : List Hop → Option Json → Json → Type 0
  Shows p o w =
      (w ≡ str redacted)
      ⊎ ((open_path p ≡ true)
          × ((u : Json) × (o ≡ some u) × (w ≡ redact_sensitive_data patterns casefold u)))

  some_inj : (v w : Json) → some v ≡ some w → w ≡ v
  some_inj v w e = cc

  of_text : (p : List Hop) (w : Json) → reach p (str redacted) ≡ some w → w ≡ str redacted
  unfolding reach hop
  of_text [] w e = some_inj (str redacted) w e
  of_text (key k ∷ p) w e = cc
  of_text (index k ∷ p) w e = cc

  follow-Shows :
      (h : Hop) (p : List Hop) (o : Option Json) (w : Json)
      → ((v : Json)
          → reach p (redact_sensitive_data patterns casefold v) ≡ some w
          → Shows p (reach p v) w)
      → follow p (mapped (mask h) o) ≡ some w
      → Shows (h ∷ p) (follow p o) w
  unfolding open_path
  follow-Shows h p none w rest e = cc
  follow-Shows h p (some v) w rest e = elim (Bool-cases (is_open h)) [
    | inl free ↦ rw free (rest v (ap (reach p) (sym (masked h v free)) ∙ e))
    | inr hidden ↦ inl (of_text p w (ap (reach p) (sym (masked_out h v hidden)) ∙ e))
  ]

  -- At every path, a redacted payload shows the redaction mark, or, where no key of the path is
  -- sensitive, the redaction of what the payload has there.
  pub reach-Shows :
      (p : List Hop) (v w : Json)
      → reach p (redact_sensitive_data patterns casefold v) ≡ some w
      → Shows p (reach p v) w
  unfolding reach open_path
  reach-Shows [] v w e = inr (refl, (v, refl, some_inj _ w e))
  reach-Shows (h ∷ p) v w e =
      follow-Shows h p (hop h v) w (λ u. reach-Shows p u w)
        (ap (follow p) (sym (hop-redact h v)) ∙ e)

  follow_open :
      (h : Hop) (p : List Hop) (o : Option Json)
      → is_open h ≡ true
      → ((v : Json)
          → reach p (redact_sensitive_data patterns casefold v)
            ≡ mapped (redact_sensitive_data patterns casefold) (reach p v))
      → follow p (mapped (mask h) o) ≡ mapped (redact_sensitive_data patterns casefold) (follow p o)
  follow_open h p none free rest = refl
  follow_open h p (some v) free rest = ap (reach p) (masked h v free) ∙ rest v

  -- Where no key of a path is sensitive, a redacted payload has the redaction of what the payload has
  -- there, and nothing where the payload has nothing.
  pub reach_open :
      (p : List Hop) (v : Json)
      → open_path p ≡ true
      → reach p (redact_sensitive_data patterns casefold v)
        ≡ mapped (redact_sensitive_data patterns casefold) (reach p v)
  unfolding reach open_path
  reach_open [] v h = refl
  reach_open (s ∷ p) v h =
      ap (follow p) (hop-redact s v)
      ∙ follow_open s p (hop s v) (ground arith) (λ u. reach_open p u (ground arith))
