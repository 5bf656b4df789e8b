-- ===== src/Runtime/Models/Slug/Alphabet.antt =====
-- What an identifier of `slug_id` is made of, and how long it is.
use Prim.Native.Char.{Char}
use skill_centric_agent_syst.Base.{
  ◌≤◌, String, ◌≡◌, refl, Bool, true, false, ◌||◌, arith, join, take, count, begins, dash_runs,
  squeeze, strip_by, is_dash, all_of, all_of-join, all_of-take, all_of-strip_by, all_of-squeeze,
  all_of-dash_runs, count-take, count-strip_by, Bool-cases, inl, inr,
}
use skill_centric_agent_syst.Runtime.Models.Slug.{is_letter, is_plain, lead, with_prefix, slug_id}

-- `[a-z0-9-]`
abbrev pub is_slug_char : Char → Bool
is_slug_char c = is_plain c || is_dash c

letter_plain : (c : Char) → is_plain c ≡ true → is_slug_char c ≡ true
letter_plain c h = ground arith

all_of-lead : (s : String) → all_of is_slug_char s ≡ true → all_of is_slug_char (lead s) ≡ true
unfolding lead all_of
all_of-lead String.[] h = refl
all_of-lead (String.◌∷◌ c s) h = elim (Bool-cases (is_letter c)) [
  | inl letter ↦ rw letter h
  | inr other ↦ rw other h
]

all_of-with_prefix :
    (prefix s : String)
    → all_of is_slug_char prefix ≡ true
    → all_of is_slug_char s ≡ true
    → all_of is_slug_char (with_prefix prefix s) ≡ true
unfolding with_prefix
all_of-with_prefix String.[] s p h = h
all_of-with_prefix (String.◌∷◌ c q) s p h =
    elim (Bool-cases (begins (join (String.◌∷◌ c q) "-") s)) [
      | inl there ↦ rw there h
      | inr fresh ↦ rw fresh (rw (all_of-join, all_of-join, p, h) (unfold all_of in refl))
    ]

-- An identifier has only the characters a to z, 0 to 9 and the dash where its prefix does, and so
-- neither a slash nor a dot; and it has at most 96 of them, whatever the text and the prefix are.
pub slug_id-safe :
    (casefold : String → String) (prefix value : String)
    → all_of is_slug_char prefix ≡ true
    → (all_of is_slug_char (slug_id casefold prefix value) ≡ true)
      × (count (slug_id casefold prefix value) ≤ 96)
unfolding slug_id
slug_id-safe casefold prefix value h =
    let runs = dash_runs is_plain false (casefold value) in
    let slug = with_prefix prefix (lead (squeeze false (strip_by is_dash runs))) in
    let chars : all_of is_slug_char slug ≡ true = all_of-with_prefix prefix _ h (
      all_of-lead _ (
        all_of-squeeze is_slug_char false _ (
          all_of-strip_by is_slug_char is_dash runs
            (all_of-dash_runs is_plain is_slug_char false (casefold value) letter_plain refl)))) in
    (
      all_of-strip_by is_slug_char is_dash (take 96 slug) (all_of-take is_slug_char 96 slug chars),
      omega (arith, count-strip_by is_dash (take 96 slug), count-take 96 slug),
    )
