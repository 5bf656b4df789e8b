-- ===== src/Composition/TaskAnalyzer/Identity.antt =====
-- The identifiers that an analysis gives: they are of the grammar that the code asks of one.
use skill_centric_agent_syst.Base.{
  ◌≤◌, String, ◌≡◌, refl, true, false, Option, none, some, List, [], ◌∷◌, arith, if◌then◌else◌,
  join, take, count, dash_runs, all_of, all_of-join, all_of-take, all_of-strip_by, all_of-squeeze,
  all_of-dash_runs, count-take, count-strip_by, Bool-cases, inl, inr, Fields, as_text, find, ap,
  subst, sym, member, ◌∙◌, as_mapping,
}
use skill_centric_agent_syst.Base.Outcome.{Outcome, ok, err, bind_inv}
use skill_centric_agent_syst.Runtime.Enforcement.Profile.{Failure, Containers}
use skill_centric_agent_syst.Composition.TaskAnalyzer.Types.{
  AuthClaims, is_lower, is_id_char, is_mark, is_id, cut_slug, slugify,
}
use skill_centric_agent_syst.Composition.TaskAnalyzer.Intake.{task_id_of}
use skill_centric_agent_syst.Composition.TaskAnalyzer.Claims.{
  default_claims, claims_of, auth_claims_of, claims_or_default, stated, among, text_or_else,
  texts_of, principal_text,
}

all_of-cut_slug :
    (s : String)
    → all_of is_id_char s ≡ true
    → (all_of is_id_char (cut_slug s) ≡ true) × (count (cut_slug s) ≤ 80)
unfolding cut_slug
all_of-cut_slug String.[] h = (unfold all_of in refl, unfold count in omega arith)
all_of-cut_slug (String.◌∷◌ c s) h =
    let slug = if is_lower c then String.◌∷◌ c s else join "id-" (String.◌∷◌ c s) in
    let chars : all_of is_id_char slug ≡ true = elim (Bool-cases (is_lower c)) [
      | inl letter ↦ rw letter h
      | inr other ↦ rw other (rw (all_of-join, h) (unfold all_of in refl))
    ] in
    (
      all_of-strip_by is_id_char is_mark (take 80 slug) (all_of-take is_id_char 80 slug chars),
      omega (arith, count-strip_by is_mark (take 80 slug), count-take 80 slug),
    )

-- A slug has only the characters of an identifier, and at most 80 of them.
pub slugify-safe :
    (casefold : String → String) (value : String)
    → (all_of is_id_char (slugify casefold value) ≡ true) × (count (slugify casefold value) ≤ 80)
unfolding slugify
slugify-safe casefold value = all_of-cut_slug _ (
    all_of-squeeze is_id_char false _ (
      all_of-strip_by is_id_char is_mark (dash_runs is_id_char false (casefold value))
        (all_of-dash_runs is_id_char is_id_char false (casefold value) (λ c h. h) refl)))

task_slug_id :
    (casefold : String → String) (objective : String)
    → is_id (join "task-" (slugify casefold objective)) ≡ true
unfolding is_id join
task_slug_id casefold objective = unfold all_of in (slugify-safe casefold objective).0

pub task_id_of-is_id :
    (casefold : String → String) (task : Fields) (objective : String)
    → is_id (task_id_of casefold task objective) ≡ true
unfolding task_id_of
task_id_of-is_id casefold task objective = go (as_text (find "id" task)) refl
  where
    go :
        (o : Option String)
        → as_text (find "id" task) ≡ o
        → is_id (task_id_of casefold task objective) ≡ true
    go none e = rw e (task_slug_id casefold objective)
    go (some value) e = elim (Bool-cases (is_id value)) [
      | inl good ↦ rw (e, good) good
      | inr bad ↦ rw (e, bad) (task_slug_id casefold objective)
    ]

-- A text of the characters of an identifier, not longer than a slug.
abbrev pub SlugLike : String → Type 0
SlugLike s = (all_of is_id_char s ≡ true) × (count s ≤ 80)

abbrev pub principal_types : List String
principal_types = "user" ∷ "service" ∷ "system" ∷ []

abbrev pub principal_kinds : List String
principal_kinds = "role" ∷ "user" ∷ "service" ∷ []

-- Claims whose tenant, area and principal of the control plane are like a slug, and whose principal
-- is of a known type and kind.
abbrev pub IsCanonical : AuthClaims → Type 0
IsCanonical c =
    SlugLike c.tenant_id
    × (SlugLike c.area_id
        × (SlugLike c.control_plane_principal_id
            × ((member c.principal_type principal_types ≡ true)
                × (member c.control_plane_principal_kind principal_kinds ≡ true))))

among-member :
    (v : String) (allowed : List String) (fallback : String)
    → member fallback allowed ≡ true
    → member (among v allowed fallback) allowed ≡ true
among-member v allowed fallback h = elim (Bool-cases (member v allowed)) [
  | inl there ↦ rw there there
  | inr missing ↦ rw missing h
]

or_claims : AuthClaims → Outcome Failure AuthClaims → AuthClaims
or_claims a (ok b) = b
or_claims a (err e) = a

pub claims_inj : (a b : AuthClaims) (r : Outcome Failure AuthClaims) → r ≡ ok a → r ≡ ok b → a ≡ b
unfolding or_claims
claims_inj a b r e f = sym (ap (or_claims a) e) ∙ ap (or_claims a) f

default_claims-IsCanonical : (task_type : String) → IsCanonical (default_claims task_type)
unfolding default_claims all_of count member
default_claims-IsCanonical task_type =
    ((refl, omega arith), ((refl, omega arith), ((refl, omega arith), (refl, refl))))

module _ (py : Containers) (casefold : String → String) where
  claims_of-IsCanonical :
      (auth : Fields) (task_type : String) (c : AuthClaims)
      → claims_of py casefold auth task_type ≡ ok c
      → IsCanonical c
  unfolding claims_of
  claims_of-IsCanonical auth task_type c done =
      let (roles, _, after_roles) = bind_inv (texts_of py casefold "roles" _ auth) _ c done in
      let (principal, _, after_principal) =
        bind_inv (principal_text py casefold auth roles) _ c after_roles in
      let (policies, _, after_policies) =
        bind_inv (texts_of py casefold "authorization_policies" _ auth) _ c after_principal in
      let (sources, _, after_sources) =
        bind_inv (texts_of py casefold "role_data_sources" _ auth) _ c after_policies in
      let (capabilities, _, made) =
        bind_inv (texts_of py casefold "role_capabilities" _ auth) _ c after_sources in
      subst IsCanonical (claims_inj _ c _ refl made) (
        slugify-safe casefold _,
        (
          slugify-safe casefold _,
          (
            slugify-safe casefold _,
            (
              among-member (text_or_else py casefold "principal_type" auth "user") principal_types
                  "user" (unfold member in refl),
              among-member (text_or_else py casefold "control_plane_principal_kind" auth "role")
                  principal_kinds "role" (unfold member in refl),
            ),
          ),
        ),
      )

  pub auth_claims_of-IsCanonical :
      (task : Fields) (task_type : String) (c : AuthClaims)
      → auth_claims_of py casefold task task_type ≡ ok c
      → IsCanonical c
  unfolding auth_claims_of
  auth_claims_of-IsCanonical task task_type c =
      go (stated py casefold (as_mapping (find "context" task)))
    where
      go : (o : Option Fields) → claims_or_default py casefold task_type o ≡ ok c → IsCanonical c
      go none h = subst IsCanonical (claims_inj _ c _ refl h) (default_claims-IsCanonical task_type)
      go (some auth) h = claims_of-IsCanonical auth task_type c h
