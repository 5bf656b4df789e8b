-- ===== src/Composition/TaskAnalyzer/Claims.antt =====
-- composition/task_analyzer.py: `_auth_claims`, the claims that a task states of its principal.
use skill_centric_agent_syst.Base.{
  String, Option, none, some, List, [], ◌∷◌, if◌then◌else◌, member, join, is_blank, Json, Fields,
  find, as_mapping, as_text, texts, to_str, truthy,
}
use skill_centric_agent_syst.Base.Outcome.{Outcome, ok, err, ◌>>=◌}
use skill_centric_agent_syst.Runtime.Enforcement.Profile.{
  Failure, index_error, Containers, find_or, iterate,
}
use skill_centric_agent_syst.Composition.TaskAnalyzer.Types.{
  AuthClaims, dedupe, is_empty_text, slugify,
}

abbrev pub default_role : String
default_role = "repository-maintainer"

abbrev pub submitter : String → String
submitter task_type = join "submitter-can-request-" task_type

-- The claims of a task that states none.
unfoldable pub default_claims : String → AuthClaims
unfolding join
default_claims task_type = record {
  principal_id = "user-local";
  principal_type = "user";
  roles = default_role ∷ [];
  authorization_policies = submitter task_type ∷ [];
  control_plane_principal_kind = "role";
  control_plane_principal_id = default_role;
  display_name = none;
  tenant_id = "global";
  area_id = "global";
  tenant_hostname = none;
  membership_id = none;
  role_data_sources = [];
  role_capabilities = [];
}

-- `xs[0]`
unfoldable pub first_of : List String → Outcome Failure String
first_of [] = err index_error
first_of (x ∷ xs) = ok x

-- `xs or (d,)`
abbrev pub or_one : String → List String → List String
or_one d [] = d ∷ []
or_one d (x ∷ xs) = x ∷ xs

abbrev pub among : String → List String → String → String
among value allowed fallback = if member value allowed then value else fallback

-- The text of a value that is a text and not blank.
abbrev unless_blank : Option String → Option String
unless_blank none = none
unless_blank (some s) = if is_blank s then none else some s

abbrev unless_empty : Option String → Option String
unless_empty none = none
unless_empty (some s) = if is_empty_text s then none else some s

abbrev slug_of : (String → String) → Option String → Option String
slug_of casefold none = none
slug_of casefold (some s) = some (slugify casefold s)

module _ (py : Containers) (casefold : String → String) where
  -- `str(auth.get(k) or fallback)`
  abbrev pub text_or_else : String → Fields → String → String
  text_or_else k auth fallback =
      if truthy py.builtins (find k auth) then to_str py.builtins (find k auth) else fallback

  -- `str(auth.get("control_plane_principal_id") or roles[0] or …)`
  unfoldable pub principal_text : Fields → List String → Outcome Failure String
  unfolding first_of truthy to_str
  principal_text auth roles = do
    let v = find "control_plane_principal_id" auth
    if truthy py.builtins v then ok (to_str py.builtins v) else first_of roles

  -- `_dedupe(str(x) for x in auth.get(k, fallback))`
  unfoldable pub texts_of : String → Json → Fields → Outcome Failure (List String)
  unfolding iterate dedupe
  texts_of k fallback auth = iterate py (find_or k fallback auth) >>= λ xs. ok (dedupe xs)

  unfoldable pub claims_of : Fields → String → Outcome Failure AuthClaims
  unfolding principal_text texts_of slugify
  claims_of auth task_type = do
    roles ← texts_of "roles" (texts (default_role ∷ [])) auth
    principal ← principal_text auth roles
    policies ← texts_of "authorization_policies" (texts (submitter task_type ∷ [])) auth
    let tenant_id = slugify casefold (text_or_else "tenant_id" auth "global")
    sources ← texts_of "role_data_sources" (texts []) auth
    capabilities ← texts_of "role_capabilities" (texts []) auth
    ok (record {
      principal_id = text_or_else "principal_id" auth "user-local";
      principal_type =
          among (text_or_else "principal_type" auth "user") ("user" ∷ "service" ∷ "system" ∷ [])
            "user";
      roles = or_one default_role roles;
      authorization_policies = or_one (submitter task_type) policies;
      control_plane_principal_kind =
          among (text_or_else "control_plane_principal_kind" auth "role")
            ("role" ∷ "user" ∷ "service" ∷ []) "role";
      control_plane_principal_id = slugify casefold principal;
      display_name = unless_empty (as_text (find "display_name" auth));
      tenant_id = tenant_id;
      area_id = slugify casefold (text_or_else "area_id" auth tenant_id);
      tenant_hostname = unless_blank (as_text (find "tenant_hostname" auth));
      membership_id = slug_of casefold (unless_blank (as_text (find "membership_id" auth)));
      role_data_sources = sources;
      role_capabilities = capabilities;
    })

  abbrev pub stated : Option Fields → Option Fields
  stated none = none
  stated (some context) = as_mapping (find "auth" context)

  abbrev pub claims_or_default : String → Option Fields → Outcome Failure AuthClaims
  claims_or_default task_type none = ok (default_claims task_type)
  claims_or_default task_type (some auth) = claims_of auth task_type

  -- `_auth_claims`
  unfoldable pub auth_claims_of : Fields → String → Outcome Failure AuthClaims
  unfolding claims_of default_claims
  auth_claims_of task task_type =
      claims_or_default task_type (stated (as_mapping (find "context" task)))
