-- ===== src/Composition/ProfileComposer/References.antt =====
-- composition/profile_composer.py: what the composer reads from a response of the control plane,
-- and the roles of the skills it selects.
use skill_centric_agent_syst.Base.{
  String, Bool, not, ◌&&◌, Option, none, some, List, [], ◌∷◌, if◌then◌else◌, ◌==◌, keep, member,
  join, Dict, get, insert, str, Fields, find, as_mapping, as_text, Builtins, to_str, same,
}
use skill_centric_agent_syst.Base.Outcome.{Outcome, ok, check, ◌>>=◌, ◌>>◌}
use skill_centric_agent_syst.Runtime.Enforcement.Profile.{find_or, empty_list, empty_object}
use skill_centric_agent_syst.Composition.TenantAccess.{mappings}

-- `CompositionError(message)`, and what `d[k]`, `join` and the hash of a list or dict raise.
pub data CompositionError : Type 0 where
  rejected : String → CompositionError
  key_error : String → CompositionError
  type_error : CompositionError

-- `SKILL_RUNTIME_ROLES`
abbrev pub skill_runtime_roles : List String
skill_runtime_roles = "runtime" ∷ "non-runtime" ∷ "shared" ∷ []

-- `_references`
unfoldable pub references : Fields → String → List Fields
references context_response name = mappings (find_or name empty_list context_response)

abbrev reachable : Option Fields → List Fields
reachable none = []
reachable (some graph) = mappings (find_or "reachable_modules" empty_list graph)

-- `_graph_references`
unfoldable pub graph_references : Fields → List Fields
graph_references context_response =
    reachable (as_mapping (find_or "graph_validation" empty_object context_response))

-- `_policy_decisions`
unfoldable pub policy_decisions : Fields → List Fields
policy_decisions context_response =
    mappings (find_or "policy_decisions" empty_list context_response)

-- `if isinstance(name, str): names.append(name)`
abbrev pub prepend : Option String → List String → List String
prepend none rest = rest
prepend (some name) rest = name ∷ rest

-- `_names` without a kind
unfoldable pub names : List Fields → List String
names [] = []
names (r ∷ rs) = prepend (as_text (find "name" r)) (names rs)

-- `_versions_by_name`: a later version of a name replaces an earlier one.
unfoldable pub versions_from : List Fields → Dict String → Dict String
versions_from [] d = d
versions_from (r ∷ rs) d = versions_from rs (elim (as_text (find "name" r)) [
  | none ↦ d
  | some name ↦ elim (as_text (find "version" r)) [ none ↦ d | some v ↦ insert name v d ]
])

-- The loop of `_dedupe`, with the texts seen so far.
unfoldable pub unseen_from : List String → List String → List String
unfolding member
unseen_from seen [] = []
unseen_from seen (v ∷ vs) =
    let skip = unseen_from seen vs in
    let fresh = v ∷ unseen_from (v ∷ seen) vs in if member v seen then skip else fresh

-- `_dedupe`
unfoldable pub unique : List String → List String
unfolding unseen_from
unique values = unseen_from [] values

-- The role of a skill that the candidates give, `runtime` where they give none.
abbrev pub role_or_runtime : Option String → String
role_or_runtime none = "runtime"
role_or_runtime (some role) = role

pub record SkillRoles : Type 0 where
  pub runtime_skills : List String
  pub non_runtime_skills : List String
  pub shared_skills : List String

abbrev role_of : Dict String → String → String
role_of roles skill = role_or_runtime (get skill roles)

-- The branches of the loop over the selected skills.
abbrev is_non_runtime : String → Bool
is_non_runtime role = not (role == "runtime") && (role == "non-runtime")

abbrev is_shared : String → Bool
is_shared role = not (role == "runtime") && not (role == "non-runtime")

unfoldable pub split_roles : Dict String → List String → SkillRoles
unfolding keep
split_roles roles skills = record {
  runtime_skills = keep (λ s. role_of roles s == "runtime") skills;
  non_runtime_skills = keep (λ s. is_non_runtime (role_of roles s)) skills;
  shared_skills = keep (λ s. is_shared (role_of roles s)) skills;
}

module _ (py : Builtins) where
  -- `reference.get("kind") == kind`
  abbrev pub is_kind : String → Fields → Bool
  is_kind kind r = same py (find "kind" r) (str kind)

  -- `_names` of a kind
  unfoldable pub names_of : String → List Fields → List String
  unfolding keep
  names_of kind rs = names (keep (is_kind kind) rs)

  abbrev invalid_role : String → String → CompositionError
  invalid_role name role = rejected (
      join "Invalid runtime_role for skill module "
        (join name (join ": " (join role ". Expected one of: non-runtime, runtime, shared."))))

  -- One candidate of the first loop of `_skill_execution_roles`.
  unfoldable pub read_role : Fields → Dict String → Outcome CompositionError (Dict String)
  read_role m d =
      let role = to_str py (find_or "runtime_role" (str "runtime") m) in
      if is_kind "skill" m
      then elim (as_text (find "name" m)) [
        | none ↦ ok d
        | some name ↦
            check (member role skill_runtime_roles) (invalid_role name role)
            >> ok (insert name role d)
      ]
      else ok d

  unfoldable pub roles_from : List Fields → Dict String → Outcome CompositionError (Dict String)
  unfolding read_role
  roles_from [] d = ok d
  roles_from (m ∷ ms) d = read_role m d >>= λ next. roles_from ms next

  -- `_skill_execution_roles`
  unfoldable pub skill_execution_roles :
      List Fields → List String → Outcome CompositionError SkillRoles
  unfolding roles_from split_roles
  skill_execution_roles candidate_modules selected_skills = do
    roles ← roles_from candidate_modules []
    ok (split_roles roles selected_skills)
