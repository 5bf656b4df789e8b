-- ===== src/Runtime/TenantStatus.antt =====
-- runtime/tenant_status.py: whether a tenant's authority lets a task start.
pub mod Authority
use skill_centric_agent_syst.Base.{
  String, Bool, true, false, Option, none, some, List, [], ◌∷◌, if◌then◌else◌, ◌==◌, member, Json,
  null, str, arr, obj, Fields, find, as_mapping, as_text, Builtins, same,
}
use skill_centric_agent_syst.Base.Outcome.{Outcome, ok, err, check, ◌>>=◌, ◌>>◌}
use skill_centric_agent_syst.Runtime.Queue.{Error}
use skill_centric_agent_syst.Runtime.Enforcement.Profile.{find_or, empty_object}

-- `RuntimeTenantStatusError`
abbrev pub status_error : String → Error
status_error m = record { class_name = "RuntimeTenantStatusError"; message = m; stop_reason = none }

-- What a set raises of a list or a dict.
abbrev pub unhashable : Error
unhashable = record { class_name = "TypeError"; message = "unhashable type"; stop_reason = none }

-- `v in {None, "global"}`
abbrev pub is_global : Json → Outcome Error Bool
is_global null = ok true
is_global (str s) = ok (s == "global")
is_global (arr vs) = err unhashable
is_global (obj fs) = err unhashable
is_global v = ok false

-- `v in ALLOWED_TENANT_STATUSES`
abbrev pub is_allowed : Json → Outcome Error Bool
is_allowed (str s) = ok (member s ("setup" ∷ "active" ∷ []))
is_allowed (arr vs) = err unhashable
is_allowed (obj fs) = err unhashable
is_allowed v = ok false

-- `m.get(k, {}) if isinstance(m, Mapping) else {}`
abbrev inner : String → Option Fields → Json
inner k none = empty_object
inner k (some fs) = find_or k empty_object fs

-- `m.get(k) if isinstance(m, Mapping) else None`
abbrev entry : String → Option Fields → Json
entry k none = null
entry k (some fs) = find k fs

-- The claims that a task states.
abbrev pub auth_of : Fields → Option Fields
auth_of task = as_mapping (inner "auth" (as_mapping (find_or "context" empty_object task)))

abbrev pub stated_of : String → Fields → Json
stated_of k task = entry k (auth_of task)

module _ (py : Builtins) where
  unfoldable pub check_authority : Fields → Fields → Outcome Error (Unit {0})
  unfolding same
  check_authority task authority = do
    check (same py (find "tenant_id" authority) (stated_of "tenant_id" task))
        (status_error "Tenant authority does not match the runtime task tenant.")
    check (same py (find "area_id" authority) (stated_of "area_id" task))
        (status_error "Tenant authority does not match the runtime task area.")
    allowed ← is_allowed (find "status" authority)
    check allowed (status_error "Tenant is not active for runtime execution.")

  abbrev without_authority : Fields → Outcome Error (Unit {0})
  without_authority response =
      check (same py (find "composition_status" response) (str "denied"))
        (status_error "Tenant authority is required for runtime execution.")

  abbrev pub check_given : Fields → Fields → Option Fields → Outcome Error (Unit {0})
  check_given task response none = without_authority response
  check_given task response (some authority) = check_authority task authority

  -- `assert_runtime_tenant_is_startable`
  unfoldable pub assert_runtime_tenant_is_startable : Fields → Fields → Outcome Error (Unit {0})
  unfolding check_authority
  assert_runtime_tenant_is_startable task response = do
    global ← is_global (stated_of "tenant_id" task)
    if global
        then ok tt
        else check_given task response (as_mapping (find "tenant_authority" response))
