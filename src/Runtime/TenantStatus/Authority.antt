-- ===== src/Runtime/TenantStatus/Authority.antt =====
-- Which tasks the authority of a tenant lets start, and one that it does not.
use skill_centric_agent_syst.Base.{
  String, ◌≡◌, refl, ◌⊎◌, inl, inr, true, false, Option, none, some, null, str, Fields, find,
  as_mapping, Builtins, same, Bool-cases,
}
use skill_centric_agent_syst.Base.Outcome.{ok, err, check_inv, check_ok, bind_inv}
use skill_centric_agent_syst.Runtime.Queue.{Error}
use skill_centric_agent_syst.Runtime.TenantStatus.{
  status_error, is_global, is_allowed, stated_of, check_authority, check_given,
  assert_runtime_tenant_is_startable,
}

module _ (py : Builtins) where
  -- The authority is of the tenant and the area that the task states, and the tenant is set up or active.
  pub IsOwn : Fields → Fields → Type 0
  IsOwn task authority =
      (same py (find "tenant_id" authority) (stated_of "tenant_id" task) ≡ true)
      × (same py (find "area_id" authority) (stated_of "area_id" task) ≡ true)
      × (is_allowed (find "status" authority) ≡ ok true)

  -- Why a task may start.
  pub MayStart : Fields → Fields → Type 0
  MayStart task response =
      (is_global (stated_of "tenant_id" task) ≡ ok true)
      ⊎ (((as_mapping (find "tenant_authority" response) ≡ none)
            × (same py (find "composition_status" response) (str "denied") ≡ true))
          ⊎ ((authority : Fields) × (as_mapping (find "tenant_authority" response) ≡ some authority)
              × IsOwn task authority))

  check_authority-IsOwn :
      (task authority : Fields) → check_authority py task authority ≡ ok tt → IsOwn task authority
  unfolding check_authority IsOwn
  check_authority-IsOwn task authority h =
      let (tenant, h1) =
        check_inv (same py (find "tenant_id" authority) (stated_of "tenant_id" task)) _ _ tt h in
      let (area, h2) =
        check_inv (same py (find "area_id" authority) (stated_of "area_id" task)) _ _ tt h1 in
      let (b, allowed, h3) = bind_inv (is_allowed (find "status" authority)) _ tt h2 in
      (tenant, area, rw (check_ok b _ h3) at allowed)

  given-MayStart :
      (task response : Fields) (o : Option Fields)
      → as_mapping (find "tenant_authority" response) ≡ o
      → check_given py task response o ≡ ok tt
      → MayStart task response
  unfolding MayStart
  given-MayStart task response none e h = inr (inl (e, check_ok _ _ h))
  given-MayStart task response (some authority) e h =
      inr (inr (authority, e, check_authority-IsOwn task authority h))

  -- A task that may start states no tenant or the global one, or has an authority of its own tenant and
  -- area whose status is set up or active, or has none where the composition was denied.
  pub startable-MayStart :
      (task response : Fields)
      → assert_runtime_tenant_is_startable py task response ≡ ok tt
      → MayStart task response
  unfolding assert_runtime_tenant_is_startable MayStart
  startable-MayStart task response h =
      let (global, stated, h1) = bind_inv (is_global (stated_of "tenant_id" task)) _ tt h in
      elim (Bool-cases global) [
        | inl holds ↦ inl (rw holds at stated)
        | inr fails ↦ given-MayStart task response _ refl (rw fails at h1)
      ]

  -- A task that states a tenant but no area is refused, whatever area its authority names.
  pub unstated_area :
      (task response authority : Fields) (area : String)
      → is_global (stated_of "tenant_id" task) ≡ ok false
      → stated_of "area_id" task ≡ null
      → as_mapping (find "tenant_authority" response) ≡ some authority
      → find "area_id" authority ≡ str area
      → (e : Error) × (assert_runtime_tenant_is_startable py task response ≡ err e)
  unfolding assert_runtime_tenant_is_startable check_authority same
  unstated_area task response authority area g unstated given named =
      elim (Bool-cases (same py (find "tenant_id" authority) (stated_of "tenant_id" task))) [
        | inl own ↦ (
          status_error "Tenant authority does not match the runtime task area.",
          simp (g, unstated, given, named, own) refl,
        )
        | inr foreign ↦ (
          status_error "Tenant authority does not match the runtime task tenant.",
          simp (g, unstated, given, named, foreign) refl,
        )
      ]
