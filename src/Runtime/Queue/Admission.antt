-- ===== src/Runtime/Queue/Admission.antt =====
-- What `enqueue` lets into the queue.
use Prim.Native.Char.{Char}
use skill_centric_agent_syst.Base.{
  ℕ, ◌+◌, ◌≤◌, ◌≡◌, refl, sym, ap, subst, Bool, true, false, not, Option, none, some, ◌==◌, leb,
  member, get, arith, Fields, find, Json, null, ◌⊎◌, inl, inr, Bool-cases,
}
use skill_centric_agent_syst.Base.Outcome.{Outcome, ok, err, check, check_ok}
use skill_centric_agent_syst.Base.Exec
use skill_centric_agent_syst.Base.Exec.{Exec, bind_inv, lift_inv}
use skill_centric_agent_syst.Runtime.Store.{Store}
use skill_centric_agent_syst.Runtime.Store.Records.{QueueItem}
use skill_centric_agent_syst.Runtime.Queue.{Error}
use skill_centric_agent_syst.Runtime.Enforcement.Profile.{Containers, Failure}
use skill_centric_agent_syst.Runtime.FlightRecorder.Desk.{Desk, Recorder}
use skill_centric_agent_syst.Composition.TaskAnalyzer.{analyze}
use skill_centric_agent_syst.Composition.TaskAnalyzer.Types.{AnalyzedTask}
use skill_centric_agent_syst.Runtime.Queue.Enqueue.{
  Options, analysis_or_error, tenant_queued_count, has_room, check_startable, check_task, is_null,
  enqueue,
}
use skill_centric_agent_syst.Runtime.TenantStatus.Authority.{MayStart, startable-MayStart}
use skill_centric_agent_syst.Runtime.Queue.Insertion.{queued_le, Inserted, store_task-Inserted}

-- The number is within the limit, where there is one.
abbrev pub is_within : Option ℕ → ℕ → Bool
is_within none n = true
is_within (some limit) n = leb n limit

one_more : (o : Option ℕ) (n m : ℕ) → has_room o n ≡ true → m ≤ n + 1 → is_within o m ≡ true
one_more none n m h le = refl
one_more (some limit) n m h le = ground arith

module _ (r : Recorder) (py : Containers) (is_word : Char → Bool) where
  -- No response came with the task, or one that has no authority of a tenant, or its authority lets
  -- the task start.
  pub StartAllowed : Fields → Option Fields → Type 0
  StartAllowed task given =
      (given ≡ none)
      ⊎ ((response : Fields) × (given ≡ some response)
          × ((find "tenant_authority" response ≡ null) ⊎ MayStart r.builtins task response))

  null_inv : (v : Json) → is_null v ≡ true → v ≡ null
  null_inv null h = refl
  null_inv _ h = cc

  startable-StartAllowed :
      (task : Fields) (given : Option Fields)
      → check_startable r py is_word task given ≡ ok tt
      → StartAllowed task given
  unfolding StartAllowed
  startable-StartAllowed task none h = inl refl
  startable-StartAllowed task (some response) h =
      elim (Bool-cases (is_null (find "tenant_authority" response))) [
        | inl nothing ↦ inr (response, refl, inl (null_inv _ nothing))
        | inr authority ↦
            inr (
              response,
              refl,
              inr (startable-MayStart r.builtins task response (rw authority at h)),
            )
      ]

  -- A task that was let in: its analysis, the checks that it passed, and the item that was inserted.
  pub record Admitted (task : Fields) (o : Options) (s : Store) (item : QueueItem) (t : Store)
      : Type 0 where
    pub analysis : AnalyzedTask
    pub analyzed : analyze py r.artifacts.casefold is_word task ≡ ok analysis
    pub own_tenant : (analysis.auth_claims.tenant_id == "global") ≡ false
    pub enabled : member analysis.auth_claims.tenant_id o.disabled_tenant_ids ≡ false
    pub startable : StartAllowed task o.composition_context_response
    pub inserted : Inserted r py is_word analysis o s item t
    pub within_limit :
        is_within
          (get analysis.auth_claims.tenant_id o.tenant_queued_limits)
          (tenant_queued_count analysis.auth_claims.tenant_id t)
        ≡ true

  denied_test : (b : Bool) → not b ≡ true → b ≡ false
  denied_test b h = ground arith

  -- The checks that a task passed.
  checked :
      (task : Fields) (o : Options) (a : AnalyzedTask) (d x : Desk)
      → check_task r py is_word task o a d ≡ (ok tt, x)
      → (x ≡ d)
        × ((a.auth_claims.tenant_id == "global") ≡ false)
        × (member a.auth_claims.tenant_id o.disabled_tenant_ids ≡ false)
        × (check_startable r py is_word task o.composition_context_response ≡ ok tt)
        × (has_room
              (get a.auth_claims.tenant_id o.tenant_queued_limits)
              (tenant_queued_count a.auth_claims.tenant_id d.store)
            ≡ true)
  unfolding check_task Exec.◌>>=◌
  checked task o a d x h =
      let (_, own, h1) =
        lift_inv (check (not (a.auth_claims.tenant_id == "global")) _) _ d x tt h in
      let (_, enabled, h2) =
        lift_inv (check (not (member a.auth_claims.tenant_id o.disabled_tenant_ids)) _) _ d x tt
          h1 in
      let (_, startable, h3) =
        lift_inv (check_startable r py is_word task o.composition_context_response) _ d x tt h2 in
      (
        ap (λ (p : Outcome Error (Unit {0}) × Desk). p.1) (sym h3),
        denied_test _ (check_ok _ _ own),
        denied_test _ (check_ok _ _ enabled),
        startable,
        check_ok _ _ (ap (λ (p : Outcome Error (Unit {0}) × Desk). p.0) h3),
      )

  analysis_inv :
      (m : Outcome Failure AnalyzedTask) (a : AnalyzedTask) → analysis_or_error m ≡ ok a → m ≡ ok a
  analysis_inv (ok b) a h = cc
  analysis_inv (err f) a h = cc

  admitted :
      (task : Fields) (o : Options) (a : AnalyzedTask) (d x t : Desk) (item : QueueItem)
      → analysis_or_error (analyze py r.artifacts.casefold is_word task) ≡ ok a
      → (x ≡ d)
        × ((a.auth_claims.tenant_id == "global") ≡ false)
        × (member a.auth_claims.tenant_id o.disabled_tenant_ids ≡ false)
        × (check_startable r py is_word task o.composition_context_response ≡ ok tt)
        × (has_room
              (get a.auth_claims.tenant_id o.tenant_queued_limits)
              (tenant_queued_count a.auth_claims.tenant_id d.store)
            ≡ true)
      → Inserted r py is_word a o d.store item t.store
      → Admitted task o d.store item t.store
  admitted task o a d x t item analyzed (same, own, enabled, startable, room) put =
      let tenant = a.auth_claims.tenant_id in
      let grown : tenant_queued_count tenant t.store ≤ tenant_queued_count tenant d.store + 1 =
        subst (λ s. tenant_queued_count tenant s ≤ tenant_queued_count tenant d.store + 1)
          (sym (ap (λ (p : QueueItem × Store). p.1) put.returned))
          (queued_le tenant put.new d.store) in
      record {
        analysis = a;
        analyzed = analysis_inv _ a analyzed;
        own_tenant = own;
        enabled = enabled;
        startable = startable-StartAllowed task o.composition_context_response startable;
        inserted = put;
        within_limit =
            one_more (get tenant o.tenant_queued_limits) (tenant_queued_count tenant d.store) _ room
              grown;
      }

  -- Where `enqueue` returns, the analyzed task is of a tenant that is neither the global one nor
  -- disabled; where a response came with the task and its tenant authority is not null, the task
  -- states no tenant or the global one, or that authority is of its own tenant and area and is set up or
  -- active, or it is no object and the composition was denied; the item is the one that the insertion
  -- of a waiting item of that tenant under the key returns, and the store is the one that it leaves; and
  -- the tenant's waiting items are within its limit.
  pub enqueue-Admitted :
      (task : Fields) (o : Options) (d t : Desk) (item : QueueItem)
      → enqueue r py is_word task o d ≡ (ok item, t)
      → Admitted task o d.store item t.store
  unfolding enqueue Exec.◌>>=◌
  enqueue-Admitted task o d t item h =
      let (a, analyzed, h1) =
        lift_inv (analysis_or_error (analyze py r.artifacts.casefold is_word task)) _ d t item h in
      let (_, (x, passed, h2)) = bind_inv (check_task r py is_word task o a) _ d t item h1 in
      let (same, own, enabled, startable, room) = checked task o a d x passed in
      let put =
        subst (λ (z : Desk). Inserted r py is_word a o z.store item t.store) same
          (store_task-Inserted r py is_word task o a x t item h2) in
      admitted task o a d x t item analyzed (same, own, enabled, startable, room) put
