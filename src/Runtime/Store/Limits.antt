-- ===== src/Runtime/Store/Limits.antt =====
-- The running limits and the exclusion of workers, from what a claim does to the counts.
use skill_centric_agent_syst.Base.{
  ℕ, ◌+◌, ◌≤◌, String, ◌≡◌, ◌≢◌, refl, sym, ap, subst, ◌∙◌, true, false, Bool-cases, inl, inr, ◌&&◌,
  Option, some, arith, ◌==◌, get, unit, count_values-modify, get-modify, modify-IsKeyed, eq_iff,
  eq_refl,
}
use skill_centric_agent_syst.Runtime.Models.{QueueStatus, is_waiting, is_held}
use skill_centric_agent_syst.Runtime.Store.Records.{QueueItem}
use skill_centric_agent_syst.Runtime.Store.{Store, tenant_running_count, global_running_count}
use skill_centric_agent_syst.Runtime.Store.Claims.{
  ClaimRequest, ClaimBundle, is_candidate, below, tenant_has_room, claim_item, store_claim,
  claim_next_runtime_queue_attempt,
}
use skill_centric_agent_syst.Runtime.Store.Claiming.{ItemsKeyed, Stored, claim_next_sound}

candidate_waits :
    (r : ClaimRequest) (item : QueueItem)
    → is_candidate r item ≡ true
    → is_waiting item.status ≡ true
unfolding is_candidate
candidate_waits r item h = ground arith

-- What waits is not held.
waiting_free : (st : QueueStatus) → is_waiting st ≡ true → is_held st ≡ false
waiting_free QueueStatus.claiming h = cc
waiting_free QueueStatus.running h = cc
waiting_free _ h = refl

module _ (casefold : String → String) where
  claimed_global :
      (r : ClaimRequest) (s : Store) (item : QueueItem)
      → Stored s item
      → is_candidate r item ≡ true
      → global_running_count (store_claim casefold r item s) ≡ global_running_count s + 1
  unfolding global_running_count store_claim claim_item
  claimed_global r s item stored c =
      let free = waiting_free item.status (candidate_waits r item c) in
      let counted =
        count_values-modify (λ (i : QueueItem). is_held i.status) item.id (claim_item casefold r)
          item s.runtime_queue_items stored in
      ground (arith, free, counted)

  claimed_tenant :
      (r : ClaimRequest) (s : Store) (item : QueueItem) (tenant : String)
      → Stored s item
      → is_candidate r item ≡ true
      → tenant_running_count tenant (store_claim casefold r item s)
        ≡ tenant_running_count tenant s + unit (item.tenant_id == tenant)
  unfolding tenant_running_count store_claim claim_item
  claimed_tenant r s item tenant stored c =
      let free = waiting_free item.status (candidate_waits r item c) in
      let counted =
        count_values-modify (λ (i : QueueItem). i.tenant_id == tenant && is_held i.status) item.id
          (claim_item casefold r) item s.runtime_queue_items stored in
      ground (arith, free, counted)

  some_eq : {a b : QueueItem} → ◌≡◌ {A = Option QueueItem} (some a) (some b) → a ≡ b
  some_eq h = ground arith

  claimed_keyed :
      (r : ClaimRequest) (s t : Store) (item : QueueItem)
      → ItemsKeyed s
      → t ≡ store_claim casefold r item s
      → ItemsKeyed t
  unfolding store_claim claim_item
  claimed_keyed r s t item keyed e = subst ItemsKeyed (sym e) (
      modify-IsKeyed (λ (i : QueueItem). i.id) item.id (claim_item casefold r) s.runtime_queue_items
        (λ v. refl) keyed)

  -- The claimed item is stored as it was returned.
  pub claimed-Stored :
      (r : ClaimRequest) (s : Store) (item : QueueItem)
      → Stored s item
      → get item.id (store_claim casefold r item s).runtime_queue_items
        ≡ some (claim_item casefold r item)
  unfolding store_claim
  claimed-Stored r s item h =
      rw (
        get-modify item.id item.id (claim_item casefold r) s.runtime_queue_items,
        eq_refl item.id,
        h,
      )

  claimed_busy :
      (q r : ClaimRequest) (item : QueueItem)
      → ¬ (is_candidate q (claim_item casefold r item) ≡ true)
  unfolding is_candidate claim_item
  claimed_busy q r item h = cc

  -- The limits of a request, as bounds on the counts of a store.
  pub record WithinLimits (r : ClaimRequest) (s : Store) : Type 0 where
    pub all_tenants :
        (limit : ℕ) → r.global_running_limit ≡ some limit → global_running_count s ≤ limit
    pub each_tenant :
        (tenant : String) (limit : ℕ)
        → get tenant r.tenant_running_limits ≡ some limit
        → tenant_running_count tenant s ≤ limit

  room_global :
      (r : ClaimRequest) (n limit : ℕ)
      → below n r.global_running_limit ≡ true
      → r.global_running_limit ≡ some limit
      → n + 1 ≤ limit
  room_global r n limit h e = ground arith

  room_tenant :
      (r : ClaimRequest) (s : Store) (item : QueueItem) (limit : ℕ)
      → tenant_has_room r s item ≡ true
      → get item.tenant_id r.tenant_running_limits ≡ some limit
      → tenant_running_count item.tenant_id s + 1 ≤ limit
  unfolding tenant_has_room
  room_tenant r s item limit h e = ground arith

  grown_tenant :
      (r : ClaimRequest) (s t : Store) (item : QueueItem) (tenant : String) (limit : ℕ)
      → tenant_has_room r s item ≡ true
      → tenant_running_count tenant t
        ≡ tenant_running_count tenant s + unit (item.tenant_id == tenant)
      → WithinLimits r s
      → get tenant r.tenant_running_limits ≡ some limit
      → tenant_running_count tenant t ≤ limit
  grown_tenant r s t item tenant limit room grown w e =
      elim (Bool-cases (item.tenant_id == tenant)) [
        | inl same ↦
            (let one = room_tenant r s item limit room (
                subst (λ x. get x r.tenant_running_limits ≡ some limit)
                  (sym ((eq_iff item.tenant_id tenant).0 same)) e) in
              let there =
                subst (λ x. tenant_running_count x s + 1 ≤ limit)
                  ((eq_iff item.tenant_id tenant).0 same) one in
              omega (arith, rw same at grown, there))
        | inr other ↦ omega (arith, rw other at grown, w.each_tenant tenant limit e)
      ]

  -- A claim that returns a bundle adds one to the running items and to those of the tenant of the
  -- item, and to those of no other tenant; and where the running items and those of every tenant
  -- were within the limits of the request, they still are.
  pub claim_next-WithinLimits :
      (r : ClaimRequest) (s t : Store) (b : ClaimBundle)
      → ItemsKeyed s
      → claim_next_runtime_queue_attempt casefold r s ≡ (some b, t)
      → WithinLimits r s
      → (global_running_count t ≡ global_running_count s + 1)
        × ((tenant : String)
            → tenant_running_count tenant t
              ≡ tenant_running_count tenant s + unit (b.queue_item.tenant_id == tenant))
        × WithinLimits r t
  claim_next-WithinLimits r s t b keyed h w =
      let c = claim_next_sound casefold r s t b keyed h in
      let item = c.item in
      let global =
        subst (λ x. global_running_count x ≡ global_running_count s + 1) (sym c.recorded)
          (claimed_global r s item c.stored c.claimable.0) in
      let same_tenant : b.queue_item.tenant_id ≡ item.tenant_id =
        unfold claim_item in ap (λ (x : ClaimBundle). x.queue_item.tenant_id) c.returned in
      let tenants = λ (tenant : String).
        subst
          (λ x.
            tenant_running_count tenant x
            ≡ tenant_running_count tenant s + unit (item.tenant_id == tenant))
          (sym c.recorded) (claimed_tenant r s item tenant c.stored c.claimable.0) in
      (
        global,
        λ tenant. rw same_tenant (tenants tenant),
        record {
          all_tenants = λ limit e. omega (arith, global, room_global r _ limit c.global_room e);
          each_tenant = λ tenant limit e.
              grown_tenant r s t item tenant limit c.claimable.1 (tenants tenant) w e;
        },
      )

  -- Two claims in a row, of any two workers, never give the same item: once an item is claimed it
  -- no longer waits, and so is no candidate of the next claim.
  pub claim_next_exclusive :
      (r q : ClaimRequest) (s t u : Store) (b c : ClaimBundle)
      → ItemsKeyed s
      → claim_next_runtime_queue_attempt casefold r s ≡ (some b, t)
      → claim_next_runtime_queue_attempt casefold q t ≡ (some c, u)
      → b.queue_item.id ≢ c.queue_item.id
  claim_next_exclusive r q s t u b c keyed h k same =
      let x = claim_next_sound casefold r s t b keyed h in
      let y = claim_next_sound casefold q t u c (claimed_keyed r s t x.item keyed x.recorded) k in
      let same_id : y.item.id ≡ x.item.id =
        unfold claim_item in
        sym (ap (λ (z : ClaimBundle). z.queue_item.id) y.returned)
        ∙ sym same
        ∙ ap (λ (z : ClaimBundle). z.queue_item.id) x.returned in
      let held =
        subst (λ z. get x.item.id z.runtime_queue_items ≡ some (claim_item casefold r x.item))
          (sym x.recorded) (claimed-Stored r s x.item x.stored) in
      let again : y.item ≡ claim_item casefold r x.item =
        some_eq
          (sym (subst (λ z. get z t.runtime_queue_items ≡ some y.item) same_id y.stored) ∙ held) in
      claimed_busy q r x.item (subst (λ z. is_candidate q z ≡ true) again y.claimable.0)
