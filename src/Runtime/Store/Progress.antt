-- ===== src/Runtime/Store/Progress.antt =====
-- Recovery and claims together (runtime/storage_memory.py): an item whose worker died is served again.
use skill_centric_agent_syst.Base.{
  ℕ, ◌+◌, ◌≤◌, arith, String, ◌≡◌, refl, ◌∙◌, ap, Option, none, some, true, false, ◌||◌, inl, inr,
  get, update_found, member, is_empty, text_le,
}
use skill_centric_agent_syst.Runtime.Store.Records.{QueueItem}
use skill_centric_agent_syst.Runtime.Store.{Store, global_running_count}
use skill_centric_agent_syst.Runtime.Store.Claims.{
  ClaimRequest, ClaimBundle, below, matches, is_candidate, tenant_has_room,
  claim_next_runtime_queue_attempt,
}
use skill_centric_agent_syst.Runtime.Store.Claiming.{Claimable, claim_next_complete}
use skill_centric_agent_syst.Runtime.Store.Leases.{recover_item, recover_stale_runtime_queue_items}
use skill_centric_agent_syst.Runtime.Store.Recovery.{
  recovered, recover_stale-get, RunOut, RunOut-stale,
}
use skill_centric_agent_syst.Runtime.Store.Freed.{recover_frees}
use skill_centric_agent_syst.Runtime.Store.Limits.{WithinLimits}

-- A claim that returns a bundle.
abbrev pub Serves : Option ClaimBundle × Store → Type 0
Serves result = (bundle : ClaimBundle) × (result.0 ≡ some bundle)

module _ (casefold : String → String) where
  served :
      (r : ClaimRequest) (s : Store) (k : String) (item : QueueItem)
      → get k s.runtime_queue_items ≡ some item
      → Claimable r s item
      → below (global_running_count s) r.global_running_limit ≡ true
      → Serves (claim_next_runtime_queue_attempt casefold r s)
  served r s k item there fit room = go (claim_next_runtime_queue_attempt casefold r s) refl
    where
      refuted : (t : Store) → claim_next_runtime_queue_attempt casefold r s ≡ (none, t) → ⊥
      refuted t e = elim (claim_next_complete casefold r s t e).1 [
        | inl full ↦ cc
        | inr nobody ↦ nobody k item there fit
      ]

      go :
          (result : Option ClaimBundle × Store)
          → claim_next_runtime_queue_attempt casefold r s ≡ result
          → Serves result
      go (none, t) e = elim (refuted t e) [ ]
      go (some bundle, t) e = (bundle, refl)

  -- The request is for such an item: it is due at the time of the claim, and of a tenant, an environment
  -- and a queue that the request takes.
  pub record Wanted (r : ClaimRequest) (item : QueueItem) : Type 0 where
    pub due : text_le item.scheduled_at r.claimed_at ≡ true
    pub allowed :
        (is_empty r.allowed_tenant_ids || member item.tenant_id r.allowed_tenant_ids) ≡ true
    pub enabled : member item.tenant_id r.disabled_tenant_ids ≡ false
    pub environment : matches r.environment item.environment ≡ true
    pub queue_name : matches r.queue_name item.queue_name ≡ true

  recovered-Wanted :
      (now : String) (r : ClaimRequest) (item : QueueItem)
      → Wanted r item
      → is_candidate r (recover_item now item) ≡ true
  unfolding is_candidate
  recovered-Wanted now r item w = rw (w.due, w.allowed, w.enabled, w.environment, w.queue_name) refl

  below_of :
      (n m : ℕ) (o : Option ℕ)
      → n + 1 ≤ m
      → ((limit : ℕ) → o ≡ some limit → m ≤ limit)
      → below n o ≡ true
  below_of n m none freed within = refl
  below_of n m (some limit) freed within = ground (arith, freed, within limit refl)

  -- Where the lease of a stored item that is claimed or running has run out, the running items are
  -- within the limits of a request, and the request is for such an item, a claim after a recovery
  -- returns a bundle: the item waits again, and its place among the running ones is free.
  pub recovered_is_served :
      (now k : String) (r : ClaimRequest) (s : Store) (item : QueueItem)
      → get k s.runtime_queue_items ≡ some item
      → RunOut now item
      → Wanted r item
      → WithinLimits casefold r s
      → Serves
          (claim_next_runtime_queue_attempt casefold r (recover_stale_runtime_queue_items now s).1)
  unfolding tenant_has_room
  recovered_is_served now k r s item there out wanted within =
      let stale = RunOut-stale now item out in
      let (all, own) = recover_frees now k s item there stale in
      served r (recover_stale_runtime_queue_items now s).1 k (recover_item now item)
        (recover_stale-get now k s ∙ (ap (update_found (recovered now)) there ∙ rw stale refl))
        (
          recovered-Wanted now r item wanted,
          below_of _ _ (get item.tenant_id r.tenant_running_limits) own
              (within.each_tenant item.tenant_id),
        )
        (below_of _ _ r.global_running_limit all within.all_tenants)
