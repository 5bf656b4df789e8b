-- ===== src/Runtime/Store/Freed.antt =====
-- What a recovery of stale claims (runtime/storage_memory.py) does to the numbers of running items.
use skill_centric_agent_syst.Base.{
  ◌+◌, ◌≤◌, String, ◌≡◌, refl, Bool, true, false, ◌&&◌, some, [], ◌∷◌, arith, ◌==◌, Dict, get,
  values, tally, count_values, Bool-cases, inl, inr, eq_refl,
}
use skill_centric_agent_syst.Runtime.Models.{is_held}
use skill_centric_agent_syst.Runtime.Store.Records.{QueueItem, RunClaim}
use skill_centric_agent_syst.Runtime.Store.{
  Store, global_running_count, tenant_running_count, active_claim_for_queue,
}
use skill_centric_agent_syst.Runtime.Store.Leases.{
  is_stale, recover_item, recover_items, recover_stale_runtime_queue_items, release,
  update_found_claim,
}

-- A test that no recovered item passes.
module _ (p : QueueItem → Bool) (now : String)
    (fails : (i : QueueItem) → p (recover_item now i) ≡ false) where
  -- The claims of the rest, once the item is recovered.
  abbrev claims_after : QueueItem → Dict RunClaim → Dict RunClaim
  claims_after i claims =
      update_found_claim (release now "stale_recovered") (active_claim_for_queue i.id claims) claims

  tally_recovered_le :
      (d : Dict QueueItem) (claims : Dict RunClaim)
      → tally p (values (recover_items now d claims).1) ≤ tally p (values d)
  unfolding tally values recover_items
  tally_recovered_le [] claims = omega arith
  tally_recovered_le ((j, i) ∷ d) claims = elim (Bool-cases (is_stale now i)) [
    | inl stale ↦
        (let rest = tally_recovered_le d (claims_after i claims) in
          rw (stale, fails i) (ground (arith, rest)))
    | inr fresh ↦ (let rest = tally_recovered_le d claims in rw fresh (ground (arith, rest)))
  ]

  tally_recovered_lt :
      (k : String) (item : QueueItem) (d : Dict QueueItem) (claims : Dict RunClaim)
      → get k d ≡ some item
      → is_stale now item ≡ true
      → p item ≡ true
      → tally p (values (recover_items now d claims).1) + 1 ≤ tally p (values d)
  unfolding tally values recover_items get
  tally_recovered_lt k item [] claims g stale counted = cc
  tally_recovered_lt k item ((j, i) ∷ d) claims g stale counted = elim (Bool-cases (k == j)) [
    | inl here ↦
        (let is_item : i ≡ item = ground (arith, rw here at g) in
          let rest = tally_recovered_le d (claims_after item claims) in
          rw (is_item, stale, fails item, counted) (omega (arith, rest)))
    | inr there ↦ elim (Bool-cases (is_stale now i)) [
      | inl out ↦
          (let rest =
              tally_recovered_lt k item d (claims_after i claims) (rw there at g) stale counted in
            rw (out, fails i) (ground (arith, rest)))
      | inr fresh ↦
          (let rest = tally_recovered_lt k item d claims (rw there at g) stale counted in
            rw fresh (ground (arith, rest)))
    ]
  ]

held_of_stale :
    (now : String) (item : QueueItem) → is_stale now item ≡ true → is_held item.status ≡ true
unfolding is_stale
held_of_stale now item h = ground arith

-- A recovery of an item that is stale leaves fewer running items, of all tenants and of its own.
pub recover_frees :
    (now k : String) (s : Store) (item : QueueItem)
    → get k s.runtime_queue_items ≡ some item
    → is_stale now item ≡ true
    → let t = (recover_stale_runtime_queue_items now s).1 in
      (global_running_count t + 1 ≤ global_running_count s)
      × (tenant_running_count item.tenant_id t + 1 ≤ tenant_running_count item.tenant_id s)
unfolding count_values recover_stale_runtime_queue_items global_running_count tenant_running_count
recover_frees now k s item g stale =
    let held = held_of_stale now item stale in
    (
      tally_recovered_lt (λ i. is_held i.status) now (λ i. refl) k item s.runtime_queue_items
          s.runtime_run_claims g stale held,
      tally_recovered_lt (λ i. i.tenant_id == item.tenant_id && is_held i.status) now
          (λ i. ground arith) k item s.runtime_queue_items s.runtime_run_claims g stale
          (rw (eq_refl item.tenant_id, held) refl),
    )
