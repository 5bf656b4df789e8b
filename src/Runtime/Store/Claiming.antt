-- ===== src/Runtime/Store/Claiming.antt =====
-- What `claim_next_runtime_queue_attempt` gives a worker, and when it gives nothing.
use skill_centric_agent_syst.Base.{
  String, ◌≡◌, refl, sym, ap, ◌⊎◌, inl, inr, true, false, Option, none, some, arith, keep,
  first_fit, get, values, compare_texts, compare_int, All, All-keep, All-of_keep, All-sort,
  All-of_sort, first_fit-some, first_fit-none, first_fit-least, sort-IsSorted, IsKeyed, All-found,
  found-All, Bool-cases, IsOrder, texts-IsOrder, int-IsOrder, by-IsOrder, down-IsOrder, lex-IsOrder,
  le_total, le_trans,
}
use skill_centric_agent_syst.Runtime.Store.Records.{QueueItem}
use skill_centric_agent_syst.Runtime.Store.{Store, global_running_count}
use skill_centric_agent_syst.Runtime.Store.Claims.{
  ClaimRequest, ClaimBundle, is_candidate, compare_items, item_le, candidates, below,
  tenant_has_room, claim_item, claim_attempt, claim_record, store_claim, claim_chosen,
  claim_next_runtime_queue_attempt,
}

-- The items are stored under their identifiers, each once.
abbrev pub ItemsKeyed : Store → Type 0
ItemsKeyed s = IsKeyed (λ (i : QueueItem). i.id) s.runtime_queue_items

abbrev pub Stored : Store → QueueItem → Type 0
Stored s item = get item.id s.runtime_queue_items ≡ some item

-- An item that a claim may take: a candidate whose tenant has room.
abbrev pub Claimable : ClaimRequest → Store → QueueItem → Type 0
Claimable r s item = (is_candidate r item ≡ true) × (tenant_has_room r s item ≡ true)

items-IsOrder : IsOrder compare_items
unfolding compare_items
items-IsOrder =
    lex-IsOrder _
      (down-IsOrder _ (by-IsOrder compare_int (λ (i : QueueItem). i.priority) int-IsOrder)) _
      (lex-IsOrder _ (by-IsOrder compare_texts (λ (i : QueueItem). i.scheduled_at) texts-IsOrder) _
        (lex-IsOrder _ (by-IsOrder compare_texts (λ (i : QueueItem). i.created_at) texts-IsOrder) _
          (by-IsOrder compare_texts (λ (i : QueueItem). i.id) texts-IsOrder)))

candidates-All :
    (r : ClaimRequest) (s : Store)
    → ItemsKeyed s
    → All (λ i. Stored s i × (is_candidate r i ≡ true)) (candidates r s)
unfolding candidates
candidates-All r s h = All-sort item_le _ _ (
    All-keep (Stored s) (is_candidate r) (values s.runtime_queue_items)
      (All-found (λ (i : QueueItem). i.id) s.runtime_queue_items h))

module _ (casefold : String → String) where
  -- The outcome of a claim that found an item.
  pub record Claimed (r : ClaimRequest) (s : Store) (b : ClaimBundle) (t : Store) : Type 0 where
    pub item : QueueItem
    pub stored : Stored s item
    pub claimable : Claimable r s item
    pub global_room : below (global_running_count s) r.global_running_limit ≡ true
    pub returned : b ≡ record {
      queue_item = claim_item casefold r item;
      attempt = claim_attempt casefold r item;
      claim = claim_record casefold r item;
    }
    pub recorded : t ≡ store_claim casefold r item s
    pub first :
        (k : String) (other : QueueItem)
        → get k s.runtime_queue_items ≡ some other
        → Claimable r s other
        → (other ≡ item) ⊎ (item_le item other ≡ true)

  chosen_inv :
      (r : ClaimRequest) (s t : Store) (b : ClaimBundle) (o : Option QueueItem)
      → claim_chosen casefold r s o ≡ (some b, t)
      → (item : QueueItem) × (o ≡ some item)
        × (b ≡ record {
          queue_item = claim_item casefold r item;
          attempt = claim_attempt casefold r item;
          claim = claim_record casefold r item;
        })
        × (t ≡ store_claim casefold r item s)
  unfolding claim_chosen
  chosen_inv r s t b none h = cc
  chosen_inv r s t b (some item) h = (item, refl, ground arith, sym (ap (λ x. x.1) h))

  -- Of a list in order, the first with room comes before the others of the dictionary.
  first_of_All :
      (r : ClaimRequest) (s : Store) (item : QueueItem)
      → first_fit (tenant_has_room r s) (candidates r s) ≡ some item
      → All
          (λ i.
            is_candidate r i ≡ true
            → tenant_has_room r s i ≡ true
            → (i ≡ item) ⊎ (item_le item i ≡ true))
          (values s.runtime_queue_items)
  unfolding candidates
  first_of_All r s item e =
      All-of_keep (λ i. tenant_has_room r s i ≡ true → (i ≡ item) ⊎ (item_le item i ≡ true))
        (is_candidate r) (values s.runtime_queue_items)
        (All-of_sort item_le _ _ (
          first_fit-least item_le (tenant_has_room r s) _ item
            (sort-IsSorted item_le (le_total compare_items items-IsOrder)
              (le_trans compare_items items-IsOrder)
              (keep (is_candidate r) (values s.runtime_queue_items)))
            e))

  -- A claim that returns a bundle took an item of the queue that waits, is due, is of the tenants,
  -- environment and queue asked for, and whose tenant was below its limit, while the running items
  -- were below the global limit; no other such item comes before it in the order of the key; and the
  -- bundle and the new store are those of that item.
  pub claim_next_sound :
      (r : ClaimRequest) (s t : Store) (b : ClaimBundle)
      → ItemsKeyed s
      → claim_next_runtime_queue_attempt casefold r s ≡ (some b, t)
      → Claimed r s b t
  unfolding claim_next_runtime_queue_attempt
  claim_next_sound r s t b keyed h =
      let room : below (global_running_count s) r.global_running_limit ≡ true = ground arith in
      let chosen = first_fit (tenant_has_room r s) (candidates r s) in
      let (item, found, returned, recorded) = chosen_inv r s t b chosen (rw room at h) in
      let ((stored, candidate), has_room) =
        first_fit-some (λ i. Stored s i × (is_candidate r i ≡ true)) (tenant_has_room r s)
          (candidates r s) item (candidates-All r s keyed) found in
      record {
        item = item;
        stored = stored;
        claimable = (candidate, has_room);
        global_room = room;
        returned = returned;
        recorded = recorded;
        first = λ k other g c.
            found-All (λ (i : QueueItem). i.id)
              (λ i.
                is_candidate r i ≡ true
                → tenant_has_room r s i ≡ true
                → (i ≡ item) ⊎ (item_le item i ≡ true))
              k other s.runtime_queue_items (first_of_All r s item found) g c.0 c.1;
      }

  chosen_none :
      (r : ClaimRequest) (s t : Store) (o : Option QueueItem)
      → claim_chosen casefold r s o ≡ (none, t)
      → (o ≡ none) × (t ≡ s)
  unfolding claim_chosen
  chosen_none r s t none h = (refl, sym (ap (λ x. x.1) h))
  chosen_none r s t (some item) h = cc

  no_room :
      (r : ClaimRequest) (s : Store)
      → first_fit (tenant_has_room r s) (candidates r s) ≡ none
      → (k : String) (item : QueueItem) → get k s.runtime_queue_items ≡ some item
      → ¬ Claimable r s item
  unfolding candidates
  no_room r s e k item g c =
      let none_fits =
        All-of_keep (λ i. tenant_has_room r s i ≡ false) (is_candidate r)
          (values s.runtime_queue_items)
          (All-of_sort item_le _ _ (first_fit-none (tenant_has_room r s) _ e)) in
      let full =
        found-All (λ (i : QueueItem). i.id)
          (λ i. is_candidate r i ≡ true → tenant_has_room r s i ≡ false) k item
          s.runtime_queue_items none_fits g c.0 in
      cc (full, c.1)

  -- A claim that returns nothing changes nothing, and had no choice: the global limit was reached, or
  -- no item of the queue was a candidate whose tenant had room.
  pub claim_next_complete :
      (r : ClaimRequest) (s t : Store)
      → claim_next_runtime_queue_attempt casefold r s ≡ (none, t)
      → (t ≡ s)
        × ((below (global_running_count s) r.global_running_limit ≡ false)
            ⊎ ((k : String) (item : QueueItem)
                → get k s.runtime_queue_items ≡ some item
                → ¬ Claimable r s item))
  unfolding claim_next_runtime_queue_attempt
  claim_next_complete r s t h =
      elim (Bool-cases (below (global_running_count s) r.global_running_limit)) [
        | inl room ↦
            (let (nothing, same) =
                chosen_none r s t (first_fit (tenant_has_room r s) (candidates r s))
                  (rw room at h) in
              (same, inr (no_room r s nothing)))
        | inr full ↦ (sym (ap (λ x. x.1) (rw full at h)), inl full)
      ]
