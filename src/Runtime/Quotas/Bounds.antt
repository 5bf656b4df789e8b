-- ===== src/Runtime/Quotas/Bounds.antt =====
-- A reservation keeps a tenant within its limits.
use skill_centric_agent_syst.Base.{
  ℕ, suc, String, ◌≡◌, refl, sym, ap, subst, ◌∙◌, false, Option, none, some, join, take, Dict, get,
  insert, Bool-cases, inl, inr, gt, ℤ, pos, Fields,
}
use skill_centric_agent_syst.Base.Outcome.{Outcome, ok}
use skill_centric_agent_syst.Base.Exec
use skill_centric_agent_syst.Base.Exec.{Exec, bind_inv, lift_inv, raise}
use skill_centric_agent_syst.Runtime.Store.{Store, insert_runtime_quota_reservation}
use skill_centric_agent_syst.Runtime.Store.Records.{Reservation, ReservationStatus, Event}
use skill_centric_agent_syst.Runtime.Store.Events.{
  allocate_runtime_event_index, insert_runtime_event, append_event,
}
use skill_centric_agent_syst.Runtime.Queue.{Error}
use skill_centric_agent_syst.Runtime.FlightRecorder.Desk.{Desk, Recorder, Report}
use skill_centric_agent_syst.Runtime.FlightRecorder.Events.{record_event, store_event}
use skill_centric_agent_syst.Runtime.FlightRecorder.Keeps.{
  Leads, then_leads, On, payload_keeps, check_keeps,
}
use skill_centric_agent_syst.Runtime.Quotas.{
  RuntimeQuotaConfig, Quantity, tokens, tool_calls, used, ◌+ℤ◌, quota_error, exhausted,
  assert_below, assert_within_limit, requested_of, reserve, reserved_report,
}
use skill_centric_agent_syst.Runtime.Models.Slug.{slug_id}
use skill_centric_agent_syst.Runtime.Quotas.Limits.{AreNatural, AreSound, Fits, sound_after}

-- The reservations of the store.
abbrev Holds : Dict Reservation → Store → Type 0
Holds q s = s.runtime_quota_reservations ≡ q

appended-Holds :
    (q : Dict Reservation) (e : Event) (s : Store) (o : Option Event)
    → Holds q s
    → Holds q (append_event e s o).1
appended-Holds q e s none h = h
appended-Holds q e s (some old) h = h

not_raised : (e : Error) (y x : Desk) → raise {A = Unit {0}} e y ≡ (ok tt, x) → ⊥
not_raised e y x h = cc

some_inj : (a b : ℤ) → some a ≡ some b → a ≡ b
some_inj a b e = cc

module _ (r : Recorder) where
  -- To record an event changes no reservation.
  record_event-Holds :
      (q : Dict Reservation) (run : String) (report : Report)
      → Leads (On (Holds q)) (record_event r run report) (On (Holds q))
  unfolding record_event store_event allocate_runtime_event_index insert_runtime_event
  record_event-Holds q run report =
      let P = On (Holds q) in
      let slot = λ (i : ℕ). payload_keeps r (Holds q) run i report in
      then_leads P P P _ _ (check_keeps r (Holds q) report) (λ x h. h)
        (λ _.
          then_leads P P P _ _ (λ d h. h) (λ x h. h)
            (λ i.
              then_leads P P P _ _ (slot i "planned" report.planned_action) (λ x h. h)
                (λ planned.
                  then_leads P P P _ _ (slot i "execution" report.execution) (λ x h. h)
                    (λ execution.
                      then_leads P P P _ _ (slot i "result" report.result) (λ x h. h)
                        (λ result.
                          then_leads P P P _ _ (λ d h. h) (λ x h. h)
                            (λ at d h. appended-Holds q _ d.store _ h))))))

  assert_below_passed :
      (quantity : Quantity) (run tenant window : String) (requested limit : ℤ) (d x : Desk)
      → assert_below r quantity run tenant window requested limit d ≡ (ok tt, x)
      → (x ≡ d) × (gt (used quantity tenant window d.store +ℤ requested) limit ≡ false)
  unfolding assert_below
  assert_below_passed quantity run tenant window requested limit d x h =
      elim (Bool-cases (gt (used quantity tenant window d.store +ℤ requested) limit)) [
        | inl over ↦
            (let (e, (y, _, bad)) =
                bind_inv
                  (record_event r run (
                    exhausted r quantity tenant window requested
                      (used quantity tenant window d.store) limit))
                  _ d x tt (rw over at h) in
              elim (not_raised (quota_error quantity.stop_reason) y x bad) [ ])
        | inr fits ↦ (sym (ap (λ p. p.1) (rw fits at h)), fits)
      ]

  assert_passed :
      (quantity : Quantity) (run tenant window : String) (requested : ℤ) (o : Option ℤ) (d x : Desk)
      → assert_within_limit r quantity run tenant window requested o d ≡ (ok tt, x)
      → (x ≡ d) × Fits quantity tenant window requested o d.store.runtime_quota_reservations
  unfolding assert_within_limit
  assert_passed quantity run tenant window requested none d x h = (sym (ap (λ p. p.1) h), tt)
  assert_passed quantity run tenant window requested (some bound) d x h =
      assert_below_passed quantity run tenant window requested bound d x h

  -- The reservation that is made after the checks.
  abbrev new_reservation : String → String → String → String → ℕ → ℕ → String → Reservation
  new_reservation queue run tenant window n m at = record {
    id = slug_id r.artifacts.casefold "quota" (join queue (join "-" (join run (join "-" window))));
    queue_id = queue;
    run_id = run;
    tenant_id = tenant;
    quota_window = window;
    reserved_tokens = pos n;
    reserved_tool_calls = pos m;
    status = ReservationStatus.reserved;
    created_at = at;
    finalized_at = none;
  }

  -- What is left after the event of a reservation.
  left_over :
      (q : Reservation) (run : String) (d t : Desk) (made : Reservation)
      → Exec.◌>>=◌ (record_event r run (reserved_report r q)) (λ event. Exec.pure q) d
        ≡ (ok made, t)
      → t.store.runtime_quota_reservations ≡ d.store.runtime_quota_reservations
  left_over q run d t made h =
      let (e, (z, recorded, last)) =
        bind_inv (record_event r run (reserved_report r q)) _ d t made h in
      ap (λ (p : Outcome Error Reservation × Desk). p.1.store.runtime_quota_reservations) (sym last)
      ∙ (ap (λ (p : Outcome Error Event × Desk). p.1.store.runtime_quota_reservations)
            (sym recorded)
          ∙ record_event-Holds d.store.runtime_quota_reservations run (reserved_report r q) d refl)

  -- Where what is asked for is not below zero and all reservations are of natural numbers, `reserve` that
  -- returns leaves them so, and leaves the tenant within both of its limits for the minute of the clock.
  pub reserve-AreSound :
      (queue run tenant : String) (profile : Fields) (config : RuntimeQuotaConfig) (n m : ℕ)
      (d t : Desk) (made : Reservation)
      → AreNatural d.store.runtime_quota_reservations
      → requested_of r "max_tokens" profile ≡ ok (pos n)
      → requested_of r "max_tool_calls" profile ≡ ok (pos m)
      → reserve r queue run tenant profile config d ≡ (ok made, t)
      → AreSound tenant (take 16 (r.clock d.readings)) config t.store.runtime_quota_reservations
  unfolding reserve Exec.◌>>=◌ insert_runtime_quota_reservation
  reserve-AreSound queue run tenant profile config n m d t made naturals rn rm done =
      let window = take 16 (r.clock d.readings) in
      let d1 = record d { readings = suc d.readings } in
      let (_, (x, passed1, after1)) =
        bind_inv
          (assert_within_limit r tokens run tenant window (pos n)
            (get tenant config.tenant_token_limits_per_minute))
          _ d1 t made (rw (rn, rm) at done) in
      let (_, (y, passed2, after2)) =
        bind_inv
          (assert_within_limit r tool_calls run tenant window (pos m)
            (get tenant config.tenant_tool_call_limits_per_minute))
          _ x t made after1 in
      let (same1, fits1) = assert_passed tokens run tenant window (pos n) _ d1 x passed1 in
      let (same2, fits2) = assert_passed tool_calls run tenant window (pos m) _ x y passed2 in
      let q = new_reservation queue run tenant window n m (r.clock y.readings) in
      let placed = insert q.id q y.store.runtime_quota_reservations in
      let held =
        left_over q run
          (record y {
            store = record (y.store) { runtime_quota_reservations = placed };
            readings = suc y.readings;
          })
          t made after2 in
      let tool_limit = get tenant config.tenant_tool_call_limits_per_minute in
      sound_after q n m tenant window config d.store.runtime_quota_reservations
        t.store.runtime_quota_reservations
        (held ∙ ap (λ (z : Desk). insert q.id q z.store.runtime_quota_reservations) (same2 ∙ same1))
        refl refl naturals fits1
        (subst
          (λ (z : Desk).
            Fits tool_calls tenant window (pos m) tool_limit z.store.runtime_quota_reservations)
          same1 fits2)
