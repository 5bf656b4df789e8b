-- ===== src/Runtime/Quotas.antt =====
-- runtime/quotas.py: `RuntimeQuotaManager`, over the desk of a flight recorder.
pub mod Sums
pub mod Limits
pub mod Bounds
use skill_centric_agent_syst.Base.{
  ℕ, zero, suc, ◌+◌, ◌-◌, String, Bool, true, false, ◌&&◌, Option, none, some, List, [], ◌∷◌,
  if◌then◌else◌, ◌==◌, ltb, leb, join, take, Dict, get, values, insert, gt, ℤ, pos, negsuc, Json,
  null, int, float, str, obj, Fields, field, end, find, as_mapping, Builtins, to_int,
}
use skill_centric_agent_syst.Base.Outcome.{Outcome, ok, err}
use skill_centric_agent_syst.Base.Exec.{Exec, ◌>>=◌, ◌>>◌, lift, pure, raise}
use skill_centric_agent_syst.Runtime.Models.Slug.{slug_id}
use skill_centric_agent_syst.Runtime.Store.{
  Store, insert_runtime_quota_reservation, update_runtime_quota_reservation,
}
use skill_centric_agent_syst.Runtime.Store.Records.{Reservation, ReservationStatus}
use skill_centric_agent_syst.Runtime.Queue.{Error}
use skill_centric_agent_syst.Runtime.Enforcement.Profile.{find_or, empty_object}
use skill_centric_agent_syst.Runtime.FlightRecorder.Desk.{
  Desk, Recorder, Report, within, reading, settle, value_error,
}
use skill_centric_agent_syst.Runtime.FlightRecorder.Events.{record_event}

-- `a - b` of two natural numbers
unfoldable pub minus : ℕ → ℕ → ℤ
minus a b = if ltb a b then negsuc (b - suc a) else pos (a - b)

-- `a + b`
infixl 60 ◌+ℤ◌
abbrev pub ◌+ℤ◌ : ℤ → ℤ → ℤ
pos a +ℤ pos b = pos (a + b)
pos a +ℤ negsuc b = minus a (suc b)
negsuc a +ℤ pos b = minus b (suc a)
negsuc a +ℤ negsuc b = negsuc (suc (a + b))

pub record RuntimeQuotaConfig : Type 0 where
  pub tenant_token_limits_per_minute : Dict ℤ
  pub tenant_tool_call_limits_per_minute : Dict ℤ

-- `RuntimeQuotaError`
abbrev pub quota_error : String → Error
quota_error reason = record {
  class_name = "RuntimeQuotaError";
  message = "Tenant runtime quota exceeded.";
  stop_reason = some reason;
}

-- One of the two quantities: its field of a reservation, and what the code calls it.
pub record Quantity : Type 0 where
  pub amount : Reservation → ℤ
  pub name : String
  pub stop_reason : String

abbrev pub tokens : Quantity
tokens = record {
  amount = λ q. q.reserved_tokens;
  name = "reserved_tokens";
  stop_reason = "max_tokens";
}

abbrev pub tool_calls : Quantity
tool_calls = record {
  amount = λ q. q.reserved_tool_calls;
  name = "reserved_tool_calls";
  stop_reason = "max_tool_calls";
}

-- `status in {"reserved", "finalized"}`
abbrev pub is_counted : ReservationStatus → Bool
is_counted ReservationStatus.reserved = true
is_counted ReservationStatus.finalized = true
is_counted ReservationStatus.refunded = false

-- The reservation counts for the tenant in the minute.
abbrev pub counts : String → String → Reservation → Bool
counts tenant_id quota_window q =
    q.tenant_id == tenant_id && (q.quota_window == quota_window && is_counted q.status)

-- `sum(int(reservation.get(field, 0)) for …)`
unfoldable pub used_of : (Reservation → ℤ) → String → String → List Reservation → ℤ
unfolding minus
used_of amount tenant_id quota_window [] = pos 0
used_of amount tenant_id quota_window (q ∷ qs) =
    let rest = used_of amount tenant_id quota_window qs in
    if counts tenant_id quota_window q then amount q +ℤ rest else rest

abbrev pub used : Quantity → String → String → Store → ℤ
used quantity tenant_id quota_window s =
    used_of quantity.amount tenant_id quota_window (values s.runtime_quota_reservations)

abbrev closed_at : String → (Reservation → Reservation) → Exec Error Desk Reservation
closed_at reservation_id f d =
    settle reservation_id (update_runtime_quota_reservation reservation_id f d.store) d

-- What `int(v)` raises; its message is left out.
abbrev int_failure : Json → Error
int_failure (str s) = value_error ""
int_failure (float s) = value_error ""
int_failure v = record { class_name = "TypeError"; message = ""; stop_reason = none }

abbrev as_number : Json → Option ℤ → Outcome Error ℤ
as_number v none = err (int_failure v)
as_number v (some n) = ok n

module _ (r : Recorder) where
  abbrev requested_in : String → Option Fields → Outcome Error ℤ
  requested_in k none = ok (pos 0)
  requested_in k (some limits) =
      as_number (find_or k (int (pos 0)) limits)
        (to_int r.builtins (find_or k (int (pos 0)) limits))

  abbrev report : String → Json → Option String → Report
  report event_type result stop_reason = record {
    event_type = event_type;
    actor_role = "quota_manager";
    step_id = none;
    planned_action = null;
    execution = null;
    result = result;
    stop_reason = stop_reason;
    idempotency_key = none;
    redact = true;
  }

  -- The event of a quota that is used up.
  abbrev pub exhausted : Quantity → String → String → ℤ → ℤ → ℤ → Report
  exhausted quantity tenant_id quota_window requested so_far limit =
      report "quota_exhausted"
        (obj (
          field "tenant_id" (str tenant_id) (
            field "quota_window" (str quota_window) (
              field "field" (str quantity.name) (
                field "requested" (int requested)
                  (field "used" (int so_far) (field "limit" (int limit) end)))))))
        (some quantity.stop_reason)

  -- `_assert_within_limit` where the tenant has a limit
  unfoldable pub assert_below :
      Quantity → String → String → String → ℤ → ℤ → Exec Error Desk (Unit {0})
  unfolding used_of record_event
  assert_below quantity run_id tenant_id quota_window requested limit d =
      let so_far = used quantity tenant_id quota_window d.store in
      let refused =
        (record_event r run_id (exhausted quantity tenant_id quota_window requested so_far limit)
            >>= λ _. raise (quota_error quantity.stop_reason))
          d in
      if gt (so_far +ℤ requested) limit then refused else (ok tt, d)

  -- `_assert_within_limit`
  unfoldable pub assert_within_limit :
      Quantity → String → String → String → ℤ → Option ℤ → Exec Error Desk (Unit {0})
  unfolding assert_below
  assert_within_limit quantity run_id tenant_id quota_window requested none = pure tt
  assert_within_limit quantity run_id tenant_id quota_window requested (some limit) =
      assert_below quantity run_id tenant_id quota_window requested limit

  -- `int(limits.get(k, 0)) if isinstance(limits, Mapping) else 0`
  unfoldable pub requested_of : String → Fields → Outcome Error ℤ
  unfolding to_int
  requested_of k profile = requested_in k (as_mapping (find_or "limits" empty_object profile))

  -- The event of a reservation.
  abbrev pub reserved_report : Reservation → Report
  reserved_report q =
      report "quota_reserved"
        (obj (
          field "tenant_id" (str q.tenant_id) (
            field "quota_window" (str q.quota_window) (
              field "reserved_tokens" (int q.reserved_tokens)
                (field "reserved_tool_calls" (int q.reserved_tool_calls) end)))))
        none

  unfoldable pub reserve :
      String → String → String → Fields → RuntimeQuotaConfig → Exec Error Desk Reservation
  unfolding requested_of assert_within_limit insert_runtime_quota_reservation record_event get take
      slug_id
  reserve queue_id run_id tenant_id profile config = do
    reserved_tokens ← lift (requested_of "max_tokens" profile)
    reserved_tool_calls ← lift (requested_of "max_tool_calls" profile)
    at ← reading r
    let quota_window = take 16 at
    assert_within_limit tokens run_id tenant_id quota_window reserved_tokens
        (get tenant_id config.tenant_token_limits_per_minute)
    assert_within_limit tool_calls run_id tenant_id quota_window reserved_tool_calls
        (get tenant_id config.tenant_tool_call_limits_per_minute)
    created_at ← reading r
    reservation ← within (
        insert_runtime_quota_reservation (record {
          id =
              slug_id r.artifacts.casefold "quota"
                (join queue_id (join "-" (join run_id (join "-" quota_window))));
          queue_id = queue_id;
          run_id = run_id;
          tenant_id = tenant_id;
          quota_window = quota_window;
          reserved_tokens = reserved_tokens;
          reserved_tool_calls = reserved_tool_calls;
          status = ReservationStatus.reserved;
          created_at = created_at;
          finalized_at = none;
        }))
    event ← record_event r run_id (reserved_report reservation)
    pure reservation

  abbrev close : ReservationStatus → String → Exec Error Desk Reservation
  close status reservation_id = do
    at ← reading r
    closed_at reservation_id
        (λ (q : Reservation). record q { status = status; finalized_at = some at })

  unfoldable pub finalize : String → Exec Error Desk Reservation
  unfolding update_runtime_quota_reservation
  finalize = close ReservationStatus.finalized

  unfoldable pub refund : String → Exec Error Desk Reservation
  unfolding update_runtime_quota_reservation
  refund = close ReservationStatus.refunded
