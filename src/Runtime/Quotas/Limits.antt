-- ===== src/Runtime/Quotas/Limits.antt =====
-- Reservations within the limits of a tenant, as what the dictionary of the reservations holds.
use skill_centric_agent_syst.Base.{
  ℕ, String, ◌≡◌, sym, subst, false, Option, none, some, Dict, get, insert, values, All, gt, ℤ, pos,
}
use skill_centric_agent_syst.Runtime.Store.Records.{Reservation}
use skill_centric_agent_syst.Runtime.Quotas.{
  RuntimeQuotaConfig, Quantity, tokens, tool_calls, ◌+ℤ◌, used_of,
}
use skill_centric_agent_syst.Runtime.Quotas.Sums.{IsNatural, naturals-insert, gt-insert}

-- The reservations are of natural numbers.
abbrev pub AreNatural : Dict Reservation → Type 0
AreNatural res =
    All (λ (q : Reservation). IsNatural q.reserved_tokens) (values res)
    × All (λ (q : Reservation). IsNatural q.reserved_tool_calls) (values res)

-- What the tenant has reserved in the minute is within the limit, where it has one.
abbrev pub IsWithin : Quantity → String → String → Option ℤ → Dict Reservation → Type 0
IsWithin quantity tenant window none res = Unit {0}
IsWithin quantity tenant window (some limit) res =
    gt (used_of quantity.amount tenant window (values res)) limit ≡ false

-- Both at once.
abbrev pub AreSound : String → String → RuntimeQuotaConfig → Dict Reservation → Type 0
AreSound tenant window config res =
    AreNatural res
    × (IsWithin tokens tenant window (get tenant config.tenant_token_limits_per_minute) res
        × IsWithin tool_calls tenant window (get tenant config.tenant_tool_call_limits_per_minute)
            res)

-- There is room for a number more.
abbrev pub Fits : Quantity → String → String → ℤ → Option ℤ → Dict Reservation → Type 0
Fits quantity tenant window requested none res = Unit {0}
Fits quantity tenant window requested (some limit) res =
    gt (used_of quantity.amount tenant window (values res) +ℤ requested) limit ≡ false

room_taken :
    (quantity : Quantity) (tenant window : String) (q : Reservation) (n : ℕ) (o : Option ℤ)
    (res : Dict Reservation)
    → All (λ (p : Reservation). IsNatural (quantity.amount p)) (values res)
    → quantity.amount q ≡ pos n
    → Fits quantity tenant window (pos n) o res
    → IsWithin quantity tenant window o (insert q.id q res)
room_taken quantity tenant window q n none res naturals e fits = tt
room_taken quantity tenant window q n (some limit) res naturals e fits =
    gt-insert quantity.amount tenant window q.id q res n limit naturals e fits

-- A reservation for which there is room is put in.
pub sound_after :
    (q : Reservation) (n m : ℕ) (tenant window : String) (config : RuntimeQuotaConfig)
    (res after : Dict Reservation)
    → after ≡ insert q.id q res
    → q.reserved_tokens ≡ pos n
    → q.reserved_tool_calls ≡ pos m
    → AreNatural res
    → Fits tokens tenant window (pos n) (get tenant config.tenant_token_limits_per_minute) res
    → Fits tool_calls tenant window
        (pos m)
        (get tenant config.tenant_tool_call_limits_per_minute)
        res
    → AreSound tenant window config after
sound_after q n m tenant window config res after now en em naturals fits1 fits2 =
    subst (AreSound tenant window config) (sym now) (
      (
        naturals-insert (λ p. p.reserved_tokens) tenant window q.id q res (n, en) naturals.0,
        naturals-insert (λ p. p.reserved_tool_calls) tenant window q.id q res (m, em) naturals.1,
      ),
      (
        room_taken tokens tenant window q n _ res naturals.0 en fits1,
        room_taken tool_calls tenant window q m _ res naturals.1 em fits2,
      ),
    )
