-- ===== src/Runtime/Quotas/Sums.antt =====
-- What a tenant has reserved in a minute, as a sum of natural numbers.
use skill_centric_agent_syst.Base.{
  ℕ, ◌+◌, ◌≤◌, String, ◌≡◌, refl, ap, ◌∙◌, false, List, [], ◌∷◌, if◌then◌else◌, ◌==◌, Dict, insert,
  values, All, arith, Bool-cases, inl, inr, ℤ, pos, negsuc, gt,
}
use skill_centric_agent_syst.Runtime.Store.Records.{Reservation}
use skill_centric_agent_syst.Runtime.Quotas.{used_of, counts, ◌+ℤ◌}

-- A number that is not below zero.
abbrev pub IsNatural : ℤ → Type 0
IsNatural n = (m : ℕ) × (n ≡ pos m)

abbrev pub size_of : ℤ → ℕ
size_of (pos n) = n
size_of (negsuc n) = 0

natural : (z : ℤ) → IsNatural z → z ≡ pos (size_of z)
natural (pos n) h = refl
natural (negsuc n) (m, e) = cc

module _ (amount : Reservation → ℤ) (tenant_id quota_window : String) where
  abbrev weight : Reservation → ℕ
  weight q = if counts tenant_id quota_window q then size_of (amount q) else 0

  unfoldable pub total : List Reservation → ℕ
  total [] = 0
  total (q ∷ qs) = weight q + total qs

  pub used_of-total :
      (qs : List Reservation)
      → All (λ q. IsNatural (amount q)) qs
      → used_of amount tenant_id quota_window qs ≡ pos (total qs)
  unfolding used_of total
  used_of-total [] h = refl
  used_of-total (q ∷ qs) (n, h) = elim (Bool-cases (counts tenant_id quota_window q)) [
    | inl there ↦ rw there (rw (used_of-total qs h) (rw (natural (amount q) n) refl))
    | inr other ↦ rw other (used_of-total qs h ∙ ap pos (omega arith))
  ]

  pub total-insert :
      (k : String) (q : Reservation) (d : Dict Reservation)
      → total (values (insert k q d)) ≤ total (values d) + weight q
  unfolding total values insert
  total-insert k q [] = omega arith
  total-insert k q ((j, p) ∷ d) = ground (arith, total-insert k q d)

  pub naturals-insert :
      (k : String) (q : Reservation) (d : Dict Reservation)
      → IsNatural (amount q)
      → All (λ p. IsNatural (amount p)) (values d)
      → All (λ p. IsNatural (amount p)) (values (insert k q d))
  unfolding values insert
  naturals-insert k q [] n h = (n, tt)
  naturals-insert k q ((j, p) ∷ d) n h = elim (Bool-cases (k == j)) [
    | inl same ↦ rw same (n, h.1)
    | inr other ↦ rw other (h.0, naturals-insert k q d n h.1)
  ]

  gt_mono : (u v : ℕ) (limit : ℤ) → v ≤ u → gt (pos u) limit ≡ false → gt (pos v) limit ≡ false
  gt_mono u v (pos l) le h = ground arith
  gt_mono u v (negsuc l) le h = cc

  weight_le : (q : Reservation) (n : ℕ) → amount q ≡ pos n → weight q ≤ n
  weight_le q n e = rw e (ground arith)

  -- A reservation that fits next to what is reserved keeps the sum within the limit, also where it takes
  -- the place of another.
  pub gt-insert :
      (k : String) (q : Reservation) (d : Dict Reservation) (n : ℕ) (limit : ℤ)
      → All (λ p. IsNatural (amount p)) (values d)
      → amount q ≡ pos n
      → gt (used_of amount tenant_id quota_window (values d) +ℤ pos n) limit ≡ false
      → gt (used_of amount tenant_id quota_window (values (insert k q d))) limit ≡ false
  gt-insert k q d n limit h e fits =
      rw (used_of-total (values (insert k q d)) (naturals-insert k q d (n, e) h)) (
        gt_mono (total (values d) + n) _ limit (omega (arith, total-insert k q d, weight_le q n e))
          (rw (used_of-total (values d) h) at fits))
