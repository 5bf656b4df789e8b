-- ===== src/Runtime/Artifacts/Slices.antt =====
-- The slices that a range of starts cuts: together they are the whole.
use skill_centric_agent_syst.Base.{
  ℕ, zero, suc, ◌+◌, ◌≤◌, ◌≡◌, refl, sym, ap, ◌∙◌, true, List, [], ◌∷◌, ◌++◌, ltb, Bool-cases, inl,
  inr, arith,
}
use skill_centric_agent_syst.Runtime.Artifacts.Chunks.{slice_to, slice_from, length, range_from}

too_long : (n : ℕ) → suc n ≤ 0 → ⊥
too_long n h = omega arith

module _ {ℓ} {A : Type ℓ} where
  cut : (n : ℕ) (xs : List A) → slice_to n xs ++ slice_from n xs ≡ xs
  unfolding slice_to slice_from
  cut zero xs = refl
  cut (suc n) [] = refl
  cut (suc n) (x ∷ xs) = ap (λ r. x ∷ r) (cut n xs)

  abbrev the_empty : List A
  the_empty = []

  slice_from-[] : (n : ℕ) → slice_from n the_empty ≡ the_empty
  unfolding slice_from
  slice_from-[] zero = refl
  slice_from-[] (suc n) = refl

  slice_from-slice_from :
      (m n : ℕ) (xs : List A) → slice_from n (slice_from m xs) ≡ slice_from (m + n) xs
  unfolding slice_from
  slice_from-slice_from zero n xs = ap (λ k. slice_from k xs) (omega arith)
  slice_from-slice_from (suc m) n [] = slice_from-[] n ∙ sym (slice_from-[] (suc m + n))
  slice_from-slice_from (suc m) n (x ∷ xs) =
      let e : suc (m + n) ≡ suc m + n = omega arith in
      slice_from-slice_from m n xs ∙ ap (λ k. slice_from k (x ∷ xs)) e

  slice_from_end : (n : ℕ) (xs : List A) → length xs ≤ n → slice_from n xs ≡ []
  unfolding slice_from length
  slice_from_end n [] h = slice_from-[] n
  slice_from_end zero (x ∷ xs) h = elim (too_long (length xs) h) [ ]
  slice_from_end (suc n) (x ∷ xs) h = slice_from_end n xs (omega arith)

  -- The slices of `size` at each of the starts, one after the other.
  unfoldable pub slices : ℕ → List A → List ℕ → List A
  unfolding slice_to slice_from
  slices size xs [] = []
  slices size xs (start ∷ starts) = slice_to size (slice_from start xs) ++ slices size xs starts

  pub slices-range_from :
      (fuel start size : ℕ) (xs : List A)
      → ltb 0 size ≡ true
      → length xs ≤ fuel + start
      → slices size xs (range_from fuel start (length xs) size) ≡ slice_from start xs
  unfolding slices range_from
  slices-range_from zero start size xs pos enough = sym (slice_from_end start xs (omega arith))
  slices-range_from (suc fuel) start size xs pos enough =
      elim (Bool-cases (ltb start (length xs))) [
        | inl more ↦ rw more (
            rw (slices-range_from fuel (start + size) size xs pos (ground arith))
              (rw (← slice_from-slice_from start size xs) (cut size (slice_from start xs))))
        | inr done ↦ rw done (sym (slice_from_end start xs (ground arith)))
      ]

empty_range : (fuel start stop step : ℕ) → stop ≤ start → range_from fuel start stop step ≡ []
unfolding range_from
empty_range zero start stop step h = refl
empty_range (suc fuel) start stop step h = ground arith

-- A range with a step above 0 is the same on any two fuels that are at least the distance of its ends: the
-- loop has ended before either is used up.
range_from_enough :
    (fuel other start stop step : ℕ)
    → ltb 0 step ≡ true
    → stop ≤ fuel + start
    → stop ≤ other + start
    → range_from fuel start stop step ≡ range_from other start stop step
unfolding range_from
range_from_enough zero other start stop step pos h k =
    sym (empty_range other start stop step (omega arith))
range_from_enough (suc fuel) zero start stop step pos h k =
    empty_range (suc fuel) start stop step (omega arith)
range_from_enough (suc fuel) (suc other) start stop step pos h k =
    elim (Bool-cases (ltb start stop)) [
      | inl more ↦ rw more (
          ap (λ r. start ∷ r)
            (range_from_enough fuel other (start + step) stop step pos (ground arith)
              (ground arith)))
      | inr done ↦ rw done refl
    ]
