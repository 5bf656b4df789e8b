-- ===== src/Base/Sorting.antt =====
-- `sorted(xs, key=…)` as a stable insertion sort by a comparison, and `sorted(set(xs))` of texts.
use mathlib.Core.Path.{◌≡◌, sym, subst}
use mathlib.Core.Bool.{Bool, true, false}
use mathlib.Core.Option.{Option, none, some}
use mathlib.Core.List.{List, [], ◌∷◌}
use mathlib.Core.Logic.{◌⊎◌, inl, inr}
use Prim.Native.String.{String}
use native.Mathlib.Omega.{arith}
use skill_centric_agent_syst.Base.Tests.{if◌then◌else◌, ◌==◌, eq_iff, eq_refl, Bool-cases}
use skill_centric_agent_syst.Base.Lists.{member, keep}
use skill_centric_agent_syst.Base.Order.{text_le}

module _ {A : Type 0} where
  -- Every element of the list has the property.
  abbrev pub All : (A → Type 0) → List A → Type 0
  All P [] = Unit {0}
  All P (x ∷ xs) = P x × All P xs

  -- Some element of the list has the property.
  abbrev pub Any : (A → Type 0) → List A → Type 0
  Any P [] = ⊥
  Any P (x ∷ xs) = P x ⊎ Any P xs

  pub Any-map : (P Q : A → Type 0) (xs : List A) → ((a : A) → P a → Q a) → Any P xs → Any Q xs
  Any-map P Q [] f h = h
  Any-map P Q (x ∷ xs) f (inl h) = inl (f x h)
  Any-map P Q (x ∷ xs) f (inr h) = inr (Any-map P Q xs f h)

  pub All-map : (P Q : A → Type 0) (xs : List A) → ((a : A) → P a → Q a) → All P xs → All Q xs
  All-map P Q [] f h = tt
  All-map P Q (x ∷ xs) f h = (f x h.0, All-map P Q xs f h.1)

  -- What is kept passed the test; and what holds of all that is kept holds of all that pass.
  pub All-keep :
      (P : A → Type 0) (p : A → Bool) (xs : List A)
      → All P xs
      → All (λ a. P a × (p a ≡ true)) (keep p xs)
  unfolding keep
  All-keep P p [] h = tt
  All-keep P p (x ∷ xs) h = elim (Bool-cases (p x)) [
    | inl yes_p ↦ rw yes_p ((h.0, yes_p), All-keep P p xs h.1)
    | inr no_p ↦ rw no_p (All-keep P p xs h.1)
  ]

  pub All-of_keep :
      (P : A → Type 0) (p : A → Bool) (xs : List A)
      → All P (keep p xs)
      → All (λ a. p a ≡ true → P a) xs
  unfolding keep
  All-of_keep P p [] = λ h. tt
  All-of_keep P p (x ∷ xs) = elim (Bool-cases (p x)) [
    | inl yes_p ↦ rw yes_p (λ h. ((λ _. h.0), All-of_keep P p xs h.1))
    | inr no_p ↦ rw no_p (λ h. ((λ q. cc), All-of_keep P p xs h))
  ]

  -- The first element that passes.
  unfoldable pub first_fit : (A → Bool) → List A → Option A
  first_fit p [] = none
  first_fit p (x ∷ xs) = if p x then some x else first_fit p xs

  pub first_fit-some :
      (P : A → Type 0) (p : A → Bool) (xs : List A) (a : A)
      → All P xs
      → first_fit p xs ≡ some a
      → P a × (p a ≡ true)
  unfolding first_fit
  first_fit-some P p [] a h e = cc
  first_fit-some P p (x ∷ xs) a h e = elim (Bool-cases (p x)) [
    | inl yes_p ↦
        (let same : x ≡ a = ground arith in (subst P same h.0, subst (λ y. p y ≡ true) same yes_p))
    | inr no_p ↦ first_fit-some P p xs a h.1 (ground arith)
  ]

  pub first_fit-none :
      (p : A → Bool) (xs : List A) → first_fit p xs ≡ none → All (λ a. p a ≡ false) xs
  unfolding first_fit
  first_fit-none p [] e = tt
  first_fit-none p (x ∷ xs) e = (ground arith, first_fit-none p xs (ground arith))

module _ {A : Type 0} (le : A → A → Bool) where
  unfoldable pub insert_sorted : A → List A → List A
  insert_sorted x [] = x ∷ []
  insert_sorted x (y ∷ ys) = if le x y then x ∷ y ∷ ys else y ∷ insert_sorted x ys

  unfoldable pub sort : List A → List A
  unfolding insert_sorted
  sort [] = []
  sort (x ∷ xs) = insert_sorted x (sort xs)

  All-insert_sorted :
      (P : A → Type 0) (x : A) (ys : List A) → P x → All P ys → All P (insert_sorted x ys)
  unfolding insert_sorted
  All-insert_sorted P x [] p h = (p, tt)
  All-insert_sorted P x (y ∷ ys) p h = elim (Bool-cases (le x y)) [
    | inl c ↦ rw c (p, h)
    | inr c ↦ rw c (h.0, All-insert_sorted P x ys p h.1)
  ]

  All-of_insert_sorted :
      (P : A → Type 0) (x : A) (ys : List A) → All P (insert_sorted x ys) → P x × All P ys
  unfolding insert_sorted
  All-of_insert_sorted P x [] = λ h. h
  All-of_insert_sorted P x (y ∷ ys) = elim (Bool-cases (le x y)) [
    | inl c ↦ rw c (λ h. h)
    | inr c ↦ rw c (λ h. let (px, pys) = All-of_insert_sorted P x ys h.1 in (px, (h.0, pys)))
  ]

  -- Sorting loses no element and makes none up.
  pub All-sort : (P : A → Type 0) (xs : List A) → All P xs → All P (sort xs)
  unfolding sort
  All-sort P [] h = tt
  All-sort P (x ∷ xs) h = All-insert_sorted P x (sort xs) h.0 (All-sort P xs h.1)

  pub All-of_sort : (P : A → Type 0) (xs : List A) → All P (sort xs) → All P xs
  unfolding sort
  All-of_sort P [] h = tt
  All-of_sort P (x ∷ xs) h =
      let (px, rest) = All-of_insert_sorted P x (sort xs) h in (px, All-of_sort P xs rest)

  abbrev pub IsSorted : List A → Type 0
  IsSorted [] = Unit {0}
  IsSorted (x ∷ xs) = All (λ y. le x y ≡ true) xs × IsSorted xs

  module _ (total : (a b : A) → le a b ≡ false → le b a ≡ true)
      (trans : (a b c : A) → le a b ≡ true → le b c ≡ true → le a c ≡ true) where
    insert_sorted-IsSorted : (x : A) (ys : List A) → IsSorted ys → IsSorted (insert_sorted x ys)
    unfolding insert_sorted
    insert_sorted-IsSorted x [] h = (tt, tt)
    insert_sorted-IsSorted x (y ∷ ys) h = elim (Bool-cases (le x y)) [
      | inl c ↦
          rw c
            ((c, All-map (λ z. le y z ≡ true) (λ z. le x z ≡ true) ys (λ z. trans x y z c) h.0), h)
      | inr c ↦ rw c (
        All-insert_sorted (λ z. le y z ≡ true) x ys (total x y c) h.0,
        insert_sorted-IsSorted x ys h.1,
      )
    ]

    pub sort-IsSorted : (xs : List A) → IsSorted (sort xs)
    unfolding sort
    sort-IsSorted [] = tt
    sort-IsSorted (x ∷ xs) = insert_sorted-IsSorted x (sort xs) (sort-IsSorted xs)

  -- In a sorted list the first that passes comes before every other that does.
  pub first_fit-least :
      (p : A → Bool) (xs : List A) (a : A)
      → IsSorted xs
      → first_fit p xs ≡ some a
      → All (λ b. p b ≡ true → (b ≡ a) ⊎ (le a b ≡ true)) xs
  unfolding first_fit
  first_fit-least p [] a s e = tt
  first_fit-least p (x ∷ xs) a s e = elim (Bool-cases (p x)) [
    | inl yes_p ↦
        (let same : x ≡ a = ground arith in
          (
            λ _. inl same,
            All-map (λ b. le x b ≡ true) (λ b. p b ≡ true → (b ≡ a) ⊎ (le a b ≡ true)) xs
                (λ b c _. inr (subst (λ y. le y b ≡ true) same c)) s.0,
          ))
    | inr no_p ↦ ((λ q. cc), first_fit-least p xs a s.1 (ground arith))
  ]

-- A repeated text is kept once.
unfoldable pub distinct : List String → List String
unfolding member
distinct [] = []
distinct (x ∷ xs) = let rest = distinct xs in if member x xs then rest else x ∷ rest

-- `sorted(set(xs))`
unfoldable pub sorted_set : List String → List String
unfolding sort
sorted_set xs = sort text_le (distinct xs)

pub All-member :
    (P : String → Type 0) (x : String) (xs : List String) → All P xs → member x xs ≡ true → P x
unfolding member
All-member P x [] h m = cc
All-member P x (y ∷ ys) h m = elim (Bool-cases (x == y)) [
  | inl same ↦ subst P (sym ((eq_iff x y).0 same)) h.0
  | inr other ↦ All-member P x ys h.1 (ground arith)
]

All-of_members :
    (P : String → Type 0) (xs : List String) → ((x : String) → member x xs ≡ true → P x) → All P xs
unfolding member
All-of_members P [] h = tt
All-of_members P (y ∷ ys) h =
    (h y (ground (arith, eq_refl y)), All-of_members P ys (λ x m. h x (ground (arith, m))))

All-distinct : (P : String → Type 0) (xs : List String) → All P xs → All P (distinct xs)
unfolding distinct
All-distinct P [] h = tt
All-distinct P (x ∷ xs) h = elim (Bool-cases (member x xs)) [
  | inl again ↦ rw again (All-distinct P xs h.1)
  | inr once ↦ rw once (h.0, All-distinct P xs h.1)
]

-- Sorting a set makes no element up.
pub member-sorted_set :
    (x : String) (xs : List String) → member x (sorted_set xs) ≡ true → member x xs ≡ true
unfolding sorted_set
member-sorted_set x xs =
    All-member (λ y. member y xs ≡ true) x _
      (All-sort text_le (λ y. member y xs ≡ true) (distinct xs)
        (All-distinct (λ y. member y xs ≡ true) xs
          (All-of_members (λ y. member y xs ≡ true) xs (λ y m. m))))
