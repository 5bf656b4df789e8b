-- ===== src/Base/Order.antt =====
-- Orders as three-way comparisons: numbers, texts by code points as Python compares them, and
-- tuples; and the sort that goes by one.
use Prim.Native.Nat.{ℕ, compare, Ordering}
use Prim.Native.Char.{code}
use Prim.Native.String.{String}
use mathlib.Core.Path.{◌≡◌, refl}
use mathlib.Core.Bool.{Bool, true, false}
use mathlib.Core.List.{List, [], ◌∷◌}
use native.Mathlib.Omega.{arith}
use skill_centric_agent_syst.Base.Values.{ℤ, pos, negsuc}

-- The code points of a text.
abbrev pub codes : String → List ℕ
codes String.[] = []
codes (String.◌∷◌ c s) = code c ∷ codes s

abbrev pub flip : Ordering → Ordering
flip Ordering.lt = Ordering.gt
flip Ordering.eq = Ordering.eq
flip Ordering.gt = Ordering.lt

-- The first difference decides.
abbrev pub then_by : Ordering → Ordering → Ordering
then_by Ordering.lt o = Ordering.lt
then_by Ordering.eq o = o
then_by Ordering.gt o = Ordering.gt

abbrev pub not_gt : Ordering → Bool
not_gt Ordering.gt = false
not_gt _ = true

unfoldable pub compare_lists : List ℕ → List ℕ → Ordering
compare_lists [] [] = Ordering.eq
compare_lists [] (y ∷ ys) = Ordering.lt
compare_lists (x ∷ xs) [] = Ordering.gt
compare_lists (x ∷ xs) (y ∷ ys) = then_by (compare x y) (compare_lists xs ys)

unfoldable pub compare_texts : String → String → Ordering
unfolding compare_lists
compare_texts s t = compare_lists (codes s) (codes t)

-- `s <= t`
unfoldable pub text_le : String → String → Bool
unfolding compare_texts
text_le s t = not_gt (compare_texts s t)

unfoldable pub compare_int : ℤ → ℤ → Ordering
compare_int (pos a) (pos b) = compare a b
compare_int (pos a) (negsuc b) = Ordering.gt
compare_int (negsuc a) (pos b) = Ordering.lt
compare_int (negsuc a) (negsuc b) = compare b a

-- What a comparison has to satisfy for a sort by it to mean anything.
pub record IsOrder {A : Type 0} (cmp : A → A → Ordering) : Type 0 where
  pub flipped : (a b : A) → cmp b a ≡ flip (cmp a b)
  pub lt_trans : (a b c : A) → cmp a b ≡ Ordering.lt → cmp b c ≡ Ordering.lt → cmp a c ≡ Ordering.lt
  pub eq_left : (a b c : A) → cmp a b ≡ Ordering.eq → cmp a c ≡ cmp b c

compare-flip : (a b : ℕ) → compare b a ≡ flip (compare a b)
compare-flip a b = ground arith

pub ℕ-IsOrder : IsOrder compare
ℕ-IsOrder = record {
  flipped = λ a b. ground arith;
  lt_trans = λ a b c h k. ground arith;
  eq_left = λ a b c h. ground arith;
}

lists_flip : (xs ys : List ℕ) → compare_lists ys xs ≡ flip (compare_lists xs ys)
unfolding compare_lists
lists_flip [] [] = refl
lists_flip [] (y ∷ ys) = refl
lists_flip (x ∷ xs) [] = refl
lists_flip (x ∷ xs) (y ∷ ys) = ground (arith, lists_flip xs ys)

lists_eq :
    (xs ys zs : List ℕ)
    → compare_lists xs ys ≡ Ordering.eq
    → compare_lists xs zs ≡ compare_lists ys zs
unfolding compare_lists
lists_eq [] [] zs h = refl
lists_eq [] (y ∷ ys) zs h = cc
lists_eq (x ∷ xs) [] zs h = cc
lists_eq (x ∷ xs) (y ∷ ys) [] h = refl
lists_eq (x ∷ xs) (y ∷ ys) (z ∷ zs) h = ground (arith, lists_eq xs ys zs)

lists_lt :
    (xs ys zs : List ℕ)
    → compare_lists xs ys ≡ Ordering.lt
    → compare_lists ys zs ≡ Ordering.lt
    → compare_lists xs zs ≡ Ordering.lt
unfolding compare_lists
lists_lt [] [] zs h k = cc
lists_lt [] (y ∷ ys) [] h k = cc
lists_lt [] (y ∷ ys) (z ∷ zs) h k = refl
lists_lt (x ∷ xs) [] zs h k = cc
lists_lt (x ∷ xs) (y ∷ ys) [] h k = cc
lists_lt (x ∷ xs) (y ∷ ys) (z ∷ zs) h k = ground (arith, lists_lt xs ys zs, lists_eq xs ys zs)

pub texts-IsOrder : IsOrder compare_texts
unfolding compare_texts
texts-IsOrder = record {
  flipped = λ a b. lists_flip (codes a) (codes b);
  lt_trans = λ a b c. lists_lt (codes a) (codes b) (codes c);
  eq_left = λ a b c. lists_eq (codes a) (codes b) (codes c);
}

pub int-IsOrder : IsOrder compare_int
unfolding compare_int
int-IsOrder = record {
  flipped = λ a b. ground arith;
  lt_trans = λ a b c h k. ground arith;
  eq_left = λ a b c h. ground arith;
}

module _ {A B : Type 0} where
  -- By a part of the value.
  pub by-IsOrder :
      (cmp : B → B → Ordering) (f : A → B) → IsOrder cmp → IsOrder (λ a b. cmp (f a) (f b))
  by-IsOrder cmp f o = record {
    flipped = λ a b. o.flipped (f a) (f b);
    lt_trans = λ a b c. o.lt_trans (f a) (f b) (f c);
    eq_left = λ a b c. o.eq_left (f a) (f b) (f c);
  }

module _ {A : Type 0} (cmp : A → A → Ordering) (o : IsOrder cmp) where
  eq_right : (a b c : A) → cmp a b ≡ Ordering.eq → cmp c a ≡ cmp c b
  eq_right a b c h = ground (arith, o.flipped a c, o.flipped b c, o.eq_left a b c)

  -- From the highest.
  pub down-IsOrder : IsOrder (λ a b. cmp b a)
  down-IsOrder = record {
    flipped = λ a b. o.flipped b a;
    lt_trans = λ a b c h k. o.lt_trans c b a k h;
    eq_left = λ a b c h. eq_right a b c (ground (arith, o.flipped a b));
  }

  pub le_total : (a b : A) → not_gt (cmp a b) ≡ false → not_gt (cmp b a) ≡ true
  le_total a b h = ground (arith, o.flipped a b)

  pub le_trans :
      (a b c : A) → not_gt (cmp a b) ≡ true → not_gt (cmp b c) ≡ true → not_gt (cmp a c) ≡ true
  le_trans a b c h k = ground (arith, o.lt_trans a b c, o.eq_left a b c, eq_right b c a)

  -- Where the first comparison finds no difference the second decides.
  pub lex-IsOrder :
      (cmp' : A → A → Ordering) → IsOrder cmp' → IsOrder (λ a b. then_by (cmp a b) (cmp' a b))
  lex-IsOrder cmp' o' = record {
    flipped = λ a b. ground (arith, o.flipped a b, o'.flipped a b);
    lt_trans = λ a b c h k.
        ground (arith, o.lt_trans a b c, o.eq_left a b c, eq_right b c a, o'.lt_trans a b c);
    eq_left = λ a b c h. ground (arith, o.eq_left a b c, o'.eq_left a b c);
  }
