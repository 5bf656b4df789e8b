-- ===== src/Base/Texts.antt =====
-- Texts as lists of characters: what the code does with `+`, slices, `in`, `startswith`, `strip` and
-- `re.sub` of a class of characters.
use Prim.Native.Nat.{ℕ, zero, suc, ◌+◌, ◌≤◌}
use Prim.Native.Char.{Char, code}
use Prim.Native.String.{String}
use mathlib.Core.Path.{◌≡◌, refl}
use mathlib.Core.Logic.{inl, inr}
use mathlib.Core.Bool.{Bool, true, false, ◌&&◌, ◌||◌}
use mathlib.Core.Option.{Option, none, some}
use mathlib.Core.List.{List, [], ◌∷◌}
use native.Mathlib.Omega.{arith}
use skill_centric_agent_syst.Base.Tests.{if◌then◌else◌, nat_eq, Bool-cases}

-- `s + t`
unfoldable pub join : String → String → String
join String.[] t = t
join (String.◌∷◌ c s) t = String.◌∷◌ c (join s t)

unfoldable pub reverse_onto : String → String → String
reverse_onto acc String.[] = acc
reverse_onto acc (String.◌∷◌ c s) = reverse_onto (String.◌∷◌ c acc) s

-- `s[:n]`
unfoldable pub take : ℕ → String → String
take zero s = String.[]
take (suc n) String.[] = String.[]
take (suc n) (String.◌∷◌ c s) = String.◌∷◌ c (take n s)

-- `len(s)`
unfoldable pub count : String → ℕ
count String.[] = 0
count (String.◌∷◌ c s) = suc (count s)

-- `s.startswith(p)`
unfoldable pub begins : String → String → Bool
begins String.[] s = true
begins (String.◌∷◌ c p) String.[] = false
begins (String.◌∷◌ c p) (String.◌∷◌ d s) = nat_eq (code c) (code d) && begins p s

-- The rest of a text after a head, where it begins with that.
unfoldable pub after_head : String → String → Option String
after_head String.[] s = some s
after_head (String.◌∷◌ c p) String.[] = none
after_head (String.◌∷◌ c p) (String.◌∷◌ d s) =
    let rest = after_head p s in if nat_eq (code c) (code d) then rest else none

-- `p in s`
unfoldable pub occurs : String → String → Bool
unfolding begins
occurs p String.[] = begins p String.[]
occurs p (String.◌∷◌ c s) = let later = occurs p s in begins p (String.◌∷◌ c s) || later

-- `sep.join(xs)`
unfoldable pub join_with : String → List String → String
unfolding join
join_with sep [] = String.[]
join_with sep (x ∷ []) = x
join_with sep (x ∷ y ∷ rest) = join x (join sep (join_with sep (y ∷ rest)))

-- `any(p in s for p in ps)`
unfoldable pub any_in : String → List String → Bool
unfolding occurs
any_in s [] = false
any_in s (p ∷ ps) = let later = any_in s ps in occurs p s || later

unfoldable pub drop_while : (Char → Bool) → String → String
drop_while p String.[] = String.[]
drop_while p (String.◌∷◌ c s) = if p c then drop_while p s else String.◌∷◌ c s

-- `s.strip(chars)`
unfoldable pub strip_by : (Char → Bool) → String → String
unfolding drop_while reverse_onto
strip_by p s = reverse_onto String.[] (drop_while p (reverse_onto String.[] (drop_while p s)))

abbrev pub dash : Char
dash = "-"

abbrev pub is_dash : Char → Bool
is_dash c = nat_eq (code c) 45

-- `re.sub(r"[^…]+", "-", s)` of the characters outside of a class; the flag tells that the last
-- character was part of a run
unfoldable pub dash_runs : (Char → Bool) → Bool → String → String
dash_runs p in_run String.[] = String.[]
dash_runs p in_run (String.◌∷◌ c s) =
    let plain = String.◌∷◌ c (dash_runs p false s) in
    let rest = dash_runs p true s in
    if p c then plain else if in_run then rest else String.◌∷◌ dash rest

-- `re.sub(r"-+", "-", s)`
unfoldable pub squeeze : Bool → String → String
squeeze after_dash String.[] = String.[]
squeeze after_dash (String.◌∷◌ c s) =
    let other = String.◌∷◌ c (squeeze false s) in
    let rest = squeeze true s in
    if is_dash c then (if after_dash then rest else String.◌∷◌ c rest) else other

-- Every character is of a class.
unfoldable pub all_of : (Char → Bool) → String → Bool
all_of p String.[] = true
all_of p (String.◌∷◌ c s) = p c && all_of p s

module _ (p : Char → Bool) where
  pub all_of-join : (s t : String) → all_of p (join s t) ≡ (all_of p s && all_of p t)
  unfolding all_of join
  all_of-join String.[] t = refl
  all_of-join (String.◌∷◌ c s) t = ground (arith, all_of-join s t)

  all_of-reverse_onto :
      (acc s : String) → all_of p (reverse_onto acc s) ≡ (all_of p acc && all_of p s)
  unfolding all_of reverse_onto
  all_of-reverse_onto acc String.[] = ground arith
  all_of-reverse_onto acc (String.◌∷◌ c s) =
      ground (arith, all_of-reverse_onto (String.◌∷◌ c acc) s)

  pub all_of-take : (n : ℕ) (s : String) → all_of p s ≡ true → all_of p (take n s) ≡ true
  unfolding all_of take
  all_of-take zero s h = refl
  all_of-take (suc n) String.[] h = refl
  all_of-take (suc n) (String.◌∷◌ c s) h = ground (arith, all_of-take n s)

  all_of-drop_while :
      (q : Char → Bool) (s : String) → all_of p s ≡ true → all_of p (drop_while q s) ≡ true
  unfolding all_of drop_while
  all_of-drop_while q String.[] h = refl
  all_of-drop_while q (String.◌∷◌ c s) h = ground (arith, all_of-drop_while q s)

  reversed : (s : String) → all_of p s ≡ true → all_of p (reverse_onto String.[] s) ≡ true
  unfolding all_of
  reversed s h = rw (all_of-reverse_onto, h) refl

  pub all_of-strip_by :
      (q : Char → Bool) (s : String) → all_of p s ≡ true → all_of p (strip_by q s) ≡ true
  unfolding strip_by
  all_of-strip_by q s h = reversed _ (all_of-drop_while q _ (reversed _ (all_of-drop_while q s h)))

  pub all_of-squeeze : (b : Bool) (s : String) → all_of p s ≡ true → all_of p (squeeze b s) ≡ true
  unfolding all_of squeeze
  all_of-squeeze b String.[] h = refl
  all_of-squeeze b (String.◌∷◌ c s) h =
      ground (arith, all_of-squeeze true s, all_of-squeeze false s)

-- A wider class that has the dash covers what `re.sub` leaves.
pub all_of-dash_runs :
    (p q : Char → Bool) (b : Bool) (s : String)
    → ((c : Char) → p c ≡ true → q c ≡ true)
    → q dash ≡ true
    → all_of q (dash_runs p b s) ≡ true
unfolding all_of dash_runs
all_of-dash_runs p q b String.[] w d = refl
all_of-dash_runs p q b (String.◌∷◌ c s) w d = elim (Bool-cases (p c)) [
  | inl plain ↦ rw plain (rw (w c plain) (all_of-dash_runs p q false s w d))
  | inr other ↦ rw other (ground (arith, all_of-dash_runs p q true s w d))
]

pub count-take : (n : ℕ) (s : String) → count (take n s) ≤ n
unfolding count take
count-take zero s = omega arith
count-take (suc n) String.[] = omega arith
count-take (suc n) (String.◌∷◌ c s) = omega (arith, count-take n s)

count-reverse_onto : (acc s : String) → count (reverse_onto acc s) ≡ count acc + count s
unfolding count reverse_onto
count-reverse_onto acc String.[] = omega arith
count-reverse_onto acc (String.◌∷◌ c s) = ground (arith, count-reverse_onto (String.◌∷◌ c acc) s)

count-drop_while : (q : Char → Bool) (s : String) → count (drop_while q s) ≤ count s
unfolding count drop_while
count-drop_while q String.[] = omega arith
count-drop_while q (String.◌∷◌ c s) = ground (arith, count-drop_while q s)

pub count-strip_by : (q : Char → Bool) (s : String) → count (strip_by q s) ≤ count s
unfolding strip_by count
count-strip_by q s = omega (
  arith,
  count-reverse_onto String.[] (drop_while q s),
  count-drop_while q s,
  count-reverse_onto String.[] (drop_while q (reverse_onto String.[] (drop_while q s))),
  count-drop_while q (reverse_onto String.[] (drop_while q s)),
)
