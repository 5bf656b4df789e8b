-- ===== src/Runtime/Models/Slug/Nonempty.antt =====
-- An identifier of runtime/models.py is never the empty text.
use Prim.Native.Char.{Char}
use skill_centric_agent_syst.Base.{
  String, ◌≡◌, refl, Bool, true, false, not, ◌||◌, arith, Bool-cases, inl, inr, join, take,
  reverse_onto, drop_while, strip_by, dash_runs, squeeze, is_dash,
}
use skill_centric_agent_syst.Runtime.Models.Slug.{slug_id, lead, with_prefix, is_letter, is_plain}

-- Some character is of a class.
any_of : (Char → Bool) → String → Bool
any_of p String.[] = false
any_of p (String.◌∷◌ c s) = p c || any_of p s

any_of-reverse_onto :
    (p : Char → Bool) (acc s : String)
    → any_of p (reverse_onto acc s) ≡ (any_of p acc || any_of p s)
unfolding any_of reverse_onto
any_of-reverse_onto p acc String.[] = ground arith
any_of-reverse_onto p acc (String.◌∷◌ c s) =
    ground (arith, any_of-reverse_onto p (String.◌∷◌ c acc) s)

abbrev other : Char → Bool
other c = not (is_dash c)

any_of-drop_while : (s : String) → any_of other (drop_while is_dash s) ≡ any_of other s
unfolding any_of drop_while
any_of-drop_while String.[] = refl
any_of-drop_while (String.◌∷◌ c s) = ground (arith, any_of-drop_while s)

any_of-strip : (s : String) → any_of other (strip_by is_dash s) ≡ any_of other s
unfolding strip_by any_of
any_of-strip s =
    rw (any_of-reverse_onto, any_of-drop_while, any_of-reverse_onto, any_of-drop_while) refl

abbrev pub stated : String → Bool
stated String.[] = false
stated (String.◌∷◌ c s) = true

stated-any_of : (s : String) → any_of other s ≡ true → stated s ≡ true
unfolding any_of
stated-any_of String.[] h = h
stated-any_of (String.◌∷◌ c s) h = refl

letter-other : (c : Char) → is_letter c ≡ true → other c ≡ true
letter-other c h = ground arith

any_of-lead : (s : String) → any_of other (take 96 (lead s)) ≡ true
unfolding lead any_of take join
any_of-lead String.[] = refl
any_of-lead (String.◌∷◌ c s) = elim (Bool-cases (is_letter c)) [
  | inl l ↦ rw l (rw (letter-other c l) refl)
  | inr o ↦ rw o refl
]

-- Without a prefix an identifier has a character.
pub slug_id-stated :
    (casefold : String → String) (value : String) → stated (slug_id casefold "" value) ≡ true
unfolding slug_id with_prefix
slug_id-stated casefold value = stated-any_of _ (
    rw (any_of-strip)
      (any_of-lead (squeeze false (strip_by is_dash (dash_runs is_plain false (casefold value))))))
