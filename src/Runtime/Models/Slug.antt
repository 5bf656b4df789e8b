-- ===== src/Runtime/Models/Slug.antt =====
-- `slug_id` of runtime/models.py, over texts as lists of characters. `casefold` is Python's.
pub mod Alphabet
pub mod Nonempty
use Prim.Native.Char.{Char, code}
use skill_centric_agent_syst.Base.{
  ℕ, zero, suc, ◌/◌, ◌%◌, String, Bool, true, false, ◌&&◌, ◌||◌, if◌then◌else◌, leb, ltb, join,
  take, count, begins, dash_runs, squeeze, strip_by, is_dash, all_of,
}

abbrev pub is_letter : Char → Bool
is_letter c = leb 97 (code c) && leb (code c) 122

abbrev pub is_digit : Char → Bool
is_digit c = leb 48 (code c) && leb (code c) 57

-- `[a-z0-9]`
abbrev pub is_plain : Char → Bool
is_plain c = is_letter c || is_digit c

-- `slug or "item"`, and a letter in front
unfoldable pub lead : String → String
unfolding join
lead String.[] = "item"
lead (String.◌∷◌ c s) = if is_letter c then String.◌∷◌ c s else join "id-" (String.◌∷◌ c s)

-- `if prefix and not slug.startswith(prefix + "-"): slug = f"{prefix}-{slug}"`
unfoldable pub with_prefix : String → String → String
unfolding begins join
with_prefix String.[] slug = slug
with_prefix (String.◌∷◌ c p) slug =
    let head = join (String.◌∷◌ c p) "-" in if begins head slug then slug else join head slug

-- `slug_id(value, prefix=prefix)`, with the default `max_length`; no prefix is the empty one
unfoldable pub slug_id : (String → String) → String → String → String
unfolding dash_runs squeeze strip_by lead with_prefix take
slug_id casefold prefix value = strip_by is_dash (
    take 96 (
      with_prefix prefix
        (lead (squeeze false (strip_by is_dash (dash_runs is_plain false (casefold value)))))))

abbrev digit : ℕ → Char
digit zero = "0"
digit (suc zero) = "1"
digit (suc (suc zero)) = "2"
digit (suc (suc (suc zero))) = "3"
digit (suc (suc (suc (suc zero)))) = "4"
digit (suc (suc (suc (suc (suc zero))))) = "5"
digit (suc (suc (suc (suc (suc (suc zero)))))) = "6"
digit (suc (suc (suc (suc (suc (suc (suc zero))))))) = "7"
digit (suc (suc (suc (suc (suc (suc (suc (suc zero)))))))) = "8"
digit _ = "9"

decimal_from : ℕ → ℕ → String → String
decimal_from zero n acc = acc
decimal_from (suc fuel) n acc =
    let now = String.◌∷◌ (digit (n % 10)) acc in
    let more = decimal_from fuel (n / 10) now in if ltb n 10 then now else more

-- `str(n)`: a number has at most as many digits as it counts, and one more
unfoldable pub decimal : ℕ → String
unfolding decimal_from
decimal n = decimal_from (suc n) n String.[]
