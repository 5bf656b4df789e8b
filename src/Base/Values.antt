-- ===== src/Base/Values.antt =====
-- JSON values, and what the code asks of one: `isinstance`, `d.get`, equality, `str(…)`, `int(…)`.
use Prim.Native.Nat.{ℕ, zero}
use Prim.Native.Char.{Char, code}
use Prim.Native.String.{String}
use mathlib.Core.Bool.{Bool, true, false, not, ◌&&◌, ◌||◌}
use mathlib.Core.Option.{Option, none, some}
use mathlib.Core.List.{List, [], ◌∷◌}
use skill_centric_agent_syst.Base.Tests.{◌==◌, if◌then◌else◌, ltb, leb, nat_eq}

-- `negsuc n` is -(n + 1).
pub data ℤ : Type 0 where
  pos : ℕ → ℤ
  negsuc : ℕ → ℤ

-- `a > b` for a counter `a`
abbrev pub exceeds : ℕ → ℤ → Bool
exceeds a (pos b) = ltb b a
exceeds a (negsuc b) = true

-- `a > b`
abbrev pub gt : ℤ → ℤ → Bool
gt (pos a) b = exceeds a b
gt (negsuc a) (pos b) = false
gt (negsuc a) (negsuc b) = ltb a b

mutual
  pub data Json : Type 0 where
    null : Json
    bool : Bool → Json
    int : ℤ → Json
    float : String → Json
    str : String → Json
    arr : Items → Json
    obj : Fields → Json

  pub data Items : Type 0 where
    nil : Items
    cons : Json → Items → Items

  pub data Fields : Type 0 where
    end : Fields
    field : String → Json → Fields → Fields

abbrev pub elements : Items → List Json
elements nil = []
elements (cons v vs) = v ∷ elements vs

abbrev pub text_items : List String → Items
text_items [] = nil
text_items (x ∷ rest) = cons (str x) (text_items rest)

-- A list of texts, as a JSON array.
abbrev pub texts : List String → Json
texts xs = arr (text_items xs)

-- A JSON object of pairs.
abbrev pub object : List (String × Json) → Fields
object [] = end
object ((k, v) ∷ d) = field k v (object d)

abbrev pub find : String → Fields → Json
find k end = null
find k (field j v fs) = if k == j then v else find k fs

abbrev pub has_key : String → Fields → Bool
has_key k end = false
has_key k (field j v fs) = (k == j) || has_key k fs

-- `isinstance(v, Mapping)`
abbrev pub as_mapping : Json → Option Fields
as_mapping (obj fs) = some fs
as_mapping _ = none

-- `isinstance(v, list)`
abbrev pub as_list : Json → Option (List Json)
as_list (arr vs) = some (elements vs)
as_list _ = none

abbrev pub as_text : Json → Option String
as_text (str s) = some s
as_text _ = none

-- What Python's built-in types do outside of texts, booleans and integers.
pub record Builtins : Type 0 where
  -- `str(v)` of a number, a list or a dict
  pub str_other : Json → String
  -- `v == w` of values that are not both texts or null
  pub eq_other : Json → Json → Bool
  -- whether a float is zero
  pub is_zero : String → Bool
  -- `int(v)` of a text, a float or a container; `none` where it raises
  pub int_other : Json → Option ℤ

module _ (py : Builtins) where
  -- `str(v)`
  unfoldable pub to_str : Json → String
  to_str null = "None"
  to_str (bool true) = "True"
  to_str (bool false) = "False"
  to_str (str s) = s
  to_str v = py.str_other v

  -- `v == w`
  unfoldable pub same : Json → Json → Bool
  same (str s) (str t) = s == t
  same (str s) null = false
  same null (str t) = false
  same null null = true
  same v w = py.eq_other v w

  -- `bool(v)`
  unfoldable pub truthy : Json → Bool
  truthy null = false
  truthy (bool b) = b
  truthy (int (pos zero)) = false
  truthy (int n) = true
  truthy (float s) = not (py.is_zero s)
  truthy (str String.[]) = false
  truthy (str s) = true
  truthy (arr nil) = false
  truthy (arr vs) = true
  truthy (obj end) = false
  truthy (obj fs) = true

  -- `int(v)`
  unfoldable pub to_int : Json → Option ℤ
  to_int (bool true) = some (pos 1)
  to_int (bool false) = some (pos 0)
  to_int (int n) = some n
  to_int null = none
  to_int v = py.int_other v

-- `str.isspace` of one character
unfoldable pub is_space : Char → Bool
is_space c =
    let n = code c in
    (leb 9 n && leb n 13)
    || (leb 28 n && leb n 32)
    || nat_eq n 133
    || nat_eq n 160
    || nat_eq n 5760
    || (leb 8192 n && leb n 8202)
    || nat_eq n 8232
    || nat_eq n 8233
    || nat_eq n 8239
    || nat_eq n 8287
    || nat_eq n 12288

-- `not s.strip()`
unfoldable pub is_blank : String → Bool
unfolding is_space
is_blank String.[] = true
is_blank (String.◌∷◌ c s) = is_space c && is_blank s
