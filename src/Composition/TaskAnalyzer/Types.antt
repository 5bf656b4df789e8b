-- ===== src/Composition/TaskAnalyzer/Types.antt =====
-- composition/task_analyzer.py: the data of an analysis, and the text helpers that its parts share.
use Prim.Native.Char.{Char, code}
use skill_centric_agent_syst.Base.{
  String, Bool, true, false, ◌&&◌, ◌||◌, Option, List, [], ◌∷◌, if◌then◌else◌, leb, nat_eq, member,
  join, take, dash_runs, squeeze, strip_by, all_of, is_space, is_dash,
}

pub data RiskLevel : Type 0 where
  low medium high critical : RiskLevel

pub data Confidence : Type 0 where
  high medium low : Confidence

pub record AuthClaims : Type 0 where
  pub principal_id : String
  pub principal_type : String
  pub roles : List String
  pub authorization_policies : List String
  pub control_plane_principal_kind : String
  pub control_plane_principal_id : String
  pub display_name : Option String
  pub tenant_id : String
  pub area_id : String
  pub tenant_hostname : Option String
  pub membership_id : Option String
  pub role_data_sources : List String
  pub role_capabilities : List String

pub record TaskClassification : Type 0 where
  pub task_type : String
  pub confidence : Confidence
  pub reasons : List String
  pub ambiguous_task_types : List String
  pub requires_human_review : Bool

pub record AnalyzedTask : Type 0 where
  pub task_id : String
  pub task_type : String
  pub objective : String
  pub risk_level : RiskLevel
  pub domains : List String
  pub required_inputs : List String
  pub available_inputs : List String
  pub capability_hints : List String
  pub constraints : List String
  pub missing_information : List String
  pub auth_claims : AuthClaims
  pub classification_confidence : Confidence
  pub classification_reasons : List String
  pub ambiguous_task_types : List String
  pub requires_human_review : Bool

-- `s.strip()`
unfoldable pub strip : String → String
unfolding strip_by is_space
strip s = strip_by is_space s

abbrev pub is_empty_text : String → Bool
is_empty_text String.[] = true
is_empty_text (String.◌∷◌ c s) = false

-- The loop of `_dedupe`, with the texts seen so far.
unfoldable pub dedupe_from : List String → List String → List String
unfolding strip member
dedupe_from seen [] = []
dedupe_from seen (v ∷ vs) =
    let normalized = strip v in
    let skip = dedupe_from seen vs in
    let fresh = normalized ∷ dedupe_from (normalized ∷ seen) vs in
    if is_empty_text normalized || member normalized seen then skip else fresh

-- `_dedupe`
unfoldable pub dedupe : List String → List String
unfolding dedupe_from
dedupe values = dedupe_from [] values

abbrev pub is_lower : Char → Bool
is_lower c = leb 97 (code c) && leb (code c) 122

-- `[a-z0-9]`
abbrev pub is_plain : Char → Bool
is_plain c = is_lower c || (leb 48 (code c) && leb (code c) 57)

-- `[a-z0-9_-]`
abbrev pub is_id_char : Char → Bool
is_id_char c = is_plain c || nat_eq (code c) 95 || is_dash c

-- The characters that `strip("-_")` takes away.
abbrev pub is_mark : Char → Bool
is_mark c = is_dash c || nat_eq (code c) 95

-- `_is_id`
unfoldable pub is_id : String → Bool
unfolding all_of
is_id String.[] = false
is_id (String.◌∷◌ c s) = is_lower c && all_of is_id_char s

-- `_slugify` once the text is squeezed
unfoldable pub cut_slug : String → String
unfolding join take strip_by
cut_slug String.[] = "task"
cut_slug (String.◌∷◌ c s) =
    let slug = if is_lower c then String.◌∷◌ c s else join "id-" (String.◌∷◌ c s) in
    strip_by is_mark (take 80 slug)

-- `_slugify`
unfoldable pub slugify : (String → String) → String → String
unfolding cut_slug dash_runs squeeze strip_by
slugify casefold value =
    cut_slug (squeeze false (strip_by is_mark (dash_runs is_id_char false (casefold value))))
