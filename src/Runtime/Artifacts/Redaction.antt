-- ===== src/Runtime/Artifacts/Redaction.antt =====
-- runtime/artifacts.py: `redact_sensitive_data`. A payload is a JSON value: its keys are texts, so the
-- dictionary that the code builds has the keys of the payload, in their order.
use Prim.Native.Char.{code}
use skill_centric_agent_syst.Base.{
  String, Bool, List, [], ◌∷◌, if◌then◌else◌, nat_eq, any_in, dash, Json, str, arr, obj, Items, nil,
  cons, Fields, end, field,
}

-- `re.sub` with each of the four patterns, in the order of their use.
pub record Patterns : Type 0 where
  pub private_key : String → String
  pub authorization_bearer : String → String
  pub bearer_token : String → String
  pub secret_assignment : String → String

abbrev pub redacted : String
redacted = "[REDACTED]"

abbrev pub sensitive_key_parts : List String
sensitive_key_parts =
    "authorization" ∷ "api-key" ∷ "api_key" ∷ "apikey" ∷ "password" ∷ "private-key" ∷ "private_key"
    ∷ "secret" ∷ "ssh-key" ∷ "ssh_key" ∷ "token" ∷ []

-- `text.replace(" ", "-")`
unfoldable pub dashed : String → String
dashed String.[] = String.[]
dashed (String.◌∷◌ c s) = String.◌∷◌ (if nat_eq (code c) 32 then dash else c) (dashed s)

module _ (patterns : Patterns) (casefold : String → String) where
  -- `_is_sensitive_key`
  unfoldable pub is_sensitive_key : String → Bool
  unfolding dashed any_in
  is_sensitive_key key = any_in (dashed (casefold key)) sensitive_key_parts

  -- `_redact_sensitive_string`
  unfoldable pub redact_sensitive_string : String → String
  redact_sensitive_string value =
      patterns.secret_assignment
        (patterns.bearer_token (patterns.authorization_bearer (patterns.private_key value)))

  unfoldable mutual
    -- `redact_sensitive_data`
    pub redact_sensitive_data : Json → Json
    redact_sensitive_data (obj fs) = obj (redact_fields fs)
    redact_sensitive_data (arr vs) = arr (redact_items vs)
    redact_sensitive_data (str s) = str (redact_sensitive_string s)
    redact_sensitive_data v = v

    pub redact_items : Items → Items
    redact_items nil = nil
    redact_items (cons v vs) = cons (redact_sensitive_data v) (redact_items vs)

    pub redact_fields : Fields → Fields
    redact_fields end = end
    redact_fields (field k v fs) =
        let nested = redact_sensitive_data v in
        field k (if is_sensitive_key k then str redacted else nested) (redact_fields fs)
