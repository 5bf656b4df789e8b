-- ===== src/Examples/Artifacts.antt =====
-- Payloads that runtime/artifacts.py redacts, writes and chunks.
use Prim.Native.Char.{code}
use skill_centric_agent_syst.Base.{
  ℕ, zero, suc, String, ◌≡◌, ◌≢◌, refl, ap, ◌∙◌, sym, Bool, true, false, some, List, [], ◌∷◌,
  nat_eq, Json, int, pos, str, obj, field, end, insert, count,
}
use skill_centric_agent_syst.Runtime.Artifacts.Redaction.{
  Patterns, redacted, redact_sensitive_data, is_sensitive_key, redact_sensitive_string,
}
use skill_centric_agent_syst.Runtime.Artifacts.Secrecy.{Hop, key, reach, Shows, reach-Shows}
use skill_centric_agent_syst.Runtime.Artifacts.Chunks.{Files, dump, write_chunked_text, length}
use skill_centric_agent_syst.Runtime.Artifacts.Reassembly.{
  reassemble, reassemble-write_chunked_text,
}
use skill_centric_agent_syst.Runtime.Artifacts.Writing.{
  ArtifactStore, relative_path, json_parts, posix, uri_for, write_json,
}
use skill_centric_agent_syst.Runtime.Artifacts.Short.{is_short, cleaned, write_json_short}
use skill_centric_agent_syst.Runtime.Models.Slug.{slug_id}

-- Patterns that match nothing.
abbrev no_match : Patterns
no_match = record {
  private_key = λ s. s;
  authorization_bearer = λ s. s;
  bearer_token = λ s. s;
  secret_assignment = λ s. s;
}

abbrev fold : String → String
fold s = s

abbrev payload : Json
payload = obj (field "note" (str "hello") (field "api_key" (str "k1") end))

abbrev shown : Json
shown = obj (field "note" (str "hello") (field "api_key" (str redacted) end))

redacts : redact_sensitive_data no_match fold payload ≡ shown
unfolding redact_sensitive_data is_sensitive_key redact_sensitive_string
redacts = refl

-- A count of tokens is taken for a secret.
count_is_hidden :
    redact_sensitive_data no_match fold (obj (field "reserved_tokens" (int (pos 5)) end))
    ≡ obj (field "reserved_tokens" (str redacted) end)
unfolding redact_sensitive_data is_sensitive_key
count_is_hidden = refl

abbrev to_key : List Hop
to_key = key "api_key" ∷ []

reach-Shows_example : Shows no_match fold to_key (reach to_key payload) (str redacted)
unfolding is_sensitive_key
reach-Shows_example =
    reach-Shows no_match fold to_key payload (str redacted)
      (unfold reach in unfold redact_sensitive_data in refl)

-- The name of a chunk, as many zeros as its index.
abbrev zeros : ℕ → String
zeros zero = String.[]
zeros (suc n) = String.◌∷◌ "0" (zeros n)

count-zeros : (n : ℕ) → count (zeros n) ≡ n
unfolding count
count-zeros zero = refl
count-zeros (suc n) = ap suc (count-zeros n)

distinct : (i j : ℕ) → zeros i ≡ zeros j → i ≡ j
distinct i j e = sym (count-zeros i) ∙ (ap count e ∙ count-zeros j)

abbrev starts_with_m : String → Bool
starts_with_m String.[] = false
starts_with_m (String.◌∷◌ c s) = nat_eq (code c) 109

not_m : (n : ℕ) → starts_with_m (zeros n) ≡ false
not_m zero = refl
not_m (suc n) = refl

no_manifest : (i : ℕ) → zeros i ≢ "manifest.json"
no_manifest i e = apart (sym (not_m i) ∙ ap starts_with_m e)
  where
    apart : false ≡ true → ⊥
    apart h = cc

abbrev bytes : List ℕ
bytes = 104 ∷ 105 ∷ 33 ∷ []

reassemble-write_chunked_text_example :
    (r : Json × Files) × (write_chunked_text "hetzner://runtime" zeros 2 "traces/chunks/note" bytes
        []
      ≡ some r)
    × (reassemble "hetzner://runtime" r.1 r.0 ≡ some bytes)
reassemble-write_chunked_text_example =
    reassemble-write_chunked_text "hetzner://runtime" zeros distinct 2 "traces/chunks/note" bytes
      no_manifest [] refl

abbrev codes : String → List ℕ
codes String.[] = []
codes (String.◌∷◌ c s) = code c ∷ codes s

abbrev pub artifacts : ArtifactStore
artifacts = record {
  uri_prefix = "hetzner://runtime";
  chunk_string_threshold_bytes = 64000;
  chunk_size_bytes = 32000;
  encode = codes;
  chunk_file = zeros;
  casefold = fold;
  patterns = no_match;
}

abbrev parts : List String
parts = "traces" ∷ "run-1" ∷ "state" ∷ []

write_json_short_example :
    write_json artifacts parts payload true []
    ≡ some (
      uri_for artifacts (json_parts artifacts parts),
      insert (posix artifacts parts) (dump (cleaned artifacts true payload)) [],
    )
unfolding slug_id is_sensitive_key redact_sensitive_string
write_json_short_example =
    write_json_short artifacts parts payload true [] "traces" ("run-1" ∷ "state" ∷ [])
      (unfold relative_path in refl)
      (unfold is_short in unfold redact_sensitive_data in unfold length in refl)
