-- ===== src/Runtime/Artifacts/Writing.antt =====
-- runtime/artifacts.py: `JsonArtifactStore.write_json`, with the chunks of its long texts.
use skill_centric_agent_syst.Base.{
  ℕ, suc, String, Bool, true, false, Option, none, some, List, [], ◌∷◌, ◌++◌, if◌then◌else◌, ◌==◌,
  leb, map, keep, join, join_with, insert, Json, str, arr, obj, Items, nil, cons, Fields, end,
  field,
}
use skill_centric_agent_syst.Runtime.Models.Slug.{slug_id, decimal}
use skill_centric_agent_syst.Runtime.Artifacts.Redaction.{Patterns, redact_sensitive_data}
use skill_centric_agent_syst.Runtime.Artifacts.Chunks.{
  Files, dump, length, path_in, write_chunked_text,
}

-- A store of artifacts: its settings, and what Python does for it. `chunk_file i` is the text `f"{i:04d}.txt"`.
pub record ArtifactStore : Type 0 where
  pub uri_prefix : String
  pub chunk_string_threshold_bytes : ℕ
  pub chunk_size_bytes : ℕ
  pub encode : String → List ℕ
  pub chunk_file : ℕ → String
  pub casefold : String → String
  pub patterns : Patterns

abbrev pub is_nonempty : String → Bool
is_nonempty String.[] = false
is_nonempty (String.◌∷◌ c s) = true

-- `s.removesuffix(".json")`
unfoldable pub without_json : String → String
without_json String.[] = String.[]
without_json (String.◌∷◌ c s) =
    let rest = String.◌∷◌ c (without_json s) in
    if String.◌∷◌ c s == ".json" then String.[] else rest

module _ (a : ArtifactStore) where
  abbrev slug : String → String
  slug part = slug_id a.casefold String.[] part

  -- `_field_path`, as posix text
  unfoldable pub field_path : List String → String
  unfolding join_with keep
  field_path parts = elim (keep is_nonempty parts) [
    | [] ↦ "root"
    | p ∷ ps ↦ join_with "/" (map slug (p ∷ ps))
  ]

  -- `_relative_path` of a sequence of texts, as the parts of the path without `.json`; it has none where
  -- the code returns `Path()`
  unfoldable pub relative_path : List String → List String
  unfolding keep without_json
  relative_path parts = map (λ part. slug (without_json part)) (keep is_nonempty parts)

  -- The directory of the chunks of a field.
  abbrev pub chunk_dir : String → List String → String
  chunk_dir base fields = path_in base (path_in "chunks" (field_path fields))

  unfoldable mutual
    -- `_chunk_large_strings_at`; `none` is the `ValueError` of a chunk size of 0
    pub chunk_large_strings_at : String → Json → List String → Files → Option (Json × Files)
    chunk_large_strings_at base (str s) fields files =
        let encoded = a.encode s in
        if leb (length encoded) a.chunk_string_threshold_bytes
        then some (str s, files)
        else write_chunked_text a.uri_prefix a.chunk_file a.chunk_size_bytes (chunk_dir base fields)
            encoded files
    chunk_large_strings_at base (obj fs) fields files = elim (chunk_fields base fs fields files) [
      | none ↦ none
      | some r ↦ some (obj r.0, r.1)
    ]
    chunk_large_strings_at base (arr vs) fields files = elim (chunk_items base vs 0 fields files) [
      | none ↦ none
      | some r ↦ some (arr r.0, r.1)
    ]
    chunk_large_strings_at base v fields files = some (v, files)

    pub chunk_fields : String → Fields → List String → Files → Option (Fields × Files)
    chunk_fields base end fields files = some (end, files)
    chunk_fields base (field k v fs) fields files =
        elim (chunk_large_strings_at base v (fields ++ (k ∷ [])) files) [
          | none ↦ none
          | some r ↦ elim (chunk_fields base fs fields r.1) [
            | none ↦ none
            | some q ↦ some (field k r.0 q.0, q.1)
          ]
        ]

    pub chunk_items : String → Items → ℕ → List String → Files → Option (Items × Files)
    chunk_items base nil i fields files = some (nil, files)
    chunk_items base (cons v vs) i fields files =
        elim (chunk_large_strings_at base v (fields ++ (decimal i ∷ [])) files) [
          | none ↦ none
          | some r ↦ elim (chunk_items base vs (suc i) fields r.1) [
            | none ↦ none
            | some q ↦ some (cons r.0 q.0, q.1)
          ]
        ]

  -- `path.as_posix()` of a path whose last part is a JSON file
  abbrev pub posix : List String → String
  posix parts = join (join_with "/" parts) ".json"

  -- The parts that `Path.parts` has of such a path.
  unfoldable pub json_parts : List String → List String
  unfolding join
  json_parts [] = []
  json_parts (p ∷ []) = join p ".json" ∷ []
  json_parts (p ∷ q ∷ ps) = p ∷ json_parts (q ∷ ps)

  -- `uri_for` of parts that `_relative_path` does not leave empty
  abbrev pub uri_for : List String → String
  uri_for parts = path_in a.uri_prefix (posix (relative_path parts))

  abbrev pub stored : List String → Option (Json × Files) → Option (String × Files)
  stored relative none = none
  stored relative (some (v, files)) =
      some (uri_for (json_parts relative), insert (posix relative) (dump v) files)

  abbrev pub write_at : List String → Json → Files → Option (String × Files)
  write_at [] payload files = none
  write_at (p ∷ ps) payload files =
      stored (p ∷ ps) (chunk_large_strings_at (join_with "/" (p ∷ ps)) payload [] files)

  -- `write_json`: the URI and the files; `none` is a `ValueError`
  unfoldable pub write_json : List String → Json → Bool → Files → Option (String × Files)
  unfolding relative_path redact_sensitive_data chunk_large_strings_at json_parts
  write_json parts payload redact files =
      let clean = if redact then redact_sensitive_data a.patterns a.casefold payload else payload in
      write_at (relative_path parts) clean files
