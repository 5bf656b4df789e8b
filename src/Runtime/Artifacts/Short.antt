-- ===== src/Runtime/Artifacts/Short.antt =====
-- A payload with no text over the threshold is written as it is, once it is redacted.
use skill_centric_agent_syst.Base.{
  ℕ, suc, String, ◌≡◌, refl, Bool, true, ◌&&◌, some, List, [], ◌∷◌, ◌++◌, if◌then◌else◌, leb,
  insert, join_with, &&-split, Json, null, bool, int, float, str, arr, obj, Items, nil, cons,
  Fields, end, field,
}
use skill_centric_agent_syst.Runtime.Models.Slug.{decimal}
use skill_centric_agent_syst.Runtime.Artifacts.Redaction.{redact_sensitive_data}
use skill_centric_agent_syst.Runtime.Artifacts.Chunks.{Files, dump, length}
use skill_centric_agent_syst.Runtime.Artifacts.Writing.{
  ArtifactStore, relative_path, json_parts, posix, uri_for, chunk_large_strings_at, chunk_fields,
  chunk_items, write_json,
}

module _ (a : ArtifactStore) where
  unfoldable mutual
    -- No text of the payload is over the threshold.
    pub is_short : Json → Bool
    is_short (str s) = leb (length (a.encode s)) a.chunk_string_threshold_bytes
    is_short (obj fs) = all_short fs
    is_short (arr vs) = each_short vs
    is_short v = true

    pub all_short : Fields → Bool
    all_short end = true
    all_short (field k v fs) = is_short v && all_short fs

    pub each_short : Items → Bool
    each_short nil = true
    each_short (cons v vs) = is_short v && each_short vs

  mutual
    unfolding chunk_large_strings_at is_short

    chunk_short :
        (base : String) (v : Json) (fields : List String) (files : Files)
        → is_short v ≡ true
        → chunk_large_strings_at a base v fields files ≡ some (v, files)
    chunk_short base null fields files h = refl
    chunk_short base (bool b) fields files h = refl
    chunk_short base (int n) fields files h = refl
    chunk_short base (float s) fields files h = refl
    chunk_short base (str s) fields files h = rw h refl
    chunk_short base (arr vs) fields files h = rw (chunk_items_short base vs 0 fields files h) refl
    chunk_short base (obj fs) fields files h = rw (chunk_fields_short base fs fields files h) refl

    chunk_fields_short :
        (base : String) (fs : Fields) (fields : List String) (files : Files)
        → all_short fs ≡ true
        → chunk_fields a base fs fields files ≡ some (fs, files)
    chunk_fields_short base end fields files h = refl
    chunk_fields_short base (field k v fs) fields files h =
        rw
          (chunk_short base v (fields ++ (k ∷ [])) files (&&-split (is_short v) (all_short fs) h).0)
          (rw (chunk_fields_short base fs fields files (&&-split (is_short v) (all_short fs) h).1)
            refl)

    chunk_items_short :
        (base : String) (vs : Items) (i : ℕ) (fields : List String) (files : Files)
        → each_short vs ≡ true
        → chunk_items a base vs i fields files ≡ some (vs, files)
    chunk_items_short base nil i fields files h = refl
    chunk_items_short base (cons v vs) i fields files h =
        rw
          (chunk_short base v (fields ++ (decimal i ∷ [])) files
            (&&-split (is_short v) (each_short vs) h).0)
          (rw
            (chunk_items_short base vs (suc i) fields files
              (&&-split (is_short v) (each_short vs) h).1)
            refl)

  -- What is written of a payload.
  abbrev pub cleaned : Bool → Json → Json
  cleaned redact payload =
      if redact then redact_sensitive_data a.patterns a.casefold payload else payload

  -- A payload whose texts are all short once it is redacted becomes one file, with that value in it.
  pub write_json_short :
      (parts : List String) (payload : Json) (redact : Bool) (files : Files) (p : String)
      (ps : List String)
      → relative_path a parts ≡ p ∷ ps
      → is_short (cleaned redact payload) ≡ true
      → write_json a parts payload redact files
        ≡ some (
          uri_for a (json_parts a (p ∷ ps)),
          insert (posix a (p ∷ ps)) (dump (cleaned redact payload)) files,
        )
  unfolding write_json
  write_json_short parts payload redact files p ps r h =
      rw (r, chunk_short (join_with "/" (p ∷ ps)) (cleaned redact payload) [] files h) refl
