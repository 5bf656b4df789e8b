-- ===== src/Runtime/Artifacts/Chunks.antt =====
-- runtime/artifacts.py: `_write_chunked_text`, a text that is too long for one artifact. Bytes are numbers,
-- a directory is the posix text of its path, and a JSON file is the value that it is the dump of.
use skill_centric_agent_syst.Base.{
  ℕ, zero, suc, ◌+◌, String, Option, none, some, List, [], ◌∷◌, if◌then◌else◌, ltb, Dict, insert,
  join, pos, Json, int, str, arr, obj, Items, nil, cons, end, field,
}

pub data File : Type 0 where
  raw : List ℕ → File
  dump : Json → File

-- The files under the root of the store, by their relative paths.
abbrev pub Files : Type 0
Files = Dict File

-- `xs[:n]`
unfoldable pub slice_to {ℓ} : {A : Type ℓ} → ℕ → List A → List A
slice_to zero xs = []
slice_to (suc n) [] = []
slice_to (suc n) (x ∷ xs) = x ∷ slice_to n xs

-- `xs[n:]`
unfoldable pub slice_from {ℓ} : {A : Type ℓ} → ℕ → List A → List A
slice_from zero xs = xs
slice_from (suc n) [] = []
slice_from (suc n) (x ∷ xs) = slice_from n xs

unfoldable pub length {ℓ} : {A : Type ℓ} → List A → ℕ
length [] = 0
length (x ∷ xs) = suc (length xs)

-- `range(start, stop, step)` for a step above 0; a range has at most `stop` elements
unfoldable pub range_from : ℕ → ℕ → ℕ → ℕ → List ℕ
range_from zero start stop step = []
range_from (suc fuel) start stop step =
    let later = range_from fuel (start + step) stop step in
    if ltb start stop then start ∷ later else []

-- `dir / name`
abbrev pub path_in : String → String → String
path_in dir name = join dir (join "/" name)

-- `uri_for_raw` of a path that is not empty
abbrev pub uri_for_raw : String → String → String
uri_for_raw uri_prefix relative = path_in uri_prefix relative

abbrev pub count_of {ℓ} : {A : Type ℓ} → List A → Json
count_of xs = int (pos (length xs))

abbrev pub items_of : List Json → Items
items_of [] = nil
items_of (v ∷ vs) = cons v (items_of vs)

-- `chunk_file i` is the text `f"{i:04d}.txt"`.
module _ (uri_prefix : String) (chunk_file : ℕ → String) (size : ℕ) (dir : String)
    (encoded : List ℕ) where
  abbrev pub chunk_at : ℕ → List ℕ
  chunk_at start = slice_to size (slice_from start encoded)

  abbrev pub chunk_path : ℕ → String
  chunk_path i = path_in dir (chunk_file i)

  abbrev pub chunk_entry : ℕ → ℕ → Json
  chunk_entry i start = obj (
      field "index" (int (pos i)) (
        field "uri" (str (uri_for_raw uri_prefix (chunk_path i))) (
          field "byte_start" (int (pos start))
            (field "byte_length" (count_of (chunk_at start)) end))))

  -- The loop over `enumerate(range(…))`, from index `i` on.
  unfoldable pub write_chunks : ℕ → List ℕ → Files → List Json × Files
  unfolding insert slice_to slice_from length
  write_chunks i [] files = ([], files)
  write_chunks i (start ∷ starts) files =
      let rest =
        write_chunks (suc i) starts (insert (chunk_path i) (File.raw (chunk_at start)) files) in
      (chunk_entry i start ∷ rest.0, rest.1)

  abbrev pub manifest : List Json → Json
  manifest chunks = obj (
      field "artifact_kind" (str "chunked_text") (
        field "encoding" (str "utf-8") (
          field "byte_length" (count_of encoded) (
            field "chunk_size_bytes" (int (pos size)) (
              field "chunk_count" (count_of chunks)
                (field "chunks" (arr (items_of chunks)) end))))))

  abbrev pub manifest_path : String
  manifest_path = path_in dir "manifest.json"

  abbrev pub reference : List Json → Json
  reference chunks = obj (
      field "artifact_ref" (str "chunked_text") (
        field "manifest_uri" (str (uri_for_raw uri_prefix manifest_path)) (
          field "encoding" (str "utf-8")
            (field "byte_length" (count_of encoded) (field "chunk_count" (count_of chunks) end)))))

  abbrev pub starts : List ℕ
  starts = range_from (length encoded) 0 (length encoded) size

  abbrev pub finish : Files → List Json × Files → Json × Files
  finish files r = (reference r.0, insert manifest_path (File.dump (manifest r.0)) r.1)

  -- `_write_chunked_text`; a size of 0 is a `ValueError` of `range`
  unfoldable pub write_chunked_text : Files → Option (Json × Files)
  unfolding write_chunks range_from
  write_chunked_text files =
      if ltb 0 size then some (finish files (write_chunks 0 starts files)) else none
