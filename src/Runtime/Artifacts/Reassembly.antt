-- ===== src/Runtime/Artifacts/Reassembly.antt =====
-- A chunked text is read again: through the manifest that its reference names, chunk by chunk.
use skill_centric_agent_syst.Base.{
  after_head, ℕ, suc, ◌<◌, String, ◌≡◌, ◌≢◌, refl, sym, ap, ◌∙◌, true, Option, none, some, List, [],
  ◌∷◌, ◌++◌, ltb, ◌==◌, eq_iff, eq_refl, Bool-cases, inl, inr, arith, get, insert, get-insert, join,
  Json, str, obj, find, as_list, elements,
}
use skill_centric_agent_syst.Runtime.Artifacts.Chunks.{
  File, Files, raw, dump, slice_from, length, path_in, uri_for_raw, items_of, chunk_at, chunk_path,
  write_chunks, manifest, manifest_path, reference, starts, write_chunked_text, finish,
}
use skill_centric_agent_syst.Runtime.Artifacts.Slices.{slices, slices-range_from}

not_less : (i j : ℕ) → j < i → j ≡ i → ⊥
not_less i j h e = omega arith

-- The file that a URI names.
abbrev pub located : Files → Option String → Option File
located files none = none
located files (some path) = get path files

abbrev bytes_of : Option File → Option (List ℕ)
bytes_of (some (raw bytes)) = some bytes
bytes_of _ = none

abbrev dumped : Option File → Option Json
dumped (some (dump v)) = some v
dumped _ = none

module _ (uri_prefix : String) (files : Files) where
  abbrev pub file_at : Json → Option File
  file_at (str uri) = located files (after_head (join uri_prefix "/") uri)
  file_at _ = none

  abbrev uri_of : Json → Json
  uri_of (obj entry) = find "uri" entry
  uri_of _ = Json.null

  abbrev append : Option (List ℕ) → Option (List ℕ) → Option (List ℕ)
  append (some xs) (some ys) = some (xs ++ ys)
  append _ _ = none

  -- The bytes of the chunks, one after the other.
  unfoldable pub read_chunks : List Json → Option (List ℕ)
  read_chunks [] = some []
  read_chunks (c ∷ cs) = append (bytes_of (file_at (uri_of c))) (read_chunks cs)

  abbrev read_manifest : Option Json → Option (List ℕ)
  read_manifest (some (obj m)) = elim (as_list (find "chunks" m)) [
    | none ↦ none
    | some cs ↦ read_chunks cs
  ]
  read_manifest _ = none

  -- The bytes of the text that a reference stands for.
  unfoldable pub reassemble : Json → Option (List ℕ)
  unfolding read_chunks
  reassemble (obj ref) = read_manifest (dumped (file_at (find "manifest_uri" ref)))
  reassemble _ = none

after_head-join : (p s : String) → after_head p (join p s) ≡ some s
unfolding after_head join
after_head-join String.[] s = refl
after_head-join (String.◌∷◌ c p) s = ground (arith, after_head-join p s)

join_assoc : (a b c : String) → join (join a b) c ≡ join a (join b c)
unfolding join
join_assoc String.[] b c = refl
join_assoc (String.◌∷◌ d a) b c = ap (String.◌∷◌ d) (join_assoc a b c)

join_cancel : (s a b : String) → join s a ≡ join s b → a ≡ b
unfolding join
join_cancel String.[] a b e = e
join_cancel (String.◌∷◌ d s) a b e = join_cancel s a b cc

elements-items_of : (vs : List Json) → elements (items_of vs) ≡ vs
elements-items_of [] = refl
elements-items_of (v ∷ vs) = ap (λ r. v ∷ r) (elements-items_of vs)

file_at-uri_for_raw :
    (uri_prefix path : String) (files : Files)
    → file_at uri_prefix files (str (uri_for_raw uri_prefix path)) ≡ get path files
file_at-uri_for_raw uri_prefix path files = ap (located files) (
    ap (after_head (join uri_prefix "/")) (sym (join_assoc uri_prefix "/" path))
    ∙ after_head-join (join uri_prefix "/") path)

path_in_inj : (dir a b : String) → path_in dir a ≡ path_in dir b → a ≡ b
path_in_inj dir a b e = join_cancel "/" a b (join_cancel dir (join "/" a) (join "/" b) e)

get-insert_other :
    (k j : String) (f : File) (files : Files) → j ≢ k → get j (insert k f files) ≡ get j files
get-insert_other k j f files other = elim (Bool-cases (j == k)) [
  | inl same ↦ elim (other ((eq_iff j k).0 same)) [ ]
  | inr apart ↦ get-insert k j f files ∙ rw apart refl
]

get-insert_same : (k : String) (f : File) (files : Files) → get k (insert k f files) ≡ some f
get-insert_same k f files = get-insert k k f files ∙ rw (eq_refl k) refl

module _ (uri_prefix : String) (chunk_file : ℕ → String)
    (distinct : (i j : ℕ) → chunk_file i ≡ chunk_file j → i ≡ j) (size : ℕ) (dir : String)
    (encoded : List ℕ) where
  abbrev path : ℕ → String
  path = chunk_path uri_prefix chunk_file size dir encoded

  abbrev written : ℕ → List ℕ → Files → List Json × Files
  written = write_chunks uri_prefix chunk_file size dir encoded

  -- A chunk is not written over by the chunks after it.
  kept :
      (i j : ℕ) (starts : List ℕ) (files : Files)
      → j < i
      → get (path j) (written i starts files).1 ≡ get (path j) files
  unfolding write_chunks
  kept i j [] files h = refl
  kept i j (start ∷ starts) files h =
      kept (suc i) j starts _ (omega arith)
      ∙ get-insert_other (path i) (path j) _ files
          (λ e. not_less i j h (distinct j i (path_in_inj dir (chunk_file j) (chunk_file i) e)))

  read_written :
      (i : ℕ) (starts : List ℕ) (files final : Files)
      → ((j : ℕ) → get (path j) final ≡ get (path j) (written i starts files).1)
      → read_chunks uri_prefix final (written i starts files).0 ≡ some (slices size encoded starts)
  unfolding write_chunks read_chunks slices
  read_written i [] files final h = refl
  read_written i (start ∷ starts) files final h =
      let next =
        insert (path i) (raw (chunk_at uri_prefix chunk_file size dir encoded start)) files in
      let mine : get (path i) final
          ≡ some (raw (chunk_at uri_prefix chunk_file size dir encoded start)) =
        h i ∙ (kept (suc i) i starts next (omega arith) ∙ get-insert_same (path i) _ files) in
      rw
        (
          file_at-uri_for_raw uri_prefix (path i) final,
          mine,
          read_written (suc i) starts next final h,
        )
        refl

  abbrev manifest_file : String
  manifest_file = manifest_path uri_prefix chunk_file size dir encoded

  stored : (chunks : List Json) → Files → Files
  stored chunks files =
      insert manifest_file (dump (manifest uri_prefix chunk_file size dir encoded chunks)) files

  -- A reference leads to the chunks that its manifest lists.
  through_manifest :
      (chunks : List Json) (files : Files)
      → reassemble uri_prefix
          (stored chunks files)
          (reference uri_prefix chunk_file size dir encoded chunks)
        ≡ read_chunks uri_prefix (stored chunks files) chunks
  unfolding reassemble stored
  through_manifest chunks files =
      rw (file_at-uri_for_raw uri_prefix manifest_file (stored chunks files)) (
        rw
          (get-insert_same manifest_file
            (dump (manifest uri_prefix chunk_file size dir encoded chunks)) files)
          (rw (elements-items_of chunks) refl))

  -- Every text is chunked where the size is above 0, and its reference then leads to all of its bytes.
  pub reassemble-write_chunked_text :
      ((i : ℕ) → chunk_file i ≢ "manifest.json")
      → (files : Files) → ltb 0 size ≡ true
      → (r : Json × Files) × (write_chunked_text uri_prefix chunk_file size dir encoded files
          ≡ some r)
        × (reassemble uri_prefix r.1 r.0 ≡ some encoded)
  unfolding write_chunked_text stored slice_from
  reassemble-write_chunked_text apart files positive =
      let w = written 0 (starts uri_prefix chunk_file size dir encoded) files in
      (
        finish uri_prefix chunk_file size dir encoded files w,
        rw positive refl,
        through_manifest w.0 w.1
            ∙ (read_written 0 _ files (stored w.0 w.1) (λ j.
                  get-insert_other manifest_file (path j) _ w.1
                    (λ e. apart j (path_in_inj dir _ _ e)))
                ∙ ap some
                    (slices-range_from (length encoded) 0 size encoded positive (omega arith))),
      )
