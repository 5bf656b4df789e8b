-- ===== src/Runtime/Artifacts/Reading.antt =====
-- runtime/artifacts.py: `read_json`.
use skill_centric_agent_syst.Base.{ℕ, String, Option, none, List, join, after_head, get, Json}
use skill_centric_agent_syst.Base.Outcome.{Outcome, ok, some_or, ◌>>=◌}
use skill_centric_agent_syst.Runtime.Artifacts.Chunks.{File, Files, raw, dump}
use skill_centric_agent_syst.Runtime.Queue.{Error}

-- What `pathlib` and `json` do for a reader.
pub record Reader : Type 0 where
  -- the posix path below the root that `(root / relative).resolve()` is; `none` where it is outside
  pub below_root : String → Option String
  -- `json.loads` of bytes that are no dump of a value
  pub loads : List ℕ → Outcome Error Json

abbrev value_error : String → Error
value_error m = record { class_name = "ValueError"; message = m; stop_reason = none }

abbrev not_found : String → Error
not_found path = record { class_name = "FileNotFoundError"; message = path; stop_reason = none }

-- `json.loads(target.read_text(…))`
abbrev contents : Reader → File → Outcome Error Json
contents r (dump v) = ok v
contents r (raw bytes) = r.loads bytes

-- `read_json`
unfoldable pub read_json : Reader → String → Files → String → Outcome Error Json
unfolding after_head join get
read_json r uri_prefix files uri = do
  relative ←
      some_or (after_head (join uri_prefix "/") uri)
        (value_error "Artifact URI is outside this store.")
  target ← some_or (r.below_root relative) (value_error "Artifact URI escapes the artifact root.")
  file ← some_or (get target files) (not_found target)
  contents r file
