-- ===== src/Runtime/Enforcement/Enforcer.antt =====
-- `RuntimeProfileEnforcer`: its counters, and the operations that spend the budgets of a profile.
-- A clock reading is a number that stands for a float; each operation takes the reading that its
-- call of `clock()` returns.
use skill_centric_agent_syst.Base.{
  ℕ, ◌+◌, String, not, List, [], ◌∷◌, if◌then◌else◌, ℤ, pos, negsuc, exceeds, int, Fields,
}
use skill_centric_agent_syst.Base.Outcome
use skill_centric_agent_syst.Base.Outcome.{Outcome, ok, err, check, for_each}
use skill_centric_agent_syst.Base.Exec.{Exec, lift, raise, pure, ◌>>◌}
use skill_centric_agent_syst.Runtime.Enforcement.Profile.{
  Failure, denied, value_error, Containers, find_or, before, integer, limit_of, require_tool,
  require_tool_risk, require_policy, require_data_scopes,
}

pub record Enforcer : Type 0 where
  pub profile : Fields
  pub started_at : ℕ
  pub tool_calls : ℕ
  pub tokens_used : ℕ
  pub data_reads : ℕ
  pub memory_ops : ℕ
  pub recomposition_requests : ℕ

pub data Counter : Type 0 where
  tool_calls tokens_used data_reads memory_ops recomposition_requests : Counter

-- `getattr(self, counter_name)`
unfoldable pub read : Counter → Enforcer → ℕ
read Counter.tool_calls e = e.tool_calls
read Counter.tokens_used e = e.tokens_used
read Counter.data_reads e = e.data_reads
read Counter.memory_ops e = e.memory_ops
read Counter.recomposition_requests e = e.recomposition_requests

-- `setattr(self, counter_name, n)`
unfoldable pub write : Counter → ℕ → Enforcer → Enforcer
write Counter.tool_calls n e = record e { tool_calls = n }
write Counter.tokens_used n e = record e { tokens_used = n }
write Counter.data_reads n e = record e { data_reads = n }
write Counter.memory_ops n e = record e { memory_ops = n }
write Counter.recomposition_requests n e = record e { recomposition_requests = n }

-- The limit that bounds each counter, and `_limit_stop_reason` of it.
unfoldable pub limit_name : Counter → String
limit_name Counter.tool_calls = "max_tool_calls"
limit_name Counter.tokens_used = "max_tokens"
limit_name Counter.data_reads = "max_data_reads"
limit_name Counter.memory_ops = "max_memory_ops"
limit_name Counter.recomposition_requests = "max_recompositions"

unfoldable pub exceeded_code : Counter → String
exceeded_code Counter.tool_calls = "max_tool_calls_exceeded"
exceeded_code Counter.tokens_used = "max_tokens_exceeded"
exceeded_code Counter.data_reads = "max_data_reads_exceeded"
exceeded_code Counter.memory_ops = "max_memory_ops_exceeded"
exceeded_code Counter.recomposition_requests = "max_recompositions_exceeded"

module _ (py : Containers) where
  -- `RuntimeProfileEnforcer.__init__`
  unfoldable pub create : Fields → ℕ → Outcome Failure Enforcer
  unfolding integer
  create profile now =
      Outcome.◌>>=◌ (integer py (find_or "profile_generation" (int (pos 1)) profile)) λ generation.
        ok (record {
          profile = profile;
          started_at = now;
          tool_calls = 0;
          tokens_used = 0;
          data_reads = 0;
          memory_ops = 0;
          recomposition_requests = before generation;
        })

  -- `check_duration`
  unfoldable pub check_duration : ℕ → Exec Failure Enforcer (Unit {0})
  check_duration now e =
      lift
        (Outcome.◌>>=◌ (limit_of py e.profile "max_duration_seconds") λ most.
          check (not (py.elapsed_over now e.started_at most))
            (denied "max_duration" "max_duration_exceeded"))
        e

  -- The test of `_increment_limit` against the limit that was read.
  unfoldable pub spend_within :
      Counter → ℕ → Outcome Failure ℤ → Enforcer → Outcome Failure (Unit {0}) × Enforcer
  unfolding read write limit_name exceeded_code
  spend_within c amount (err failure) e = (err failure, e)
  spend_within c amount (ok most) e =
      let next_value = read c e + amount in
      if exceeds next_value most
      then (err (denied (limit_name c) (exceeded_code c)), e)
      else (ok tt, write c next_value e)

  -- `_increment_limit`
  unfoldable pub increment_limit : Counter → ℤ → Exec Failure Enforcer (Unit {0})
  unfolding spend_within
  increment_limit c (negsuc n) e = (err value_error, e)
  increment_limit c (pos n) e = spend_within c n (limit_of py e.profile (limit_name c)) e

  unfoldable pub consume_tokens : ℕ → ℤ → Exec Failure Enforcer (Unit {0})
  consume_tokens now (negsuc n) = raise value_error
  consume_tokens now (pos n) = do check_duration now; increment_limit Counter.tokens_used (pos n)

  unfoldable pub record_data_read : ℤ → Exec Failure Enforcer (Unit {0})
  record_data_read count = increment_limit Counter.data_reads count

  unfoldable pub record_memory_op : ℤ → Exec Failure Enforcer (Unit {0})
  record_memory_op count = increment_limit Counter.memory_ops count

  unfoldable pub record_recomposition_request : Exec Failure Enforcer (Unit {0})
  record_recomposition_request = increment_limit Counter.recomposition_requests (pos 1)

  -- A check that only reads the profile.
  abbrev pub reads : (Fields → Outcome Failure (Unit {0})) → Exec Failure Enforcer (Unit {0})
  reads f e = (f e.profile, e)

  -- `if required_scopes: …`
  unfoldable pub read_scopes : List String → Exec Failure Enforcer (Unit {0})
  unfolding record_data_read
  read_scopes [] = pure tt
  read_scopes (s ∷ rest) = do
    reads (λ p. require_data_scopes py p (s ∷ rest))
    record_data_read (pos 1)

  unfoldable pub record_tool_invocation :
      ℕ → String → List String → List String → String → Exec Failure Enforcer (Unit {0})
  unfolding read_scopes
  record_tool_invocation now tool_name required_scopes required_policies tool_risk_level = do
    check_duration now
    reads (λ p. require_tool py p tool_name)
    reads (λ p. require_tool_risk py p tool_risk_level)
    reads (λ p. for_each (require_policy py p) required_policies)
    increment_limit Counter.tool_calls (pos 1)
    read_scopes required_scopes
