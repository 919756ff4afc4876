-- ===== src/Domain/Cycle.antt =====
-- packages/domain/attention_sink/domain/cycle.py: what a policy is told of a cycle, and the record of it.
use attention_sink.Prelude.{
  ℕ, String, Bool, true, false, not, ◌&&◌, ltb, List, ◌==◌, ◌!=◌, string_eq, nat_eq, list_eq,
}
use attention_sink.Domain.Enums.{ArmId, arm_eq, CycleStatus, pending, running, committed, failed}
use attention_sink.Domain.Errors.{Result, value_error, ◌>>◌, require}
use attention_sink.Domain.Decision.{PolicyDecision, is_final}

pub record CycleContext : Type 0 where
  pub run_id : String
  pub arm_id : ArmId
  pub cycle : ℕ
  pub stimulus_id : String
  pub protocol_version : String
  pub prompt_version : String
  pub run_random_seed : String

pub record CycleSnapshot (S : Type 0) : Type 0 where
  pub run_id : String
  pub arm_id : ArmId
  pub cycle : ℕ
  pub stimulus_id : String
  pub status : CycleStatus
  pub protocol_version : String
  pub prompt_version : String
  pub policy_version : String
  pub active_memory_ids : List String
  pub active_tokens : ℕ
  pub budget_tokens : ℕ
  pub state_hash : String
  pub decision : PolicyDecision S

abbrev is_committed : CycleStatus → Bool
is_committed pending = false
is_committed running = false
is_committed committed = true
is_committed failed = false

-- The field constraints and `_require_matching_decision`; `committed_at` is not modelled.
unfoldable pub snapshot_check : {S : Type 0} → CycleSnapshot S → Result (Unit {0})
snapshot_check snapshot = do
  let decision = snapshot.decision
  let is_commit = is_committed snapshot.status
  require (ltb 0 snapshot.budget_tokens) value_error
  require (snapshot.state_hash != "") value_error
  require (decision.run_id == snapshot.run_id) value_error
  require (decision.arm_id == snapshot.arm_id) value_error
  require (decision.cycle == snapshot.cycle) value_error
  require (not (is_commit && not (is_final decision))) value_error
  require (not (is_commit && snapshot.active_memory_ids != decision.kept_memory_ids)) value_error
  require (not (is_commit && ltb snapshot.budget_tokens snapshot.active_tokens)) value_error
