-- ===== src/Pilot/Records.antt =====
-- packages/pilot/attention_sink/pilot/repositories.py: the records that a store of runs keeps. A time is a number of
-- microseconds.
use attention_sink.Prelude.{
  ℕ, ◌+◌, String, Bool, false, not, List, map, ltb, leb, ◌==◌, string_eq, nat_eq, is_empty, all,
  same_set,
}
use attention_sink.Prelude.Dict.{Dict, keys}
use attention_sink.Domain.Enums.{ArmId, arm_value}
use attention_sink.Domain.Errors.{Result, value_error, ◌>>◌, require}
use attention_sink.Domain.Runtime.{Host}
use attention_sink.Domain.State.{MemoryState}
use attention_sink.Pilot.Spending.{ModelUsage}
use attention_sink.Pilot.Configuration.{RunKind, PilotRunConfiguration}
use attention_sink.Pilot.Snapshots.{RunStatus, ArmCycleSnapshot, Dump, canonical_digest}

pub record RunRecord (S : Type 0) : Type 0 where
  pub run_id : String
  pub run_kind : RunKind
  pub status : RunStatus
  pub current_cycle : ℕ
  pub version : ℕ
  pub configuration : PilotRunConfiguration S
  pub usage : ModelUsage
  pub paused : Bool
  pub created_at : ℕ
  pub updated_at : ℕ

abbrev pub is_complete : {S : Type 0} → RunRecord S → Bool
is_complete run = leb run.configuration.maximum_cycles run.current_cycle

abbrev pub next_cycle : {S : Type 0} → RunRecord S → ℕ
next_cycle run = run.current_cycle + 1

pub record CycleLock : Type 0 where
  pub run_id : String
  pub cycle : ℕ
  pub token : String
  pub invocation_id : String
  pub acquired_at : ℕ
  pub expires_at : ℕ

-- `_require_forward_expiry`
unfoldable pub lock_check : CycleLock → Result (Unit {0})
lock_check lock = require (ltb lock.acquired_at lock.expires_at) value_error

abbrev pub is_expired : CycleLock → ℕ → Bool
is_expired lock now = leb lock.expires_at now

pub record PreparedCycle (S : Type 0) : Type 0 where
  pub run_id : String
  pub cycle : ℕ
  pub invocation_id : String
  pub snapshots : List (ArmCycleSnapshot S)
  pub arm_states : Dict (MemoryState S)
  pub usage : ModelUsage
  pub committed : Bool
  pub content_hash : String
  pub created_at : ℕ

-- `Field(min_length=1)`, and `_require_one_cycle_and_matching_arms`
unfoldable pub prepared_check : {S : Type 0} → PreparedCycle S → Result (Unit {0})
prepared_check p = do
  require (not (is_empty p.snapshots)) value_error
  require (all (λ s. s.cycle == p.cycle) p.snapshots) value_error
  require (same_set (map (λ s. arm_value s.arm_id) p.snapshots) (keys p.arm_states)) value_error

module _ {S : Type 0} ⦃host : Host⦄ ⦃dump : Dump (PreparedCycle S)⦄ where
  -- `canonical_digest(self.unhashed_payload)`
  unfoldable pub prepared_digest : PreparedCycle S → String
  unfolding canonical_digest
  prepared_digest p =
      canonical_digest
        (record p { content_hash = ""; committed = false; created_at = 0; invocation_id = "" })

  unfoldable pub seal_prepared : PreparedCycle S → PreparedCycle S
  unfolding prepared_digest
  seal_prepared p = record p { content_hash = prepared_digest p }

  unfoldable pub matches : PreparedCycle S → PreparedCycle S → Bool
  unfolding prepared_digest
  matches p q = prepared_digest p == prepared_digest q

-- One arm's answers at a checkpoint. The answers are kept as the text that they dump to.
pub record StoredInterview : Type 0 where
  pub run_id : String
  pub arm_id : ArmId
  pub cycle : ℕ
  pub interview_version : String
  pub question_set_version : String
  pub answers : List String
  pub reported_memory_ids : List String
  pub prompt_hash : String
  pub input_state_hash : String
  pub record_hash : String
  pub completed_at : ℕ

module _ ⦃host : Host⦄ ⦃dump : Dump StoredInterview⦄ where
  unfoldable pub seal_interview : StoredInterview → StoredInterview
  unfolding canonical_digest
  seal_interview i = record i { record_hash = canonical_digest (record i { record_hash = "" }) }

pub record AnalysisStatus : Type 0 where
  pub run_id : String
  pub analysis_name : String
  pub metric_version : String
  pub completed_cycles : List ℕ
  pub updated_at : ℕ

pub record ExportManifestRecord : Type 0 where
  pub run_id : String
  pub export_id : String
  pub run_kind : RunKind
  pub directory : String
  pub files : Dict String
  pub labels : List String
  pub created_at : ℕ
