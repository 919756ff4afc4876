-- ===== src/Pilot/Snapshots.antt =====
-- packages/pilot/attention_sink/pilot/snapshots.py: the immutable record of one arm in one cycle, and what its
-- constructor checks. `canonical_digest` is of canonical.py: the host's SHA-256 over the JSON text, which the
-- parameter `Dump` writes.
use attention_sink.Prelude.{
  ℕ, String, Bool, not, ◌&&◌, Option, none, some, List, [], ◌∷◌, ltb, leb, ◌==◌, ◌!=◌, string_eq,
  list_eq, is_empty, get_last?, subset, same_set,
}
use attention_sink.Prelude.Dict.{Dict}
use attention_sink.Prelude.Text.{concat}
use attention_sink.Domain.Enums.{ArmId, MemoryKind, MemoryStatus, PolicyDecisionCode}
use attention_sink.Domain.Errors.{Result, raise, index_error, value_error, ◌>>◌, require}
use attention_sink.Domain.Runtime.{Host}
use attention_sink.Domain.Memory.{Memory}
use attention_sink.Domain.Citations.{CitationClaim, VerifiedCitation}
use attention_sink.Domain.Decision.{PolicyDecision, is_final}
use attention_sink.Gateway.Observability.{CallMetadata}
use attention_sink.Pilot.Configuration.{RunKind}

pub data RunStatus : Type 0 where
  initialized running completed failed : RunStatus

pub record StimulusRecord : Type 0 where
  pub stimulus_id : String
  pub cycle : ℕ
  pub phase : String
  pub reliability : String
  pub text : String

pub record MemoryStatistic (S : Type 0) : Type 0 where
  pub memory_id : String
  pub memory_kind : MemoryKind
  pub birth_cycle : ℕ
  pub token_count : ℕ
  pub citation_count : ℕ
  pub discounted_citation_score : S
  pub last_verified_citation_cycle : Option ℕ
  pub pinned : Bool

-- `MemoryStatistic.of`
abbrev pub statistic_of : {S : Type 0} → Memory S → MemoryStatistic S
statistic_of m = record {
  memory_id = m.memory_id;
  memory_kind = m.memory_kind;
  birth_cycle = m.birth_cycle;
  token_count = m.token_count;
  citation_count = m.citation_count;
  discounted_citation_score = m.discounted_citation_score;
  last_verified_citation_cycle = m.last_verified_citation_cycle;
  pinned = m.pinned;
}

pub data RejectionReason : Type 0 where
  duplicate not_active : RejectionReason

pub record RejectedClaim : Type 0 where
  pub memory_id : String
  pub reason : RejectionReason

pub record RetiredMemoryRecord : Type 0 where
  pub memory_id : String
  pub status : MemoryStatus
  pub reason : PolicyDecisionCode
  pub token_count : ℕ
  pub text : String

pub record ArmCycleSnapshot (S : Type 0) : Type 0 where
  pub run_id : String
  pub run_kind : RunKind
  pub arm_id : ArmId
  pub cycle : ℕ
  pub stimulus : StimulusRecord
  pub active_memory_ids_before : List String
  pub memory_statistics_before_rebalance : List (MemoryStatistic S)
  pub tokens_before : ℕ
  pub journal_entry : String
  pub candidate_memory : String
  pub candidate_memory_id : String
  pub claimed_citations : List CitationClaim
  pub validated_citations : List VerifiedCitation
  pub rejected_claims : List RejectedClaim
  pub policy_decisions : List (PolicyDecision S)
  pub created_summary : Option (Memory S)
  pub summary_source_memory_ids : List String
  pub retired_memories : List RetiredMemoryRecord
  pub compressed_memory_ids : List String
  pub active_memory_ids_after : List String
  pub tokens_after : ℕ
  pub budget_tokens : ℕ
  pub state_hash : String
  pub model_metadata : List CallMetadata
  pub policy_version : String
  pub prompt_versions : Dict String
  pub prompt_hashes : Dict String
  pub simulated : Bool
  pub completed_at : ℕ
  pub snapshot_hash : String

-- `json.dumps` of the dump of a record, with sorted keys.
pub record Dump (A : Type 0) : Type 0 where
  pub canonical_json : A → String

unfoldable pub canonical_digest : {A : Type 0} ⦃host : Host⦄ ⦃dump : Dump A⦄ → A → String
unfolding concat
canonical_digest ⦃host⦄ ⦃dump⦄ value =
    concat ("sha256:" ∷ host.sha256_hexdigest (dump.canonical_json value) ∷ [])

module _ {S : Type 0} where
  -- The checks on a summary and its sources.
  abbrev summary_check : ArmCycleSnapshot S → Option (Memory S) → Result (Unit {0})
  summary_check s none = require (is_empty s.summary_source_memory_ids) value_error
  summary_check s (some summary) = do
    require (not (is_empty s.summary_source_memory_ids)) value_error
    require (same_set summary.parent_memory_ids s.summary_source_memory_ids) value_error
    require (subset summary.parent_memory_ids s.compressed_memory_ids) value_error

  abbrev final_check : ArmCycleSnapshot S → Option (PolicyDecision S) → Result (Unit {0})
  final_check s none = raise index_error
  final_check s (some final) = do
    require (is_final final) value_error
    require (final.kept_memory_ids == s.active_memory_ids_after) value_error

  -- The field constraints, and `_check_snapshot`.
  unfoldable pub snapshot_check : ArmCycleSnapshot S → Result (Unit {0})
  snapshot_check s = do
    require (s.journal_entry != "" && s.candidate_memory != "" && s.state_hash != "") value_error
    require (not (is_empty s.policy_decisions) && ltb 0 s.budget_tokens) value_error
    require (leb s.tokens_after s.budget_tokens) value_error
    final_check s (get_last? s.policy_decisions)
    summary_check s s.created_summary

module _ {S : Type 0} ⦃host : Host⦄ ⦃dump : Dump (ArmCycleSnapshot S)⦄ where
  -- `canonical_digest(self.unhashed_payload)`
  unfoldable pub snapshot_digest : ArmCycleSnapshot S → String
  unfolding canonical_digest
  snapshot_digest s = canonical_digest (record s { snapshot_hash = "" })

  unfoldable pub seal_snapshot : ArmCycleSnapshot S → ArmCycleSnapshot S
  unfolding snapshot_digest
  seal_snapshot s = record s { snapshot_hash = snapshot_digest s }

  unfoldable pub verify_hash : ArmCycleSnapshot S → Bool
  unfolding snapshot_digest
  verify_hash s = s.snapshot_hash != "" && s.snapshot_hash == snapshot_digest s
