-- ===== src/Domain/Ledger.antt =====
-- packages/domain/attention_sink/domain/ledger.py: a score with its evidence.
use attention_sink.Prelude.{ℕ, String, List, distinct, string_eq}
use attention_sink.Domain.Enums.{ArmId}
use attention_sink.Domain.Errors.{Result, value_error, require}

pub record MetricEvidence (S : Type 0) : Type 0 where
  pub run_id : String
  pub arm_id : ArmId
  pub cycle : ℕ
  pub metric_name : String
  pub value : S
  pub evaluator_version : String
  pub calculation_version : String
  pub cited_memory_ids : List String
  pub rationale : String
  pub computed_at : ℕ

-- `_require_distinct_evidence`
unfoldable pub metric_check : {S : Type 0} → MetricEvidence S → Result (Unit {0})
metric_check metric = require (distinct metric.cited_memory_ids) value_error
