-- ===== src/Domain/Citations.antt =====
-- packages/domain/attention_sink/domain/citations.py: what a writer claimed, and what an auditor found.
use attention_sink.Prelude.{ℕ, String, Bool, true, false, not, ◌&&◌, Option, ◌!=◌, string_eq}
use attention_sink.Prelude.Text.{is_blank}
use attention_sink.Domain.Enums.{ArmId, CitationSource, writer, interview, evaluation}
use attention_sink.Domain.Errors.{Result, value_error, ◌>>◌, require}

pub record CitationClaim : Type 0 where
  pub run_id : String
  pub arm_id : ArmId
  pub cycle : ℕ
  pub memory_id : String
  pub claim_index : ℕ
  pub quoted_span : Option String

pub record VerifiedCitation : Type 0 where
  pub run_id : String
  pub arm_id : ArmId
  pub cycle : ℕ
  pub memory_id : String
  pub source : CitationSource
  pub auditor_version : String
  pub evidence : String

abbrev is_writer : CitationSource → Bool
is_writer writer = true
is_writer interview = false
is_writer evaluation = false

abbrev pub updates_memory_state : VerifiedCitation → Bool
updates_memory_state citation = is_writer citation.source

-- `Field(min_length=1)` and `_require_writer_evidence`
unfoldable pub citation_check : VerifiedCitation → Result (Unit {0})
unfolding is_blank
citation_check citation = do
  require (citation.evidence != "") value_error
  require (not (updates_memory_state citation && is_blank citation.evidence)) value_error
