-- ===== src/Domain/Decision.antt =====
-- packages/domain/attention_sink/domain/decision.py: the verdict of a policy and its parts, each with what
-- its constructor checks.
use attention_sink.Prelude.{
  ℕ, String, Bool, true, not, ◌&&◌, Option, none, some, List, map, ltb, leb, ◌==◌, ◌!=◌, string_eq,
  nat_eq, option_eq, list_eq, length, is_empty, filter, get_elem?, range_from, sorted, contains,
  distinct, subset, same_set, disjoint,
}
use attention_sink.Prelude.Int.{ℤ, pos, leb_ℤ}
use attention_sink.Prelude.Text.{text_leb, is_hex_digest}
use attention_sink.Domain.Enums.{
  ArmId, MemoryStatus, compressed, status_eq, is_retired_status, PolicyDecisionCode,
}
use attention_sink.Domain.Errors.{Result, value_error, ◌>>◌, require}
use attention_sink.Domain.Memory.{Memory, MemoryLineageEdge, min_summary_sources, is_some}

pub record CandidateRank : Type 0 where
  pub memory_id : String
  pub rank_index : ℕ
  pub rank_key : String

-- `Field(min_length=1)`
unfoldable pub rank_check : CandidateRank → Result (Unit {0})
rank_check rank = require (rank.rank_key != "") value_error

pub record RandomDraw : Type 0 where
  pub decision_index : ℕ
  pub digest : String
  pub candidate_memory_ids : List String
  pub selected_index : ℕ
  pub selected_memory_id : String

unfoldable pub draw_check : RandomDraw → Result (Unit {0})
draw_check draw = do
  let candidates = draw.candidate_memory_ids
  require (is_hex_digest draw.digest) value_error
  require (not (is_empty candidates)) value_error
  require (distinct candidates) value_error
  require (sorted text_leb candidates == candidates) value_error
  require (ltb draw.selected_index (length candidates)) value_error
  require (get_elem? candidates draw.selected_index == some draw.selected_memory_id) value_error

pub record RandomProvenance : Type 0 where
  pub run_random_seed : String
  pub draws : List RandomDraw

-- `list(range(len(xs)))`
abbrev pub indices {ℓ} : {A : Type ℓ} → List A → List ℕ
indices xs = range_from 0 (length xs)

unfoldable pub provenance_check : RandomProvenance → Result (Unit {0})
provenance_check provenance = do
  require (provenance.run_random_seed != "") value_error
  require (not (is_empty provenance.draws)) value_error
  require (map (λ draw. draw.decision_index) provenance.draws == indices provenance.draws)
      value_error

pub record CompressionPlan : Type 0 where
  pub source_memory_ids : List String
  pub summary_memory_id : String
  pub summary_target_token_limit : ℕ
  pub tokens_freed : ℕ
  pub safety_margin_tokens : ℕ

unfoldable pub plan_check : CompressionPlan → Result (Unit {0})
plan_check plan = do
  require (leb min_summary_sources (length plan.source_memory_ids)) value_error
  require (ltb 0 plan.summary_target_token_limit) value_error
  require (distinct plan.source_memory_ids) value_error
  require (not (contains plan.source_memory_ids plan.summary_memory_id)) value_error

pub record MemoryRetirement : Type 0 where
  pub memory_id : String
  pub status : MemoryStatus
  pub reason : PolicyDecisionCode

unfoldable pub retirement_check : MemoryRetirement → Result (Unit {0})
retirement_check retirement = require (is_retired_status retirement.status) value_error

-- The retirements of one status and reason.
abbrev pub retire_as : MemoryStatus → PolicyDecisionCode → List String → List MemoryRetirement
retire_as status code =
    map λ memory_id. record { memory_id = memory_id; status = status; reason = code }

pub record PolicyDecision (S : Type 0) : Type 0 where
  pub run_id : String
  pub arm_id : ArmId
  pub cycle : ℕ
  pub policy_version : String
  pub decision_code : PolicyDecisionCode
  pub budget_tokens : ℕ
  pub tokens_before : ℕ
  pub tokens_after : ℤ
  pub kept_memory_ids : List String
  pub retired_memory_ids : List String
  pub retirements : List MemoryRetirement
  pub created_memories : List (Memory S)
  pub lineage_edges : List MemoryLineageEdge
  pub candidate_order : List CandidateRank
  pub random_provenance : Option RandomProvenance
  pub compression_plan : Option CompressionPlan
  pub committed_compression : Option CompressionPlan
  pub explanation : String

-- `{r.memory_id for r in retirements if r.status is MemoryStatus.COMPRESSED}`
abbrev pub compressed_ids : List MemoryRetirement → List String
compressed_ids retirements =
    map (λ r. r.memory_id) (filter (λ r. r.status == compressed) retirements)

-- `provenance is None or len(provenance.draws) == len(retirements)`
abbrev pub draws_match : Option RandomProvenance → List MemoryRetirement → Bool
draws_match none retirements = true
draws_match (some provenance) retirements = length provenance.draws == length retirements

-- `plan is None or compressed == set(plan.source_memory_ids)`
abbrev pub commits : Option CompressionPlan → List MemoryRetirement → Bool
commits none retirements = true
commits (some plan) retirements = same_set (compressed_ids retirements) plan.source_memory_ids

module _ {S : Type 0} where
  abbrev pub is_final : PolicyDecision S → Bool
  is_final decision = not (is_some decision.compression_plan)

  -- `Field(gt=0)`, `Field(ge=0)`, `Field(min_length=1)`
  unfoldable pub decision_fields : PolicyDecision S → Result (Unit {0})
  decision_fields decision = do
    require (ltb 0 decision.budget_tokens) value_error
    require (leb_ℤ (pos 0) decision.tokens_after) value_error
    require (decision.explanation != "") value_error

  unfoldable pub decision_sets : PolicyDecision S → Result (Unit {0})
  decision_sets decision = do
    require (decision.retired_memory_ids == map (λ r. r.memory_id) decision.retirements) value_error
    require (distinct decision.kept_memory_ids) value_error
    require (distinct decision.retired_memory_ids) value_error
    require (disjoint decision.kept_memory_ids decision.retired_memory_ids) value_error

  unfoldable pub decision_ranks : PolicyDecision S → Result (Unit {0})
  decision_ranks decision = do
    let ranked = map (λ c. c.memory_id) decision.candidate_order
    require (map (λ c. c.rank_index) decision.candidate_order == indices ranked) value_error
    require (distinct ranked) value_error
    require (subset decision.retired_memory_ids ranked) value_error

  unfoldable pub decision_created : PolicyDecision S → Result (Unit {0})
  decision_created decision = do
    let created = map (λ m. m.memory_id) decision.created_memories
    require (subset created decision.kept_memory_ids) value_error
    require (subset (map (λ e. e.child_memory_id) decision.lineage_edges) created) value_error

  unfoldable pub decision_provenance : PolicyDecision S → Result (Unit {0})
  decision_provenance decision = do
    require (draws_match decision.random_provenance decision.retirements) value_error
    require (commits decision.committed_compression decision.retirements) value_error

  -- `PolicyDecision(...)`: the field constraints and `_check_invariants`
  unfoldable pub decision_check : PolicyDecision S → Result (Unit {0})
  unfolding decision_fields decision_sets decision_ranks decision_created decision_provenance
  decision_check decision = do
    decision_fields decision
    decision_sets decision
    decision_ranks decision
    decision_created decision
    decision_provenance decision
    require
        (not (is_final decision && not (leb_ℤ decision.tokens_after (pos decision.budget_tokens))))
        value_error
