-- ===== src/Policies/Summarization.antt =====
-- packages/policies/attention_sink/policies/summarization.py: the oldest memories become one summary.
-- A cost may fall below zero here, since a plan may come from elsewhere: costs are integers.
pub mod Plans
pub mod Requests
pub mod Outcomes
pub mod Sound
use attention_sink.Prelude.{
  ℕ, suc, ◌+◌, String, Bool, true, not, ◌&&◌, Option, none, some, List, [], ◌∷◌, ◌++◌, map, leb,
  ◌==◌, string_eq, filter, all, take, contains, same_set, if◌then◌else◌,
}
use attention_sink.Prelude.Int.{ℤ, pos, ◌+ℤ◌, ◌-ℤ◌, leb_ℤ}
use attention_sink.Domain.Enums.{
  summary, kind_eq, compressed_into, PolicyDecisionCode, no_action_within_budget,
  compression_planned, compression_committed, summary_fallback_fifo,
}
use attention_sink.Domain.Errors.{
  ErrorContext, Result, ok, raise, key_error, policy_error, lineage_error, unsatisfiable_budget,
  ◌>>=◌, ◌>>◌, require, for_each, traverse,
}
use attention_sink.Domain.Runtime.{Float}
use attention_sink.Domain.Tokens.{TokenBudget, is_satisfied_by}
use attention_sink.Domain.Memory.{Memory, MemoryLineageEdge, edge_check, make_memory_id, is_active}
use attention_sink.Domain.Decision.{CompressionPlan, plan_check, PolicyDecision}
use attention_sink.Domain.Cycle.{CycleContext}
use attention_sink.Domain.Configuration.{SummarizationConfig}
use attention_sink.Domain.State.{
  MemoryState, ids, active_memories, active_tokens, get, next_memory_id,
}
use attention_sink.Policies.Base.{
  Candidate, Proposal, eligible_memories, rank_candidates, greedy_victims, proposal, policy_context,
  build_decision, ordered_decision,
}
use attention_sink.Policies.Fifo.{fifo_ordering}

abbrev pub version : String
version = "summary-v1"

-- `tokens_before - freed + limit <= ceiling`
abbrev pub plan_fits : SummarizationConfig → ℤ → TokenBudget → ℕ → Bool
plan_fits config tokens_before budget freed =
    leb_ℤ (tokens_before -ℤ pos freed +ℤ pos config.summary_target_token_limit)
      (pos budget.max_active_tokens -ℤ pos config.safety_margin_tokens)

-- The constructor of a plan checks it.
abbrev pub checked_plan : Option CompressionPlan → Result (Option CompressionPlan)
checked_plan none = ok none
checked_plan (some plan) = plan_check plan >>= λ _. ok (some plan)

module _ {S : Type 0} where
  -- The plan over the first `size` sources.
  abbrev pub plan_of : SummarizationConfig → List (Memory S) → String → ℕ → ℕ → CompressionPlan
  plan_of config sources summary_memory_id size freed = record {
    source_memory_ids = ids (take size sources);
    summary_memory_id = summary_memory_id;
    summary_target_token_limit = config.summary_target_token_limit;
    tokens_freed = freed;
    safety_margin_tokens = config.safety_margin_tokens;
  }

  -- The loop of `_plan_compression`, over the sources that are left: the shortest prefix that is long
  -- enough and fits.
  unfoldable pub plan_loop :
      SummarizationConfig
      → List (Memory S)
      → ℤ
      → TokenBudget
      → String
      → List (Memory S)
      → ℕ
      → ℕ
      → Option CompressionPlan
  plan_loop config sources tokens_before budget summary_memory_id [] size freed = none
  plan_loop config sources tokens_before budget summary_memory_id (m ∷ rest) size freed =
      let size' = suc size in
      let freed' = freed + m.token_count in
      let next =
        plan_loop config sources tokens_before budget summary_memory_id rest size' freed' in
      if leb config.min_sources size' && plan_fits config tokens_before budget freed'
      then some (plan_of config sources summary_memory_id size' freed')
      else next

  unfoldable pub plan_compression :
      SummarizationConfig
      → List (Memory S)
      → ℤ
      → TokenBudget
      → String
      → Result (Option CompressionPlan)
  unfolding plan_loop
  plan_compression config sources tokens_before budget summary_memory_id =
      checked_plan (plan_loop config sources tokens_before budget summary_memory_id sources 0 0)

  -- `state.get(id) is None or not found.is_active`
  abbrev pub is_missing : Option (Memory S) → Bool
  is_missing none = true
  is_missing (some found) = not (is_active found)

  -- `_validate_summary`
  unfoldable pub validate_summary :
      MemoryState S → CompressionPlan → Memory S → ErrorContext → Result (Unit {0})
  validate_summary state plan m context = do
    require (m.memory_kind == summary) (lineage_error context)
    require (same_set m.parent_memory_ids plan.source_memory_ids) (lineage_error context)
    require (m.memory_id == plan.summary_memory_id) (lineage_error context)
    require (leb m.token_count plan.summary_target_token_limit) (policy_error context)
    require (all (λ memory_id. not (is_missing (get state memory_id))) plan.source_memory_ids)
        (lineage_error context)

  -- `active[memory_id]`; the dictionary holds the active memories.
  abbrev pub active_by_id : List (Memory S) → String → Result (Memory S)
  active_by_id [] memory_id = raise key_error
  active_by_id (m ∷ ms) memory_id =
      if m.memory_id == memory_id then ok m else active_by_id ms memory_id

  abbrev pub edges_into : Memory S → ℕ → List (Memory S) → List MemoryLineageEdge
  edges_into m cycle = map λ source. record {
    parent_memory_id = source.memory_id;
    child_memory_id = m.memory_id;
    relation = compressed_into;
    cycle = cycle;
  }

  abbrev pub candidate_memories : List (Candidate S) → List (Memory S)
  candidate_memories = map λ c. c.0

module _ {S : Type 0} ⦃float : Float S⦄ where
  -- `_fifo_fallback`
  unfoldable pub fifo_fallback :
      SummarizationConfig → MemoryState S → TokenBudget → CycleContext → Result (PolicyDecision S)
  fifo_fallback config state budget context = do
    require config.fifo_fallback_enabled (unsatisfiable_budget (policy_context context version))
    ordered_decision state budget context version summary_fallback_fifo (fifo_ordering S) none

  -- What follows from the plan: a request for a summary, or the fallback.
  unfoldable pub planned_or_fallback :
      SummarizationConfig
      → MemoryState S
      → TokenBudget
      → CycleContext
      → List (Candidate S)
      → Option CompressionPlan
      → Result (PolicyDecision S)
  planned_or_fallback config state budget context candidates none =
      fifo_fallback config state budget context
  planned_or_fallback config state budget context candidates (some plan) =
      build_decision state budget context version
        (record (proposal compression_planned candidates [] (pos (active_tokens state))) {
          compression_plan = some plan;
        })

  -- `SummarizationPolicy.rebalance`
  unfoldable pub summary_rebalance :
      SummarizationConfig → MemoryState S → TokenBudget → CycleContext → Result (PolicyDecision S)
  unfolding fifo_fallback planned_or_fallback
  summary_rebalance config state budget context = do
    candidates ← rank_candidates (eligible_memories state context none) (fifo_ordering S)
    if is_satisfied_by budget (pos (active_tokens state))
        then build_decision state budget context version
            (proposal no_action_within_budget candidates [] (pos (active_tokens state)))
        else (plan_compression config (candidate_memories candidates) (pos (active_tokens state))
              budget (next_memory_id state)
            >>= planned_or_fallback config state budget context candidates)

  -- The proposal that commits `m` for `sources`, to which the three outcomes add.
  abbrev pub committing :
      PolicyDecisionCode
      → List (Candidate S)
      → List (Memory S)
      → ℤ
      → List (Memory S)
      → Memory S
      → List MemoryLineageEdge
      → CompressionPlan
      → Proposal S
  committing code candidates victims tokens_after sources m lineage plan =
      record (proposal code candidates victims tokens_after) {
        compressed_memories = sources;
        created_memories = m ∷ [];
        lineage_edges = lineage;
        committed_compression = some plan;
        summary_tokens = m.token_count;
      }

  -- The outcomes of `finalize_compression` on an arm that is still over its budget.
  unfoldable pub finalize_over_budget :
      SummarizationConfig
      → MemoryState S
      → TokenBudget
      → CycleContext
      → List (Candidate S)
      → List (Candidate S)
      → ℤ
      → Memory S
      → List MemoryLineageEdge
      → CompressionPlan
      → Option CompressionPlan
      → Result (PolicyDecision S)
  finalize_over_budget config state budget context source_candidates candidates tokens m lineage
        plan (some next_plan) =
      build_decision state budget context version
        (record (committing compression_planned (source_candidates ++ candidates) [] tokens
          (candidate_memories source_candidates) m lineage plan) {
            compression_plan = some next_plan;
          })
  finalize_over_budget config state budget context source_candidates candidates tokens m lineage
        plan none =
      require config.fifo_fallback_enabled (unsatisfiable_budget (policy_context context version))
      >> (let taken = greedy_victims candidates tokens budget in
          build_decision state budget context version (
            committing summary_fallback_fifo (source_candidates ++ candidates) taken.0 taken.1
              (candidate_memories source_candidates) m lineage plan))

  -- `finalize_compression`
  unfoldable pub finalize_compression :
      SummarizationConfig
      → MemoryState S
      → TokenBudget
      → CycleContext
      → CompressionPlan
      → Memory S
      → Result (PolicyDecision S)
  unfolding validate_summary finalize_over_budget
  finalize_compression config state budget context plan m = do
    validate_summary state plan m (policy_context context version)
    planned ← traverse (active_by_id (active_memories state)) plan.source_memory_ids
    source_candidates ← rank_candidates planned (fifo_ordering S)
    let sources = candidate_memories source_candidates
    let tokens_after = pos (active_tokens state) -ℤ pos plan.tokens_freed +ℤ pos m.token_count
    let lineage = edges_into m context.cycle sources
    for_each edge_check lineage
    let surviving =
        filter (λ n. not (contains plan.source_memory_ids n.memory_id))
          (eligible_memories state context none)
    candidates ← rank_candidates surviving (fifo_ordering S)
    if is_satisfied_by budget tokens_after
        then build_decision state budget context version (
            committing compression_committed (source_candidates ++ candidates) [] tokens_after
              sources m lineage plan)
        else (plan_compression config surviving tokens_after budget
              (make_memory_id context.arm_id (state.next_creation_sequence + 1))
            >>= finalize_over_budget config state budget context source_candidates candidates
                tokens_after m lineage plan)
