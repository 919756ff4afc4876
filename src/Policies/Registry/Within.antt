-- ===== src/Policies/Registry/Within.antt =====
-- Every mechanism of the registry, the drawing and the summarizing ones too: what a decision that it returns
-- promises, and what follows once `apply` has carried it out.
use attention_sink.Prelude.{
  ◌≤◌, ◌≡◌, String, Bool, true, Option, none, some, List, filter, not, contains, length, if-cases,
  ◌+◌, string_eq,
}
use attention_sink.Prelude.Int.{ℤ, pos, ◌+ℤ◌, ◌-ℤ◌}
use attention_sink.Domain.Errors.{ok, unsatisfiable_budget, require, for_each, traverse, >>=-eq-ok}
use attention_sink.Domain.Runtime.{Host, Float}
use attention_sink.Domain.Tokens.{TokenBudget, is_satisfied_by}
use attention_sink.Domain.Memory.{Memory, MemoryLineageEdge, edge_check, make_memory_id}
use attention_sink.Domain.Decision.{CompressionPlan, PolicyDecision, is_final}
use attention_sink.Domain.Cycle.{CycleContext}
use attention_sink.Domain.Configuration.{SummarizationConfig}
use attention_sink.Domain.State.{MemoryState, active_memories, active_tokens, next_memory_id, apply}
use attention_sink.Domain.State.Sound.{apply-CarriedOut}
use attention_sink.Policies.Base.{
  RankOrdering, Candidate, eligible_memories, rank_candidates, policy_context, ordered_decision,
}
use attention_sink.Policies.Base.Built.{Built, build_decision-Built, Built-within-pos}
use attention_sink.Policies.Fifo.{fifo_ordering, fifo_rebalance}
use attention_sink.Policies.Lru.{lru_ordering, lru_rebalance}
use attention_sink.Policies.HeavyHitter.{heavy_ordering, reserved_ids, heavy_rebalance}
use attention_sink.Policies.PinnedOrigin.{pinned_rebalance}
use attention_sink.Policies.Reference.{full_rebalance, stateless_rebalance}
use attention_sink.Policies.SeededRandom.{start_drawing, draw_loop, provenance, random_rebalance}
use attention_sink.Policies.Summarization.{
  version, plan_compression, validate_summary, active_by_id, edges_into, candidate_memories,
  fifo_fallback, planned_or_fallback, summary_rebalance, finalize_over_budget, finalize_compression,
}
use attention_sink.Policies.Registry.{
  MemoryPolicy, fifo, lru, random, full, stateless, heavy, pinned, summarizing, policy_version,
  rebalance,
}

module _ {S : Type 0} ⦃float : Float S⦄ (state : MemoryState S) (budget : TokenBudget)
    (context : CycleContext) where
  ordered-Built :
      (label : String) (code : _) (ordering : RankOrdering S) (protect : Option (Memory S → Bool))
      (d : PolicyDecision S)
      → ordered_decision state budget context label code ordering protect ≡ ok d
      → Built budget context label d
  unfolding ordered_decision
  ordered-Built label code ordering protect d h =
      let ranked =
        >>=-eq-ok (rank_candidates (eligible_memories state context protect) ordering) _ h in
      build_decision-Built state budget context label _ d ranked.2

  stateless-Built :
      (d : PolicyDecision S)
      → stateless_rebalance state budget context ≡ ok d
      → Built budget context "stateless-v1" d
  unfolding stateless_rebalance
  stateless-Built d h =
      let ranked =
        >>=-eq-ok (rank_candidates (eligible_memories state context none) (fifo_ordering S)) _ h in
      build_decision-Built state budget context "stateless-v1" _ d ranked.2

  heavy-Built :
      (config : _) (d : PolicyDecision S)
      → heavy_rebalance config state budget context ≡ ok d
      → Built budget context "heavy-v1" d
  unfolding heavy_rebalance
  heavy-Built config d h =
      let ranked =
        >>=-eq-ok
          (rank_candidates (eligible_memories state context none)
            (heavy_ordering (reserved_ids config state)))
          _ h in
      build_decision-Built state budget context "heavy-v1" _ d ranked.2

  module _ (config : SummarizationConfig) where
    fallback-Built :
        (d : PolicyDecision S)
        → fifo_fallback config state budget context ≡ ok d
        → Built budget context version d
    unfolding fifo_fallback
    fallback-Built d h =
        let enabled =
          >>=-eq-ok
            (require config.fifo_fallback_enabled
              (unsatisfiable_budget (policy_context context version)))
            _ h in
        ordered-Built version _ (fifo_ordering S) none d enabled.2

    planned-Built :
        (candidates : List (Candidate S)) (plan : Option CompressionPlan) (d : PolicyDecision S)
        → planned_or_fallback config state budget context candidates plan ≡ ok d
        → Built budget context version d
    unfolding planned_or_fallback
    planned-Built candidates none d h = fallback-Built d h
    planned-Built candidates (some plan) d h =
        build_decision-Built state budget context version _ d h

    summary-Built :
        (d : PolicyDecision S)
        → summary_rebalance config state budget context ≡ ok d
        → Built budget context version d
    unfolding summary_rebalance
    summary-Built d h =
        let ranked =
          >>=-eq-ok (rank_candidates (eligible_memories state context none) (fifo_ordering S)) _
            h in
        if-cases (is_satisfied_by budget (pos (active_tokens state))) ranked.2
          (λ fits. build_decision-Built state budget context version _ d fits)
          (λ over.
            let planned =
              >>=-eq-ok
                (plan_compression config (candidate_memories ranked.0) (pos (active_tokens state))
                  budget (next_memory_id state))
                _ over in
            planned-Built ranked.0 planned.0 d planned.2)

    over_budget-Built :
        (source_candidates candidates : List (Candidate S)) (tokens : ℤ) (m : Memory S)
        (lineage : List MemoryLineageEdge) (plan : CompressionPlan)
        (next_plan : Option CompressionPlan) (d : PolicyDecision S)
        → finalize_over_budget config state budget context source_candidates candidates tokens m
            lineage plan next_plan
          ≡ ok d
        → Built budget context version d
    unfolding finalize_over_budget
    over_budget-Built source_candidates candidates tokens m lineage plan (some next_plan) d h =
        build_decision-Built state budget context version _ d h
    over_budget-Built source_candidates candidates tokens m lineage plan none d h =
        let enabled =
          >>=-eq-ok
            (require config.fifo_fallback_enabled
              (unsatisfiable_budget (policy_context context version)))
            _ h in
        build_decision-Built state budget context version _ d enabled.2

    pub finalize_compression-Built :
        (plan : CompressionPlan) (m : Memory S) (d : PolicyDecision S)
        → finalize_compression config state budget context plan m ≡ ok d
        → Built budget context version d
    unfolding finalize_compression
    finalize_compression-Built plan m d h =
        let tokens_after =
          pos (active_tokens state) -ℤ pos plan.tokens_freed +ℤ pos m.token_count in
        let surviving =
          filter (λ (n : Memory S). not (contains plan.source_memory_ids n.memory_id))
            (eligible_memories state context none) in
        let validated =
          >>=-eq-ok (validate_summary state plan m (policy_context context version)) _ h in
        let found =
          >>=-eq-ok (traverse (active_by_id (active_memories state)) plan.source_memory_ids) _
            validated.2 in
        let sources = >>=-eq-ok (rank_candidates found.0 (fifo_ordering S)) _ found.2 in
        let lineage = edges_into m context.cycle (candidate_memories sources.0) in
        let edges = >>=-eq-ok (for_each edge_check lineage) _ sources.2 in
        let ranked = >>=-eq-ok (rank_candidates surviving (fifo_ordering S)) _ edges.2 in
        if-cases (is_satisfied_by budget tokens_after) ranked.2
          (λ fits. build_decision-Built state budget context version _ d fits)
          (λ over.
            let planned =
              >>=-eq-ok
                (plan_compression config surviving tokens_after budget
                  (make_memory_id context.arm_id (state.next_creation_sequence + 1)))
                _ over in
            over_budget-Built sources.0 ranked.0 tokens_after m lineage plan planned.0 d planned.2)

module _ {S : Type 0} ⦃host : Host⦄ ⦃float : Float S⦄ (state : MemoryState S) (budget : TokenBudget)
    (context : CycleContext) where
  random-Built :
      (d : PolicyDecision S)
      → random_rebalance state budget context ≡ ok d
      → Built budget context "random-v1" d
  unfolding random_rebalance
  random-Built d h =
      let start = start_drawing state context in
      let drawing = >>=-eq-ok (draw_loop (length start.remaining) budget context start) _ h in
      let recorded = >>=-eq-ok (provenance context drawing.0.draws) _ drawing.2 in
      build_decision-Built state budget context "random-v1" _ d recorded.2

  -- Every decision that a mechanism returns is for the run, arm and cycle it was asked about, under the budget and
  -- the version of the mechanism, and passes the checks of its constructor.
  pub rebalance-Built :
      (policy : MemoryPolicy) (d : PolicyDecision S)
      → rebalance policy state budget context ≡ ok d
      → Built budget context (policy_version policy) d
  unfolding rebalance fifo_rebalance lru_rebalance pinned_rebalance full_rebalance
  rebalance-Built fifo d h =
      ordered-Built state budget context "fifo-v1" _ (fifo_ordering S) none d h
  rebalance-Built lru d h = ordered-Built state budget context "lru-v1" _ (lru_ordering S) none d h
  rebalance-Built random d h = random-Built d h
  rebalance-Built full d h = build_decision-Built state budget context "full-v1" _ d h
  rebalance-Built stateless d h = stateless-Built state budget context d h
  rebalance-Built (heavy config) d h = heavy-Built state budget context config d h
  rebalance-Built (pinned config) d h =
      ordered-Built state budget context "sink-v1" _ (fifo_ordering S) _ d h
  rebalance-Built (summarizing config) d h = summary-Built state budget context config d h

  -- If a mechanism's decision needs no summary and `apply` carries it out, the active memories cost no more than
  -- the budget: this holds of all eight mechanisms, in every state.
  pub rebalance-within :
      (policy : MemoryPolicy) (d : PolicyDecision S) (t : MemoryState S)
      → rebalance policy state budget context ≡ ok d
      → is_final d ≡ true
      → apply state d ≡ ok t
      → active_tokens t ≤ budget.max_active_tokens
  rebalance-within policy d t decided final applied =
      Built-within-pos budget context (policy_version policy) d (active_tokens t)
        (rebalance-Built policy d decided) final (apply-CarriedOut state t d applied).cost_after

  -- If the decision that commits a summary needs no further summary, and `apply` carries it out, the active memories
  -- cost no more than the budget.
  pub finalize-within :
      (config : SummarizationConfig) (plan : CompressionPlan) (m : Memory S) (d : PolicyDecision S)
      (t : MemoryState S)
      → finalize_compression config state budget context plan m ≡ ok d
      → is_final d ≡ true
      → apply state d ≡ ok t
      → active_tokens t ≤ budget.max_active_tokens
  finalize-within config plan m d t decided final applied =
      Built-within-pos budget context version d (active_tokens t)
        (finalize_compression-Built state budget context config plan m d decided) final
        (apply-CarriedOut state t d applied).cost_after
