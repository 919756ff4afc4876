-- ===== src/Policies/Registry/Commits.antt =====
-- packages/policies/attention_sink/policies/summarization.py: `finalize_compression` of a plan that was made for what
-- the arm costs.
use attention_sink.Prelude.{
  sym, ap, ◌∙◌, false, ℕ, leb, leb→le, and-right, [], ◌++◌, ◌==◌, same_set, take, list_eq, nat_eq,
  if◌then◌else◌, ◌≤◌, ◌≡◌, String, Bool, true, none, some, List, filter, not, contains, string_eq,
}
use attention_sink.Prelude.Int.{ℤ, pos, ◌+ℤ◌, ◌-ℤ◌}
use attention_sink.Domain.Errors.{
  ErrorContext, lineage_error, policy_error, require-eq-ok, ok, require, for_each, traverse,
  >>=-eq-ok,
}
use attention_sink.Domain.Runtime.{Host, Float}
use attention_sink.Domain.Tokens.{TokenBudget, is_satisfied_by}
use attention_sink.Domain.Memory.{Memory, MemoryLineageEdge, edge_check, is_some}
use attention_sink.Domain.Decision.{CompressionPlan, PolicyDecision}
use attention_sink.Domain.Cycle.{CycleContext}
use attention_sink.Domain.Configuration.{SummarizationConfig}
use attention_sink.Domain.State.{
  MemoryState, cost, active_memories, active_tokens, next_memory_id, apply,
}
use attention_sink.Domain.State.Sound.{apply-CarriedOut}
use attention_sink.Policies.Base.{
  Candidate, eligible_memories, rank_candidates, policy_context, assemble, build_decision,
}
use attention_sink.Policies.Base.Built.{build_decision-assemble}
use attention_sink.Policies.Fifo.{fifo_ordering}
use attention_sink.Policies.Summarization.{
  version, committing, plan_compression, validate_summary, active_by_id, edges_into,
  candidate_memories, finalize_compression,
}
use attention_sink.Domain.Enums.{summary, kind_eq, compression_committed}
use attention_sink.Policies.Summarization.Plans.{margin-left, plan_compression-IsShortest}
use attention_sink.Policies.Registry.Within.{finalize-within}

-- The branch of a test that holds.
first-branch : {A : Type 0} (b : Bool) (x y r : A) → b ≡ true → (if b then x else y) ≡ r → x ≡ r
first-branch true x y r h e = e
first-branch false x y r h e = cc

module _ {S : Type 0} (config : SummarizationConfig) (sources : List (Memory S)) (n : ℕ)
    (budget : TokenBudget) (memory_id : String) (plan : CompressionPlan)
    (planned : plan_compression config sources (pos n) budget memory_id ≡ ok (some plan)) where
  planned-limit : plan.summary_target_token_limit ≡ config.summary_target_token_limit
  planned-limit =
      ap (λ (p : CompressionPlan). p.summary_target_token_limit)
        (plan_compression-IsShortest config sources (pos n) budget memory_id plan planned).is_plan

  -- What was planned for fits without the margin once the summary is known to keep to its limit.
  planned-fits :
      (tokens : ℕ)
      → tokens ≤ plan.summary_target_token_limit
      → is_satisfied_by budget (pos n -ℤ pos plan.tokens_freed +ℤ pos tokens) ≡ true
  planned-fits tokens bound =
      let shortest =
        plan_compression-IsShortest config sources (pos n) budget memory_id plan planned in
      rw (ap (λ (p : CompressionPlan). p.tokens_freed) shortest.is_plan) (
        margin-left n (cost (take shortest.size sources)) config.summary_target_token_limit
          budget.max_active_tokens config.safety_margin_tokens tokens
          (and-right _ _ shortest.suitable) (rw planned-limit at bound))

module _ {S : Type 0} (state : MemoryState S) (plan : CompressionPlan) (m : Memory S)
    (context : ErrorContext) where
  validate_summary-limit :
      validate_summary state plan m context ≡ ok tt
      → m.token_count ≤ plan.summary_target_token_limit
  unfolding validate_summary
  validate_summary-limit h =
      let kind = >>=-eq-ok (require (m.memory_kind == summary) (lineage_error context)) _ h in
      let parents =
        >>=-eq-ok
          (require (same_set m.parent_memory_ids plan.source_memory_ids) (lineage_error context)) _
          kind.2 in
      let same =
        >>=-eq-ok (require (m.memory_id == plan.summary_memory_id) (lineage_error context)) _
          parents.2 in
      let short =
        >>=-eq-ok
          (require (leb m.token_count plan.summary_target_token_limit) (policy_error context)) _
          same.2 in
      leb→le _ _ (require-eq-ok _ (policy_error context) short.1)

module _ {S : Type 0} ⦃host : Host⦄ ⦃float : Float S⦄ (config : SummarizationConfig)
    (state : MemoryState S) (budget : TokenBudget) (context : CycleContext) (plan : CompressionPlan)
    (m : Memory S) where
  abbrev cost_with_summary : ℤ
  cost_with_summary = pos (active_tokens state) -ℤ pos plan.tokens_freed +ℤ pos m.token_count

  -- A commit that fits is built as such.
  record Committed (d : PolicyDecision S) : Type 0 where
    pub code : d.decision_code ≡ compression_committed
    pub nothing_asked : d.compression_plan ≡ none
    pub after : d.tokens_after ≡ cost_with_summary

  build_decision-Committed :
      (source_candidates candidates : List (Candidate S)) (lineage : List MemoryLineageEdge)
      (d : PolicyDecision S)
      → build_decision state budget context version (
          committing compression_committed
            (source_candidates ++ candidates)
            []
            cost_with_summary
            (candidate_memories source_candidates)
            m
            lineage
            plan)
        ≡ ok d
      → Committed d
  unfolding assemble
  build_decision-Committed source_candidates candidates lineage d h =
      let built = build_decision-assemble state budget context version _ d h in
      record {
        code = ap (λ (d : PolicyDecision S). d.decision_code) (sym built.0);
        nothing_asked = ap (λ (d : PolicyDecision S). d.compression_plan) (sym built.0);
        after = ap (λ (d : PolicyDecision S). d.tokens_after) (sym built.0);
      }

  finalize_compression-Committed :
      (d : PolicyDecision S)
      → (m.token_count ≤ plan.summary_target_token_limit
          → is_satisfied_by budget cost_with_summary ≡ true)
      → finalize_compression config state budget context plan m ≡ ok d
      → Committed d
  unfolding finalize_compression
  finalize_compression-Committed d fits h =
      let surviving =
        filter (λ (n : Memory S). not (contains plan.source_memory_ids n.memory_id))
          (eligible_memories state context none) in
      let validated =
        >>=-eq-ok (validate_summary state plan m (policy_context context version)) _ h in
      let found =
        >>=-eq-ok (traverse (active_by_id (active_memories state)) plan.source_memory_ids) _
          validated.2 in
      let sources = >>=-eq-ok (rank_candidates found.0 (fifo_ordering S)) _ found.2 in
      let lineage = edges_into m context.cycle (candidate_memories sources.0) in
      let edges = >>=-eq-ok (for_each edge_check lineage) _ sources.2 in
      let ranked = >>=-eq-ok (rank_candidates surviving (fifo_ordering S)) _ edges.2 in
      build_decision-Committed sources.0 ranked.0 lineage d (
        first-branch (is_satisfied_by budget cost_with_summary) _ _ (ok d)
          (fits (validate_summary-limit state plan m (policy_context context version) validated.1))
          ranked.2)

  -- If a plan was made for what the arm costs, `finalize_compression` returns a decision for its summary, and
  -- `apply` carries it out, then the decision commits the summary and asks for no further one, the active memories
  -- cost what they did less what the plan frees plus the summary, and that is within the budget.
  pub finalize_compression-commits :
      (sources : List (Memory S)) (d : PolicyDecision S) (t : MemoryState S)
      → plan_compression config sources (pos (active_tokens state)) budget (next_memory_id state)
        ≡ ok (some plan)
      → finalize_compression config state budget context plan m ≡ ok d
      → apply state d ≡ ok t
      → (d.decision_code ≡ compression_committed)
        × (d.compression_plan ≡ none)
        × (pos (active_tokens t)
            ≡ pos (active_tokens state) -ℤ pos plan.tokens_freed +ℤ pos m.token_count)
        × (active_tokens t ≤ budget.max_active_tokens)
  finalize_compression-commits sources d t planned finalized applied =
      let done =
        finalize_compression-Committed d
          (planned-fits config sources (active_tokens state) budget (next_memory_id state) plan
            planned m.token_count)
          finalized in
      (
        done.code,
        done.nothing_asked,
        sym (apply-CarriedOut state t d applied).cost_after ∙ done.after,
        finalize-within state budget context config plan m d t finalized
            (ap (λ p. not (is_some p)) done.nothing_asked) applied,
      )
