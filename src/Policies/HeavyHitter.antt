-- ===== src/Policies/HeavyHitter.antt =====
-- packages/policies/attention_sink/policies/heavy_hitter.py: the memory with the least citation weight per
-- token goes first, the newest few last of all.
use attention_sink.Prelude.{
  String, none, List, [], ◌∷◌, leb, string_eq, is_empty, any, take, sorted, contains, if◌then◌else◌,
}
use attention_sink.Prelude.Int.{ℤ, pos}
use attention_sink.Domain.Enums.{
  PolicyDecisionCode, no_action_within_budget, heavy_hitter_reserve_broken,
  evicted_lowest_retention_density,
}
use attention_sink.Domain.Errors.{Result, ◌>>=◌}
use attention_sink.Domain.Runtime.{Float}
use attention_sink.Domain.Tokens.{TokenBudget}
use attention_sink.Domain.Memory.{Memory, retention_density}
use attention_sink.Domain.Decision.{PolicyDecision}
use attention_sink.Domain.Cycle.{CycleContext}
use attention_sink.Domain.Configuration.{HeavyHitterConfig}
use attention_sink.Domain.State.{MemoryState, ids, active_memories, active_tokens}
use attention_sink.Policies.Base.{
  RankOrdering, int_field, float_field, memory_id_field, eligible_memories, rank_candidates,
  greedy_victims, proposal, build_decision,
}
use attention_sink.Policies.Lru.{last_cited}

-- `int(memory.memory_id in reserved)`
abbrev pub reserved_flag : {S : Type 0} → List String → Memory S → ℤ
reserved_flag reserved m = if contains reserved m.memory_id then pos 1 else pos 0

module _ {S : Type 0} ⦃float : Float S⦄ where
  -- `_ordering`
  abbrev pub heavy_ordering : List String → RankOrdering S
  heavy_ordering reserved =
      int_field "recency_reserved" (reserved_flag reserved)
      ∷ float_field "retention_density" retention_density
      ∷ float_field "discounted_citation_score" (λ m. m.discounted_citation_score)
      ∷ int_field "last_verified_citation_cycle" last_cited
      ∷ int_field "birth_cycle" (λ m. pos m.birth_cycle)
      ∷ memory_id_field S
      ∷ []

module _ {S : Type 0} where
  -- `_reserved_ids`; a reserve of zero takes nothing.
  unfoldable pub reserved_ids : HeavyHitterConfig → MemoryState S → List String
  reserved_ids config state = ids (
      take config.recency_reserve
        (sorted (λ m n. leb n.creation_sequence m.creation_sequence) (active_memories state)))

  unfoldable pub heavy_code : List String → List (Memory S) → PolicyDecisionCode
  heavy_code reserved victims =
      if is_empty victims
      then no_action_within_budget
      else if any (λ m. contains reserved m.memory_id) victims
      then heavy_hitter_reserve_broken
      else evicted_lowest_retention_density

module _ {S : Type 0} ⦃float : Float S⦄ where
  -- `CitationWeightPolicy.rebalance`
  unfoldable pub heavy_rebalance :
      HeavyHitterConfig → MemoryState S → TokenBudget → CycleContext → Result (PolicyDecision S)
  heavy_rebalance config state budget context = do
    let reserved = reserved_ids config state
    candidates ← rank_candidates (eligible_memories state context none) (heavy_ordering reserved)
    let taken = greedy_victims candidates (pos (active_tokens state)) budget
    build_decision state budget context "heavy-v1"
        (proposal (heavy_code reserved taken.0) candidates taken.0 taken.1)
