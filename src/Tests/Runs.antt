-- ===== src/Tests/Runs.antt =====
-- The oldest of the three memories is evicted to bring 90 tokens within 60.
use attention_sink.Prelude.{ℕ, ◌≡◌, refl, some, [], ◌∷◌}
use attention_sink.Prelude.Int.{pos, ◌-ℤ◌}
use attention_sink.Domain.Enums.{arm_fifo, evicted, evicted_oldest}
use attention_sink.Domain.Errors.{ok}
use attention_sink.Domain.Memory.{
  make_memory_id, check_fields, check_lineage, check_retirement, check_citations, check_invariants,
  fill_content_hash, validate, retire,
}
use attention_sink.Domain.Hashing.{content_hash}
use attention_sink.Domain.Decision.{PolicyDecision, rank_check, retirement_check, decision_check}
use attention_sink.Domain.State.{
  MemoryState, state_check, check_identity, rebuild, revalidate, admit, retire_loop, retire_found,
  apply,
}
use attention_sink.Domain.Explain.{render_explanation}
use attention_sink.Policies.Base.{
  proposal, assemble, build_decision, eligible_memories, greedy_victims, compare_by, render_key,
  rank_candidates, ordered_decision,
}
use attention_sink.Policies.Base.Ranking.{keyed_by}
use attention_sink.Policies.Fifo.{fifo_ordering, fifo_rebalance}
use attention_sink.Policies.Registry.{fifo, rebalance}
use attention_sink.Tests.Fixtures.{host, whole, memory, three, budget, context}

abbrev pub evict_first : PolicyDecision ℕ
evict_first = assemble (three arm_fifo) (budget 60) (context arm_fifo 2) "fifo-v1" (
    proposal evicted_oldest
      (keyed_by (render_key (fifo_ordering ℕ))
        (memory arm_fifo 0 0 40 ∷ memory arm_fifo 1 1 30 ∷ []))
      (memory arm_fifo 0 0 40 ∷ []) (pos 50))

pub evict_first-decided :
    rebalance fifo (three arm_fifo) (budget 60) (context arm_fifo 2) ≡ ok evict_first
unfolding rebalance fifo_rebalance ordered_decision rank_candidates eligible_memories greedy_victims
    build_decision assemble rank_check retirement_check decision_check render_explanation compare_by
    render_key make_memory_id ◌-ℤ◌
evict_first-decided = refl

abbrev pub without_first : MemoryState ℕ
without_first = record (three arm_fifo) {
  memories =
      record (memory arm_fifo 0 0 40) { status = evicted; retirement_cycle = some 2 }
      ∷ memory arm_fifo 1 1 30
      ∷ memory arm_fifo 2 2 20
      ∷ [];
}

pub evict_first-applied : apply (three arm_fifo) evict_first ≡ ok without_first
unfolding apply retire_loop retire_found retire validate fill_content_hash check_fields
    check_invariants check_lineage check_retirement check_citations revalidate rebuild state_check
    check_identity admit assemble make_memory_id content_hash
evict_first-applied = refl
