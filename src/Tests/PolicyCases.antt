-- ===== src/Tests/PolicyCases.antt =====
-- The theorems on decisions at concrete inputs: an eviction, and the commit of a summary.
use attention_sink.Prelude.{
  List, ℕ, ◌-◌, ◌≤◌, ◌<◌, ◌≡◌, ◌↔◌, ◌⊎◌, refl, arith, String, some, [], ◌∷◌, take, none,
}
use attention_sink.Prelude.Int.{pos, ◌+ℤ◌, ◌-ℤ◌}
use attention_sink.Domain.Enums.{
  seed, arm_fifo, arm_lru, arm_full, arm_summary, arm_eq, summary, compressed,
  compression_committed,
}
use attention_sink.Domain.Errors.{ok, raise, policy_error}
use attention_sink.Domain.Hashing.{content_hash}
use attention_sink.Domain.Memory.{
  Memory, make_memory_id, check_fields, check_lineage, check_retirement, check_citations,
  check_invariants, fill_content_hash, validate, retire, edge_check,
}
use attention_sink.Domain.Decision.{
  CompressionPlan, PolicyDecision, rank_check, retirement_check, decision_check, plan_check,
}
use attention_sink.Domain.Configuration.Seeds.{OriginFits, validate_seed_memories-eq-ok}
use attention_sink.Domain.Configuration.{
  run_context, validate_seed_memories, RunConfiguration, default_configuration,
}
use attention_sink.Domain.Explain.{render_explanation}
use attention_sink.Domain.State.{
  MemoryState, cost, active_tokens, state_check, check_identity, check_created, rebuild, revalidate,
  admit_loop, admit, retire_loop, retire_found, apply, next_memory_id,
}
use attention_sink.Policies.Base.{
  assemble, build_decision, eligible_memories, greedy_victims, compare_by, render_key,
  rank_candidates,
}
use attention_sink.Policies.Base.Ranking.{keyed_by}
use attention_sink.Policies.Base.Greedy.{greedy_victims-prefix}
use attention_sink.Policies.Base.Built.{Built}
use attention_sink.Policies.Fifo.{fifo_ordering}
use attention_sink.Policies.Summarization.{
  plan_of, validate_summary, edges_into, committing, finalize_compression, plan_compression,
  plan_loop,
}
use attention_sink.Policies.Registry.{fifo}
use attention_sink.Policies.Registry.Within.{rebalance-Built, rebalance-within, finalize-within}
use attention_sink.Policies.Registry.Commits.{finalize_compression-commits}
use attention_sink.Tests.Fixtures.{host, whole, memory, three, budget, context}
use attention_sink.Tests.Runs.{evict_first, without_first, evict_first-decided, evict_first-applied}
use attention_sink.Tests.SummaryCases.{config, sources}

rebalance-Built_example : Built (budget 60) (context arm_fifo 2) "fifo-v1" evict_first
rebalance-Built_example =
    rebalance-Built (three arm_fifo) (budget 60) (context arm_fifo 2) fifo evict_first
      evict_first-decided

rebalance-within_example : active_tokens without_first ≤ 60
unfolding assemble
rebalance-within_example =
    rebalance-within (three arm_fifo) (budget 60) (context arm_fifo 2) fifo evict_first
      without_first evict_first-decided refl evict_first-applied

abbrev key : Memory ℕ → String
key m = m.memory_id

greedy_victims-prefix_example :
    (n : ℕ) × (greedy_victims (keyed_by key sources) (pos 90) (budget 60)
      ≡ (take n sources, pos (90 - cost (take n sources))))
    × ((j : ℕ) → j < n → 60 < 90 - cost (take j sources))
    × ((90 - cost (take n sources) ≤ 60) ⊎ (take n sources ≡ sources))
greedy_victims-prefix_example = greedy_victims-prefix key (budget 60) sources 90 (omega arith)

abbrev run : RunConfiguration
run = record {
  run_id = "run-1";
  budget = budget 60;
  random_seed = "seed-0001";
  arms = arm_full ∷ arm_lru ∷ arm_fifo ∷ [];
  policies = default_configuration;
}

-- A summary of the first two memories, of 15 tokens.
abbrev summarized : Memory ℕ
summarized = record (memory arm_summary 3 2 15) {
  memory_kind = summary;
  parent_memory_ids = "mem_arm_summary_000000" ∷ "mem_arm_summary_000001" ∷ [];
}

abbrev plan : CompressionPlan
plan = plan_of config sources "mem_arm_summary_000003" 2 70

abbrev committed : PolicyDecision ℕ
committed = assemble (three arm_summary) (budget 60) (context arm_summary 2) "summary-v1" (
    committing compression_committed (keyed_by (render_key (fifo_ordering ℕ)) (take 2 sources)) []
      (pos 35) (take 2 sources) summarized (edges_into summarized 2 (take 2 sources)) plan)

committed-finalized :
    finalize_compression config
      (three arm_summary)
      (budget 60)
      (context arm_summary 2)
      plan
      summarized
    ≡ ok committed
unfolding finalize_compression validate_summary rank_candidates eligible_memories build_decision
    assemble rank_check retirement_check decision_check render_explanation compare_by render_key
    make_memory_id ◌+ℤ◌ ◌-ℤ◌ edge_check
committed-finalized = refl

abbrev compressed_state : MemoryState ℕ
compressed_state = record (three arm_summary) {
  memories =
      record (memory arm_summary 0 0 40) { status = compressed; retirement_cycle = some 2 }
      ∷ record (memory arm_summary 1 1 30) { status = compressed; retirement_cycle = some 2 }
      ∷ memory arm_summary 2 2 20
      ∷ summarized
      ∷ [];
  lineage_edges = edges_into summarized 2 (take 2 sources);
  next_creation_sequence = 4;
}

committed-applied : apply (three arm_summary) committed ≡ ok compressed_state
unfolding apply retire_loop retire_found retire validate fill_content_hash check_fields
    check_invariants check_lineage check_retirement check_citations revalidate rebuild state_check
    check_identity check_created admit admit_loop assemble make_memory_id content_hash edge_check
committed-applied = refl

finalize-within_example : active_tokens compressed_state ≤ 60
unfolding assemble
finalize-within_example =
    finalize-within (three arm_summary) (budget 60) (context arm_summary 2) config plan summarized
      committed compressed_state committed-finalized refl committed-applied

three-planned :
    plan_compression config sources (pos 90) (budget 60) (next_memory_id (three arm_summary))
    ≡ ok (some plan)
unfolding plan_compression plan_loop plan_check ◌+ℤ◌ ◌-ℤ◌ make_memory_id next_memory_id
three-planned = refl

finalize_compression-commits_example :
    (committed.decision_code ≡ compression_committed)
    × (committed.compression_plan ≡ none)
    × (pos 35 ≡ pos 90 -ℤ pos 70 +ℤ pos 15)
    × (35 ≤ 60)
unfolding assemble
finalize_compression-commits_example =
    finalize_compression-commits config (three arm_summary) (budget 60) (context arm_summary 2) plan
      summarized sources committed compressed_state three-planned committed-finalized
      committed-applied

-- A run that pins a memory which is not among its seeds.
abbrev pinning : RunConfiguration
pinning = record run {
  policies = record default_configuration {
    pinned_origin = record { pinned_memory_id = some "mem_arm_sink_000000" };
  };
}

abbrev seeds : List (Memory ℕ)
seeds = record (memory arm_fifo 0 0 40) { memory_kind = seed } ∷ memory arm_fifo 1 0 10 ∷ []

refused : validate_seed_memories pinning seeds ≡ raise (policy_error (run_context pinning))
unfolding validate_seed_memories make_memory_id
refused = refl

accepted : validate_seed_memories run seeds ≡ ok tt
unfolding validate_seed_memories
accepted = refl

validate_seed_memories-eq-ok_example : (validate_seed_memories run seeds ≡ ok tt) ↔ (
    OriginFits run seeds run.policies.pinned_origin.pinned_memory_id
    × (cost seeds ≤ run.budget.max_active_tokens))
validate_seed_memories-eq-ok_example = validate_seed_memories-eq-ok run seeds
