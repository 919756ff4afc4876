-- ===== src/Tests/Registry.antt =====
-- The mechanisms at the three memories of the fixtures.
use attention_sink.Prelude.{
  filter, none, ℕ, [], ◌∷◌, true, false, string_eq, subset, contains, length, ◌≡◌, ◌≤◌, ◌<◌, refl,
  arith,
}
use attention_sink.Domain.Enums.{arm_fifo}
use attention_sink.Domain.Errors.{ok, raise, unsatisfiable_budget}
use attention_sink.Prelude.Comparing.{compare-IsOrder}
use attention_sink.Domain.Memory.{make_memory_id}
use attention_sink.Domain.State.{ids, cost, next_memory_id}
use attention_sink.Policies.Base.{
  eligible_memories, rank_candidates, render_key, compare_by, policy_context, is_eligible,
}
use attention_sink.Policies.Base.Ready.{protected_tokens, Rebalanced}
use attention_sink.Policies.Registry.{fifo, rebalance, policy_version}
use attention_sink.Policies.Registry.Sound.{
  only_evicts, floor_tokens, rebalance-Rebalanced, rebalance-raises,
}
use attention_sink.Policies.Base.Ranking.{keyed_by}
use attention_sink.Policies.Base.Order.{Ranked, rank_candidates-Ranked}
use attention_sink.Policies.Fifo.{fifo_ordering}
use attention_sink.Policies.SeededRandom.Drawn.{Ends}
use attention_sink.Policies.SeededRandom.Sound.{drawable, affordable, start, start_drawing-Ends}
use attention_sink.Policies.Summarization.{summary_rebalance}
use attention_sink.Policies.Summarization.Requests.{by_age}
use attention_sink.Policies.Summarization.Outcomes.{Outcome}
use attention_sink.Policies.Summarization.Sound.{summary_rebalance-Outcome}
use attention_sink.Policies.Registry.Eligible.{ranks, may_retire, rebalance-may_retire}
use attention_sink.Tests.Runs.{evict_first, evict_first-decided}
use attention_sink.Tests.SummaryCases.{config}
use attention_sink.Tests.Fixtures.{memory, host, whole, three, budget, context}
use attention_sink.Tests.Valid.{three-IsReady, tight-IsReady}

three-fits : floor_tokens fifo (three arm_fifo) (context arm_fifo 2) ≤ 60
unfolding floor_tokens protected_tokens is_eligible
three-fits = omega arith

rebalance-Rebalanced_example :
    Rebalanced
      (three arm_fifo)
      (budget 60)
      (rebalance fifo (three arm_fifo) (budget 60) (context arm_fifo 2))
unfolding only_evicts
rebalance-Rebalanced_example =
    rebalance-Rebalanced (three arm_fifo) (budget 60) (context arm_fifo 2) three-IsReady refl fifo
      refl three-fits

tight-over : 10 < floor_tokens fifo (three arm_fifo) (context arm_fifo 2)
unfolding floor_tokens protected_tokens is_eligible
tight-over = omega arith

rebalance-raises_example :
    rebalance fifo (three arm_fifo) (budget 10) (context arm_fifo 2)
    ≡ raise (unsatisfiable_budget (policy_context (context arm_fifo 2) (policy_version fifo)))
unfolding only_evicts
rebalance-raises_example =
    rebalance-raises (three arm_fifo) (budget 10) (context arm_fifo 2) tight-IsReady refl fifo refl
      tight-over

rebalance-may_retire_example :
    subset evict_first.retired_memory_ids
      (ids (filter (may_retire (context arm_fifo 2) fifo) (three arm_fifo).memories))
    ≡ true
unfolding ranks
rebalance-may_retire_example =
    rebalance-may_retire (three arm_fifo) (budget 60) (context arm_fifo 2) fifo evict_first refl
      evict_first-decided

start_drawing-Ends_example :
    Ends
      (three arm_fifo)
      (budget 60)
      (context arm_fifo 2)
      (cost (drawable (three arm_fifo) (budget 60) (context arm_fifo 2) three-IsReady refl))
      (affordable (three arm_fifo) (budget 60) (context arm_fifo 2) three-IsReady refl)
      (length
        (start (three arm_fifo) (budget 60) (context arm_fifo 2) three-IsReady refl).remaining)
      (start (three arm_fifo) (budget 60) (context arm_fifo 2) three-IsReady refl)
start_drawing-Ends_example =
    start_drawing-Ends (three arm_fifo) (budget 60) (context arm_fifo 2) three-IsReady refl

rank_three :
    rank_candidates (eligible_memories (three arm_fifo) (context arm_fifo 2) none) (fifo_ordering ℕ)
    ≡ ok (
        keyed_by
          (render_key (fifo_ordering ℕ))
          (memory arm_fifo 0 0 40 ∷ memory arm_fifo 1 1 30 ∷ []))
unfolding rank_candidates eligible_memories compare_by
rank_three = refl

rank_candidates-Ranked_example :
    Ranked compare-IsOrder
      (fifo_ordering ℕ)
      (eligible_memories (three arm_fifo) (context arm_fifo 2) none)
      (keyed_by
        (render_key (fifo_ordering ℕ))
        (memory arm_fifo 0 0 40 ∷ memory arm_fifo 1 1 30 ∷ []))
rank_candidates-Ranked_example =
    rank_candidates-Ranked compare-IsOrder (fifo_ordering ℕ)
      (eligible_memories (three arm_fifo) (context arm_fifo 2) none)
      (keyed_by (render_key (fifo_ordering ℕ))
        (memory arm_fifo 0 0 40 ∷ memory arm_fifo 1 1 30 ∷ []))
      rank_three

next-fresh :
    contains
      (ids (by_age config (three arm_fifo) (budget 60) (context arm_fifo 2) three-IsReady))
      (next_memory_id (three arm_fifo))
    ≡ false
unfolding eligible_memories compare_by next_memory_id make_memory_id
next-fresh = refl

summary_rebalance-Outcome_example :
    Outcome config
      (three arm_fifo)
      (budget 60)
      (context arm_fifo 2)
      three-IsReady
      (summary_rebalance config (three arm_fifo) (budget 60) (context arm_fifo 2))
summary_rebalance-Outcome_example =
    summary_rebalance-Outcome config (three arm_fifo) (budget 60) (context arm_fifo 2) three-IsReady
      (omega arith) (omega arith) next-fresh
