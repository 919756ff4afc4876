-- ===== src/Policies/Reference.antt =====
-- packages/policies/attention_sink/policies/reference.py: the arms that forget nothing and everything.
pub mod Sound
use attention_sink.Prelude.{none, [], map}
use attention_sink.Prelude.Int.{pos, ◌-ℤ◌}
use attention_sink.Domain.Enums.{retained_all, evicted_stateless}
use attention_sink.Domain.Errors.{Result, ◌>>=◌}
use attention_sink.Domain.Runtime.{Float}
use attention_sink.Domain.Tokens.{TokenBudget}
use attention_sink.Domain.Decision.{PolicyDecision}
use attention_sink.Domain.Cycle.{CycleContext}
use attention_sink.Domain.State.{MemoryState, active_tokens, cost}
use attention_sink.Policies.Base.{
  Candidate, eligible_memories, rank_candidates, proposal, code_for, build_decision,
}
use attention_sink.Policies.Fifo.{fifo_ordering}

-- `FullMemoryPolicy.rebalance`
unfoldable pub full_rebalance :
    {S : Type 0} → MemoryState S → TokenBudget → CycleContext → Result (PolicyDecision S)
full_rebalance state budget context =
    build_decision state budget context "full-v1"
      (proposal retained_all [] [] (pos (active_tokens state)))

-- `StatelessPolicy.rebalance`
unfoldable pub stateless_rebalance :
    {S : Type 0} ⦃float : Float S⦄
    → MemoryState S
    → TokenBudget
    → CycleContext
    → Result (PolicyDecision S)
stateless_rebalance {S} state budget context = do
  candidates ← rank_candidates (eligible_memories state context none) (fifo_ordering S)
  let victims = map (λ (c : Candidate S). c.0) candidates
  build_decision state budget context "stateless-v1" (
      proposal (code_for evicted_stateless victims) candidates victims
        (pos (active_tokens state) -ℤ pos (cost victims)))
