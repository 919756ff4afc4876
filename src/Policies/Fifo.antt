-- ===== src/Policies/Fifo.antt =====
-- packages/policies/attention_sink/policies/fifo.py: the oldest memory goes first.
use attention_sink.Prelude.{none, [], ◌∷◌}
use attention_sink.Prelude.Int.{pos}
use attention_sink.Domain.Enums.{evicted_oldest}
use attention_sink.Domain.Errors.{Result}
use attention_sink.Domain.Runtime.{Float}
use attention_sink.Domain.Tokens.{TokenBudget}
use attention_sink.Domain.Decision.{PolicyDecision}
use attention_sink.Domain.Cycle.{CycleContext}
use attention_sink.Domain.State.{MemoryState}
use attention_sink.Policies.Base.{RankOrdering, int_field, memory_id_field, ordered_decision}

-- `FIFO_ORDERING`
abbrev pub fifo_ordering : (S : Type 0) → RankOrdering S
fifo_ordering S =
    int_field "birth_cycle" (λ m. pos m.birth_cycle)
    ∷ int_field "creation_sequence" (λ m. pos m.creation_sequence)
    ∷ memory_id_field S
    ∷ []

-- `FifoPolicy.rebalance`
unfoldable pub fifo_rebalance :
    {S : Type 0} ⦃float : Float S⦄
    → MemoryState S
    → TokenBudget
    → CycleContext
    → Result (PolicyDecision S)
fifo_rebalance {S} state budget context =
    ordered_decision state budget context "fifo-v1" evicted_oldest (fifo_ordering S) none
