-- ===== src/Policies/PinnedOrigin.antt =====
-- packages/policies/attention_sink/policies/pinned_origin.py: oldest first, but never the configured origin.
use attention_sink.Prelude.{Bool, some, ◌==◌, string_eq, option_eq}
use attention_sink.Domain.Enums.{evicted_outside_window}
use attention_sink.Domain.Errors.{Result}
use attention_sink.Domain.Runtime.{Float}
use attention_sink.Domain.Tokens.{TokenBudget}
use attention_sink.Domain.Memory.{Memory}
use attention_sink.Domain.Decision.{PolicyDecision}
use attention_sink.Domain.Cycle.{CycleContext}
use attention_sink.Domain.Configuration.{PinnedOriginConfig}
use attention_sink.Domain.State.{MemoryState}
use attention_sink.Policies.Base.{ordered_decision}
use attention_sink.Policies.Fifo.{fifo_ordering}

-- `_is_pinned`
abbrev pub is_pinned : {S : Type 0} → PinnedOriginConfig → Memory S → Bool
is_pinned config m = some m.memory_id == config.pinned_memory_id

-- `PinnedOriginPolicy.rebalance`
unfoldable pub pinned_rebalance :
    {S : Type 0} ⦃float : Float S⦄
    → PinnedOriginConfig
    → MemoryState S
    → TokenBudget
    → CycleContext
    → Result (PolicyDecision S)
pinned_rebalance {S} config state budget context =
    ordered_decision state budget context "sink-v1" evicted_outside_window (fifo_ordering S)
      (some (is_pinned config))
