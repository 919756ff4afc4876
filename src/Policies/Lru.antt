-- ===== src/Policies/Lru.antt =====
-- packages/policies/attention_sink/policies/lru.py: the memory whose last citation is furthest back goes
-- first.
use attention_sink.Prelude.{ℕ, Option, none, some, [], ◌∷◌}
use attention_sink.Prelude.Int.{ℤ, pos, negsuc}
use attention_sink.Domain.Enums.{evicted_least_recently_cited}
use attention_sink.Domain.Errors.{Result}
use attention_sink.Domain.Runtime.{Float}
use attention_sink.Domain.Tokens.{TokenBudget}
use attention_sink.Domain.Memory.{Memory}
use attention_sink.Domain.Decision.{PolicyDecision}
use attention_sink.Domain.Cycle.{CycleContext}
use attention_sink.Domain.State.{MemoryState}
use attention_sink.Policies.Base.{RankOrdering, int_field, memory_id_field, ordered_decision}

-- `_NEVER_CITED` is -1.
abbrev pub cited_at : Option ℕ → ℤ
cited_at none = negsuc 0
cited_at (some cycle) = pos cycle

abbrev pub cited_flag : Option ℕ → ℤ
cited_flag none = pos 0
cited_flag (some cycle) = pos 1

module _ {S : Type 0} where
  -- `_has_been_cited`
  abbrev pub has_been_cited : Memory S → ℤ
  has_been_cited m = cited_flag m.last_verified_citation_cycle

  -- `_last_cited`
  abbrev pub last_cited : Memory S → ℤ
  last_cited m = cited_at m.last_verified_citation_cycle

-- `LRU_ORDERING`
abbrev pub lru_ordering : (S : Type 0) → RankOrdering S
lru_ordering S =
    int_field "never_cited" has_been_cited
    ∷ int_field "last_verified_citation_cycle" last_cited
    ∷ int_field "birth_cycle" (λ m. pos m.birth_cycle)
    ∷ memory_id_field S
    ∷ []

-- `LeastRecentlyCitedPolicy.rebalance`
unfoldable pub lru_rebalance :
    {S : Type 0} ⦃float : Float S⦄
    → MemoryState S
    → TokenBudget
    → CycleContext
    → Result (PolicyDecision S)
lru_rebalance {S} state budget context =
    ordered_decision state budget context "lru-v1" evicted_least_recently_cited (lru_ordering S)
      none
