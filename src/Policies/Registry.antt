-- ===== src/Policies/Registry.antt =====
-- packages/policies/attention_sink/policies/registry.py, and the protocol of
-- packages/domain/attention_sink/domain/policy.py: an arm names its mechanism, and nothing else does. The
-- classes that implement `MemoryPolicy` are the constructors of `MemoryPolicy`.
pub mod Sound
pub mod Within
pub mod Commits
pub mod Arms
pub mod Eligible
use attention_sink.Prelude.{String, Option, none, some, List, ◌++◌, map, filter, contains}
use attention_sink.Domain.Enums.{
  ArmId, arm_fifo, arm_lru, arm_heavy, arm_sink, arm_random, arm_summary, arm_full, arm_stateless,
  arm_eq, canonical_arms, reference_arms,
}
use attention_sink.Domain.Errors.{Result}
use attention_sink.Domain.Runtime.{Host, Float}
use attention_sink.Domain.Tokens.{TokenBudget}
use attention_sink.Domain.Decision.{PolicyDecision}
use attention_sink.Domain.Cycle.{CycleContext}
use attention_sink.Domain.Configuration.{
  HeavyHitterConfig, PinnedOriginConfig, SummarizationConfig, PolicyConfiguration, RunConfiguration,
  default_configuration,
}
use attention_sink.Domain.State.{MemoryState}
use attention_sink.Policies.Fifo.{fifo_rebalance}
use attention_sink.Policies.Lru.{lru_rebalance}
use attention_sink.Policies.HeavyHitter.{heavy_rebalance}
use attention_sink.Policies.PinnedOrigin.{pinned_rebalance}
use attention_sink.Policies.Reference.{full_rebalance, stateless_rebalance}
use attention_sink.Policies.SeededRandom.{random_rebalance}
use attention_sink.Policies.Summarization.{summary_rebalance}

pub data MemoryPolicy : Type 0 where
  fifo lru random full stateless : MemoryPolicy
  heavy : HeavyHitterConfig → MemoryPolicy
  pinned : PinnedOriginConfig → MemoryPolicy
  summarizing : SummarizationConfig → MemoryPolicy

-- `policies_for(config)[arm_id]`: every arm has a mechanism.
unfoldable pub policies_for : PolicyConfiguration → ArmId → MemoryPolicy
policies_for config arm_fifo = fifo
policies_for config arm_lru = lru
policies_for config arm_heavy = heavy config.heavy_hitter
policies_for config arm_sink = pinned config.pinned_origin
policies_for config arm_random = random
policies_for config arm_summary = summarizing config.summarization
policies_for config arm_full = full
policies_for config arm_stateless = stateless

unfoldable pub policy_for : ArmId → Option PolicyConfiguration → MemoryPolicy
unfolding policies_for
policy_for arm_id none = policies_for default_configuration arm_id
policy_for arm_id (some config) = policies_for config arm_id

unfoldable pub canonical_policies : RunConfiguration → List MemoryPolicy
unfolding policies_for
canonical_policies run =
    map (policies_for run.policies) (filter (contains run.arms) (canonical_arms ++ reference_arms))

-- The class attribute `arm_id`
abbrev pub policy_arm : MemoryPolicy → ArmId
policy_arm fifo = arm_fifo
policy_arm lru = arm_lru
policy_arm random = arm_random
policy_arm full = arm_full
policy_arm stateless = arm_stateless
policy_arm (heavy config) = arm_heavy
policy_arm (pinned config) = arm_sink
policy_arm (summarizing config) = arm_summary

-- The class attribute `policy_version`
abbrev pub policy_version : MemoryPolicy → String
policy_version fifo = "fifo-v1"
policy_version lru = "lru-v1"
policy_version random = "random-v1"
policy_version full = "full-v1"
policy_version stateless = "stateless-v1"
policy_version (heavy config) = "heavy-v1"
policy_version (pinned config) = "sink-v1"
policy_version (summarizing config) = "summary-v1"

-- `policy.rebalance(state, budget, context)`
unfoldable pub rebalance :
    {S : Type 0} ⦃host : Host⦄ ⦃float : Float S⦄
    → MemoryPolicy
    → MemoryState S
    → TokenBudget
    → CycleContext
    → Result (PolicyDecision S)
rebalance fifo = fifo_rebalance
rebalance lru = lru_rebalance
rebalance random = random_rebalance
rebalance full = full_rebalance
rebalance stateless = stateless_rebalance
rebalance (heavy config) = heavy_rebalance config
rebalance (pinned config) = pinned_rebalance config
rebalance (summarizing config) = summary_rebalance config
