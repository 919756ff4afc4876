-- ===== src/Policies/Registry/Arms.antt =====
-- Which mechanisms a run gets.
use attention_sink.Prelude.{◌≡◌, refl, List, [], ◌∷◌, ◌++◌, map, filter, contains}
use attention_sink.Domain.Enums.{
  ArmId, arm_fifo, arm_lru, arm_heavy, arm_sink, arm_random, arm_summary, arm_full, arm_stateless,
  arm_eq, canonical_arms, reference_arms,
}
use attention_sink.Domain.Configuration.{PolicyConfiguration, RunConfiguration}
use attention_sink.Policies.Registry.{policies_for, policy_arm, canonical_policies}

policies_for-arm :
    (config : PolicyConfiguration) (arm : ArmId) → policy_arm (policies_for config arm) ≡ arm
unfolding policies_for
policies_for-arm config arm_fifo = refl
policies_for-arm config arm_lru = refl
policies_for-arm config arm_heavy = refl
policies_for-arm config arm_sink = refl
policies_for-arm config arm_random = refl
policies_for-arm config arm_summary = refl
policies_for-arm config arm_full = refl
policies_for-arm config arm_stateless = refl

map-arms :
    (config : PolicyConfiguration) (arms : List ArmId)
    → map policy_arm (map (policies_for config) arms) ≡ arms
map-arms config [] = refl
map-arms config (arm ∷ arms) = simp (policies_for-arm config arm, map-arms config arms)

-- A run's mechanisms are those of its arms, one for each, in the canonical order and with the reference arms last,
-- whatever the order in which the run lists its arms.
pub canonical_policies-arms :
    (run : RunConfiguration)
    → map policy_arm (canonical_policies run)
      ≡ filter (contains run.arms) (canonical_arms ++ reference_arms)
unfolding canonical_policies
canonical_policies-arms run = map-arms run.policies _
