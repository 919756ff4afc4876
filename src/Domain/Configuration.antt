-- ===== src/Domain/Configuration.antt =====
-- packages/domain/attention_sink/domain/configuration.py: the parameters of the policies and of a run. The
-- model, inference and version fields, which no decision reads, are left out.
pub mod Seeds
use attention_sink.Prelude.{
  ℕ, String, Bool, true, not, ◌&&◌, Option, none, some, List, [], ◌∷◌, leb, ltb, ◌==◌, string_eq,
  sum_by, is_empty, distinct, if◌then◌else◌,
}
use attention_sink.Prelude.Int.{pos}
use attention_sink.Prelude.Text.{length}
use attention_sink.Domain.Enums.{ArmId, arm_eq, seed, kind_eq}
use attention_sink.Domain.Errors.{
  ErrorContext, Result, ok, raise, value_error, policy_error, unsatisfiable_budget, ◌>>◌, require,
}
use attention_sink.Domain.Tokens.{TokenBudget, is_satisfied_by}
use attention_sink.Domain.Memory.{Memory, min_summary_sources}

abbrev pub default_recency_reserve : ℕ
default_recency_reserve = 2

pub record HeavyHitterConfig : Type 0 where
  pub recency_reserve : ℕ

pub record PinnedOriginConfig : Type 0 where
  pub pinned_memory_id : Option String

pub record SummarizationConfig : Type 0 where
  pub summary_target_token_limit : ℕ
  pub safety_margin_tokens : ℕ
  pub min_sources : ℕ
  pub fifo_fallback_enabled : Bool

-- `Field(gt=0)` and `Field(ge=MIN_SUMMARY_SOURCES)`
unfoldable pub summarization_check : SummarizationConfig → Result (Unit {0})
summarization_check config = do
  require (ltb 0 config.summary_target_token_limit) value_error
  require (leb min_summary_sources config.min_sources) value_error

pub record PolicyConfiguration : Type 0 where
  pub heavy_hitter : HeavyHitterConfig
  pub pinned_origin : PinnedOriginConfig
  pub summarization : SummarizationConfig

-- `PolicyConfiguration()`
abbrev pub default_configuration : PolicyConfiguration
default_configuration = record {
  heavy_hitter = record { recency_reserve = default_recency_reserve };
  pinned_origin = record { pinned_memory_id = none };
  summarization = record {
    summary_target_token_limit = 64;
    safety_margin_tokens = 0;
    min_sources = min_summary_sources;
    fifo_fallback_enabled = true;
  };
}

pub record RunConfiguration : Type 0 where
  pub run_id : String
  pub budget : TokenBudget
  pub random_seed : String
  pub arms : List ArmId
  pub policies : PolicyConfiguration

-- The length of the seed, and `_require_distinct_arms`
unfoldable pub run_check : RunConfiguration → Result (Unit {0})
run_check run = do
  require (leb 8 (length run.random_seed) && leb (length run.random_seed) 256) value_error
  require (not (is_empty run.arms)) value_error
  require (distinct run.arms) value_error

-- `next((m for m in seed_memories if m.memory_id == pinned_id), None)`
abbrev pub find_seed : {S : Type 0} → String → List (Memory S) → Option (Memory S)
find_seed pinned_id [] = none
find_seed pinned_id (m ∷ ms) = if m.memory_id == pinned_id then some m else find_seed pinned_id ms

abbrev pub run_context : RunConfiguration → ErrorContext
run_context run = record {
  run_id = some run.run_id;
  arm_id = none;
  cycle = none;
  policy_version = none;
}

-- The checks on the pinned memory, given what stands under its identifier.
abbrev check_origin : {S : Type 0} → RunConfiguration → Option (Memory S) → Result (Unit {0})
check_origin run none = raise (policy_error (run_context run))
check_origin run (some pinned) =
    require (pinned.memory_kind == seed) (policy_error (run_context run))
    >> require (is_satisfied_by run.budget (pos pinned.token_count))
        (unsatisfiable_budget (run_context run))

check_pinned : {S : Type 0} → RunConfiguration → List (Memory S) → Option String → Result (Unit {0})
check_pinned run seeds none = ok tt
check_pinned run seeds (some pinned_id) = check_origin run (find_seed pinned_id seeds)

unfoldable pub validate_seed_memories :
    {S : Type 0} → RunConfiguration → List (Memory S) → Result (Unit {0})
unfolding check_pinned
validate_seed_memories run seeds = do
  check_pinned run seeds run.policies.pinned_origin.pinned_memory_id
  require (is_satisfied_by run.budget (pos (sum_by (λ m. m.token_count) seeds)))
      (unsatisfiable_budget (run_context run))
