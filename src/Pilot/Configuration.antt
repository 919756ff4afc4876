-- ===== src/Pilot/Configuration.antt =====
-- packages/pilot/attention_sink/pilot/configuration.py: the definition of one run. The provenance fields, which no
-- operation reads back, are left out.
use attention_sink.Prelude.{
  ℕ, String, Bool, true, false, not, ◌&&◌, ◌||◌, List, [], ◌∷◌, ltb, leb, ◌==◌, string_eq, nat_eq,
  is_empty, contains, distinct, some,
}
use attention_sink.Prelude.Text.{length}
use attention_sink.Domain.Enums.{ArmId, arm_eq}
use attention_sink.Domain.Errors.{Result, value_error, ◌>>◌, require}
use attention_sink.Domain.Tokens.{TokenBudget}
use attention_sink.Domain.Configuration.{PolicyConfiguration}
use attention_sink.Pilot.Spending.{ModelCallLimits}

pub data RunKind : Type 0 where
  local_fixture aws_staging aws_canonical : RunKind

abbrev pub simulated_expected : RunKind → Bool
simulated_expected local_fixture = true
simulated_expected aws_staging = false
simulated_expected aws_canonical = false

abbrev pub is_canonical : RunKind → Bool
is_canonical local_fixture = false
is_canonical aws_staging = false
is_canonical aws_canonical = true

pub data CitationMode : Type 0 where
  claimed_validated audited : CitationMode

abbrev pub exact_token_count_sources : List String
exact_token_count_sources = "bedrock_count_tokens" ∷ "bedrock_converse_usage" ∷ []

pub record ModelSpec : Type 0 where
  pub model_id : String
  pub simulated : Bool

pub record PilotRunConfiguration (S : Type 0) : Type 0 where
  pub run_id : String
  pub run_kind : RunKind
  pub protocol_version : String
  pub interview_version : String
  pub maximum_cycles : ℕ
  pub checkpoint_cycles : List ℕ
  pub arms : List ArmId
  pub memory_budget_tokens : ℕ
  pub counter_version : String
  pub token_count_source : String
  pub writer_model : ModelSpec
  pub embedding_model : ModelSpec
  pub writer_prompt_version : String
  pub summary_prompt_version : String
  pub heavy_hitter_citation_decay : S
  pub heavy_hitter_recency_reserve : ℕ
  pub pinned_origin_memory_id : String
  pub random_seed : String
  pub dreamer_target_summary_tokens : ℕ
  pub dreamer_safety_margin_tokens : ℕ
  pub dreamer_min_sources : ℕ
  pub dreamer_fallback_rule : String
  pub citation_mode : CitationMode
  pub model_call_limits : ModelCallLimits
  pub max_parallel_model_calls : ℕ

module _ {S : Type 0} where
  -- The field constraints on what is modelled, and `_check_configuration`.
  unfoldable pub configuration_check : PilotRunConfiguration S → Result (Unit {0})
  configuration_check c = do
    require (ltb 0 c.maximum_cycles) value_error
    require (not (is_empty c.checkpoint_cycles) && not (is_empty c.arms)) value_error
    require (ltb 0 c.memory_budget_tokens) value_error
    require (leb 8 (length c.random_seed) && leb (length c.random_seed) 256) value_error
    require (ltb 0 c.dreamer_target_summary_tokens && leb 2 c.dreamer_min_sources) value_error
    require (ltb 0 c.max_parallel_model_calls && leb c.max_parallel_model_calls 32) value_error
    require (distinct c.arms) value_error

  -- The property `budget`
  abbrev pub budget_of : PilotRunConfiguration S → TokenBudget
  budget_of c = record {
    max_active_tokens = c.memory_budget_tokens;
    counter_version = c.counter_version;
  }

  -- The property `policy_configuration`
  abbrev pub policies_of : PilotRunConfiguration S → PolicyConfiguration
  policies_of c = record {
    heavy_hitter = record { recency_reserve = c.heavy_hitter_recency_reserve };
    pinned_origin = record { pinned_memory_id = some c.pinned_origin_memory_id };
    summarization = record {
      summary_target_token_limit = c.dreamer_target_summary_tokens;
      safety_margin_tokens = c.dreamer_safety_margin_tokens;
      min_sources = c.dreamer_min_sources;
      fifo_fallback_enabled = c.dreamer_fallback_rule == "fifo";
    };
  }

  -- The property `simulated`
  abbrev pub is_simulated : PilotRunConfiguration S → Bool
  is_simulated c = c.writer_model.simulated || c.embedding_model.simulated

  abbrev pub is_checkpoint : PilotRunConfiguration S → ℕ → Bool
  is_checkpoint c cycle = contains c.checkpoint_cycles cycle

  unfoldable pub require_run_kind_consistent : PilotRunConfiguration S → Result (Unit {0})
  require_run_kind_consistent c = do
    require (not (is_canonical c.run_kind && is_simulated c)) value_error
    require
        (not (
          is_canonical c.run_kind && not (contains exact_token_count_sources c.token_count_source)))
        value_error
    require (not (simulated_expected c.run_kind && not (is_simulated c))) value_error
