-- ===== src/Tests/SummaryCases.antt =====
-- The theorems on planning a compression at concrete inputs.
use attention_sink.Prelude.{
  ℕ, ◌≡◌, refl, arith, true, false, none, some, Option, List, [], ◌∷◌, length,
}
use attention_sink.Prelude.Int.{pos, ◌+ℤ◌, ◌-ℤ◌}
use attention_sink.Domain.Enums.{arm_summary}
use attention_sink.Domain.Errors.{ok}
use attention_sink.Domain.Memory.{Memory, make_memory_id}
use attention_sink.Domain.Decision.{CompressionPlan, plan_check}
use attention_sink.Domain.Configuration.{SummarizationConfig}
use attention_sink.Policies.Summarization.{plan_loop, plan_compression, plan_of}
use attention_sink.Policies.Summarization.Plans.{
  IsShortest, suits, plan_compression-IsShortest, plan_compression-none, plan_compression-returns,
}
use attention_sink.Tests.Fixtures.{memory, budget}

abbrev pub config : SummarizationConfig
config = record {
  summary_target_token_limit = 20;
  safety_margin_tokens = 5;
  min_sources = 2;
  fifo_fallback_enabled = true;
}

abbrev pub sources : List (Memory ℕ)
sources = memory arm_summary 0 0 40 ∷ memory arm_summary 1 1 30 ∷ memory arm_summary 2 2 20 ∷ []

two-planned :
    plan_compression config sources (pos 90) (budget 60) "summary"
    ≡ ok (some (plan_of config sources "summary" 2 70))
unfolding plan_compression plan_loop plan_check ◌+ℤ◌ ◌-ℤ◌ make_memory_id
two-planned = refl

plan_compression-IsShortest_example :
    IsShortest config sources
      (pos 90)
      (budget 60)
      "summary"
      0
      (length sources)
      (plan_of config sources "summary" 2 70)
plan_compression-IsShortest_example =
    plan_compression-IsShortest config sources (pos 90) (budget 60) "summary"
      (plan_of config sources "summary" 2 70) two-planned

none-planned : plan_compression config sources (pos 90) (budget 20) "summary" ≡ ok none
unfolding plan_compression plan_loop ◌+ℤ◌ ◌-ℤ◌
none-planned = refl

plan_compression-none_example : suits config sources (pos 90) (budget 20) "summary" 2 ≡ false
plan_compression-none_example =
    plan_compression-none config sources (pos 90) (budget 20) "summary" 2 (omega arith)
      (omega arith) none-planned

plan_compression-returns_example :
    (o : Option CompressionPlan) × (plan_compression config sources (pos 90) (budget 60) "summary"
      ≡ ok o)
unfolding make_memory_id
plan_compression-returns_example =
    plan_compression-returns config sources (pos 90) (budget 60) "summary" refl refl (omega arith)
      (omega arith)
