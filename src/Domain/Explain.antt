-- ===== src/Domain/Explain.antt =====
-- packages/domain/attention_sink/domain/explain.py: the sentence that a decision records.
pub mod Nonempty
use attention_sink.Prelude.{ℕ, String, List, [], ◌∷◌, length, is_empty, if◌then◌else◌}
use attention_sink.Prelude.Int.{ℤ}
use attention_sink.Prelude.Text.{concat, join, str, str_ℤ}
use attention_sink.Domain.Enums.{
  ArmId, arm_value, PolicyDecisionCode, no_action_within_budget, evicted_oldest,
  evicted_least_recently_cited, evicted_lowest_retention_density, heavy_hitter_reserve_broken,
  evicted_outside_window, evicted_random, evicted_stateless, retained_all, compression_planned,
  compression_committed, summary_fallback_fifo,
}

-- The keyword arguments of `render_explanation`.
pub record Facts : Type 0 where
  pub arm_id : ArmId
  pub cycle : ℕ
  pub code : PolicyDecisionCode
  pub budget_tokens : ℕ
  pub tokens_before : ℕ
  pub tokens_after : ℤ
  pub kept_memory_ids : List String
  pub retired_memory_ids : List String
  pub eligible_count : ℕ
  pub compression_sources : ℕ
  pub summary_limit : ℕ
  pub summary_tokens : ℕ
  pub tokens_freed : ℕ

-- "{tokens_before} tokens down to {tokens_after} within the {budget}-token budget"
down_to : Facts → List String → List String
down_to f rest =
    str f.tokens_before
    ∷ " tokens down to "
    ∷ str_ℤ f.tokens_after
    ∷ " within the "
    ∷ str f.budget_tokens
    ∷ "-token budget"
    ∷ rest

-- "evicted {retired} of {eligible}"
evicted_of : Facts → List String → List String
evicted_of f rest =
    "evicted " ∷ str (length f.retired_memory_ids) ∷ " of " ∷ str f.eligible_count ∷ rest

-- `_TEMPLATES[code].format(...)`, in parts
template : Facts → PolicyDecisionCode → List String
unfolding down_to evicted_of
template f no_action_within_budget =
    "held all "
    ∷ str (length f.kept_memory_ids)
    ∷ " memories: "
    ∷ str f.tokens_before
    ∷ " tokens already fit the "
    ∷ str f.budget_tokens
    ∷ "-token budget"
    ∷ []
template f evicted_oldest =
    evicted_of f (" eligible memories, oldest first, to bring " ∷ down_to f [])
template f evicted_least_recently_cited =
    evicted_of f
      (" eligible memories, least recently verified-cited first, to bring " ∷ down_to f [])
template f evicted_lowest_retention_density =
    evicted_of f
      (" eligible memories, lowest citation weight per token first, to bring " ∷ down_to f [])
template f heavy_hitter_reserve_broken = evicted_of f (
    " eligible memories by lowest citation weight per token, invading the recency reserve because "
    ∷ "the unreserved memories alone could not free enough space, bringing "
    ∷ down_to f [])
template f evicted_outside_window = evicted_of f (
    " unpinned memories, oldest first, to bring "
    ∷ down_to f ("; pinned memories were not eligible" ∷ []))
template f evicted_random = evicted_of f (
    " eligible memories drawn pseudo-randomly from the recorded run seed, bringing " ∷ down_to f [])
template f evicted_stateless =
    "evicted all "
    ∷ str (length f.retired_memory_ids)
    ∷ " memories carried in from earlier cycles, leaving only this cycle's admission at "
    ∷ str_ℤ f.tokens_after
    ∷ " tokens against the "
    ∷ str f.budget_tokens
    ∷ "-token budget"
    ∷ []
template f retained_all =
    "retained all "
    ∷ str (length f.kept_memory_ids)
    ∷ " memories at "
    ∷ str_ℤ f.tokens_after
    ∷ " tokens; this reference arm never evicts and its "
    ∷ str f.budget_tokens
    ∷ "-token budget must hold the whole run"
    ∷ []
template f compression_planned =
    "requested a summary of "
    ∷ str f.compression_sources
    ∷ " memories capped at "
    ∷ str f.summary_limit
    ∷ " tokens; "
    ∷ str f.tokens_before
    ∷ " tokens exceed the "
    ∷ str f.budget_tokens
    ∷ "-token budget and compressing those sources frees "
    ∷ str f.tokens_freed
    ∷ []
template f compression_committed =
    "replaced "
    ∷ str f.compression_sources
    ∷ " memories with one summary costing "
    ∷ str f.summary_tokens
    ∷ " tokens, bringing "
    ∷ down_to f ("; the summary records every source it compressed" ∷ [])
template f summary_fallback_fifo =
    "no legal compression could reach the budget, so the configured fallback "
    ∷ evicted_of f (" eligible memories oldest first, bringing " ∷ down_to f [])

detail : List String → String
detail retired = if is_empty retired then "" else concat ("; retired " ∷ join ", " retired ∷ [])

-- What follows the arm in the sentence.
after_arm : Facts → List String
unfolding template detail concat str
after_arm f =
    " cycle "
    ∷ str f.cycle
    ∷ ": "
    ∷ concat (template f f.code)
    ∷ detail f.retired_memory_ids
    ∷ "."
    ∷ []

unfoldable pub render_explanation : Facts → String
unfolding after_arm concat
render_explanation f = concat (arm_value f.arm_id ∷ after_arm f)
