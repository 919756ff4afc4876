-- ===== src/Policies/Summarization/Sound.antt =====
-- `SummarizationPolicy.rebalance`: hold, ask for a summary, fall back, or raise.
use mathlib.Core.Path.{subst}
use attention_sink.Prelude.{
  ◌≤◌, ◌<◌, ◌≡◌, inl, inr, refl, sym, ap, ◌∙◌, false, Option, none, some, [], arith, leb, leb→le,
  string_eq, nat_eq, list_eq, if◌then◌else◌, contains, Bool-cases,
}
use attention_sink.Prelude.Int.{pos}
use attention_sink.Domain.Enums.{no_action_within_budget}
use attention_sink.Domain.Errors.{Result, ok, ◌>>=◌}
use attention_sink.Domain.Runtime.{Host, Float}
use attention_sink.Domain.Tokens.{TokenBudget, is_satisfied_by}
use attention_sink.Domain.Decision.{CompressionPlan}
use attention_sink.Domain.Cycle.{CycleContext}
use attention_sink.Domain.Configuration.{SummarizationConfig}
use attention_sink.Domain.State.{MemoryState, ids, active_tokens, next_memory_id}
use attention_sink.Policies.Base.{proposal, assemble, render_key, rank_candidates, build_decision}
use attention_sink.Policies.Base.Ranking.{memories-keyed_by}
use attention_sink.Policies.Base.Ready.{IsReady}
use attention_sink.Policies.Fifo.{fifo_ordering}
use attention_sink.Policies.Summarization.{
  version, plan_compression, planned_or_fallback, summary_rebalance,
}
use attention_sink.Policies.Summarization.Requests.{
  by_age, candidates, by_age-AreRemovable, requesting, request-eq-ok, request-unchanged,
}
use attention_sink.Policies.Summarization.Plans.{
  plan_compression-IsShortest, plan_compression-returns, plan_compression-none,
}
use attention_sink.Policies.Summarization.Outcomes.{Outcome, hold-Held, fallback-Outcome}

module _ {S : Type 0} ⦃host : Host⦄ ⦃float : Float S⦄ (config : SummarizationConfig)
    (state : MemoryState S) (budget : TokenBudget) (context : CycleContext)
    (ready : IsReady state budget context) where
  abbrev planning : Result (Option CompressionPlan)
  planning =
      plan_compression config (by_age config state budget context ready) (pos (active_tokens state))
        budget (next_memory_id state)

  requested :
      (plan : CompressionPlan)
      → (requesting config state budget context ready plan).compression_plan ≡ some plan
  unfolding assemble
  requested plan = refl

  satisfied-eq :
      is_satisfied_by budget (pos (active_tokens state))
      ≡ leb (active_tokens state) budget.max_active_tokens
  satisfied-eq = ground arith

  planned-Outcome :
      (o : Option CompressionPlan)
      → budget.max_active_tokens < active_tokens state
      → planning ≡ ok o
      → Outcome config state budget context ready (
          planned_or_fallback config state budget context
            (candidates config state budget context ready)
            o)
  unfolding planned_or_fallback
  planned-Outcome none over h =
      fallback-Outcome config state budget context ready over λ j above below.
        plan_compression-none config (by_age config state budget context ready)
          (pos (active_tokens state)) budget (next_memory_id state) j above below h
  planned-Outcome (some plan) over h = inr (
      inl (
        over,
        record {
          decision = requesting config state budget context ready plan;
          decided = request-eq-ok config state budget context ready plan;
          plan = plan;
          requested = requested plan;
          shortest =
              plan_compression-IsShortest config (by_age config state budget context ready)
                (pos (active_tokens state)) budget (next_memory_id state) plan h;
          unchanged = request-unchanged config state budget context ready plan;
        },
      ))

  rebalance-ranked : summary_rebalance config state budget context ≡ (
      if is_satisfied_by budget (pos (active_tokens state))
      then build_decision state budget context version (
          proposal no_action_within_budget
            (candidates config state budget context ready)
            []
            (pos (active_tokens state)))
      else (planning
          >>= planned_or_fallback config state budget context
              (candidates config state budget context ready)))
  unfolding summary_rebalance rank_candidates
  rebalance-ranked =
      rw (
        memories-keyed_by (render_key (fifo_ordering S)) (by_age config state budget context ready))

  -- For a ready state (valid, under a positive budget, in a context of its own run and arm and of no earlier cycle
  -- than any of its memories was born), a valid configuration and a new identifier for the summary: within the
  -- budget the summarizing arm retires nothing; over it, it asks for a summary of the shortest prefix by age that
  -- is long enough and fits, if there is one; if there is none, it retires the shortest prefix by age that brings
  -- it within the budget, or it raises, and that only if the fallback is off or the protected memories exceed the
  -- budget. What it decides, `apply` carries out.
  pub summary_rebalance-Outcome :
      2 ≤ config.min_sources
      → 0 < config.summary_target_token_limit
      → contains (ids (by_age config state budget context ready)) (next_memory_id state) ≡ false
      → Outcome config state budget context ready (summary_rebalance config state budget context)
  summary_rebalance-Outcome enough positive fresh =
      elim (Bool-cases (leb (active_tokens state) budget.max_active_tokens)) [
        | inl fits ↦
            subst (Outcome config state budget context ready)
              (sym (
                rebalance-ranked
                ∙ ap
                    (λ b.
                      if b
                      then build_decision state budget context version (
                          proposal no_action_within_budget
                            (candidates config state budget context ready) []
                            (pos (active_tokens state)))
                      else (planning
                          >>= planned_or_fallback config state budget context
                              (candidates config state budget context ready)))
                    (satisfied-eq ∙ fits)))
              (inl (hold-Held config state budget context ready (leb→le _ _ fits)))
        | inr over ↦
            let planned =
              plan_compression-returns config (by_age config state budget context ready)
                (pos (active_tokens state)) budget (next_memory_id state)
                (by_age-AreRemovable config state budget context ready).once fresh enough
                positive in
            subst (Outcome config state budget context ready)
              (sym (
                rebalance-ranked
                ∙ ap
                    (λ b.
                      if b
                      then build_decision state budget context version (
                          proposal no_action_within_budget
                            (candidates config state budget context ready) []
                            (pos (active_tokens state)))
                      else (planning
                          >>= planned_or_fallback config state budget context
                              (candidates config state budget context ready)))
                    (satisfied-eq ∙ over)
                ∙ ap
                    (λ r.
                      r
                      >>= planned_or_fallback config state budget context
                          (candidates config state budget context ready))
                    planned.1))
              (planned-Outcome planned.0 (ground (arith, over)) planned.1)
      ]
