-- ===== src/Policies/Summarization/Outcomes.antt =====
-- The outcomes of `SummarizationPolicy.rebalance`, and its fallback.
use mathlib.Core.Path.{subst}
use attention_sink.Prelude.{
  ◌≤◌, ◌<◌, ◌≡◌, ◌⊎◌, inl, inr, refl, sym, ap, ◌∙◌, true, false, none, [], arith, leb, leb→le,
  string_eq, nat_eq, list_eq, Bool-cases, length, ◌-◌,
}
use attention_sink.Prelude.Int.{pos}
use attention_sink.Domain.Enums.{no_action_within_budget, summary_fallback_fifo}
use attention_sink.Domain.Errors.{Result, ok, raise, unsatisfiable_budget, ◌>>◌, require}
use attention_sink.Domain.Runtime.{Host, Float}
use attention_sink.Domain.Tokens.{TokenBudget}
use attention_sink.Domain.Decision.{PolicyDecision}
use attention_sink.Domain.Cycle.{CycleContext}
use attention_sink.Domain.Configuration.{SummarizationConfig}
use attention_sink.Domain.State.{MemoryState, ids, active_tokens, next_memory_id, apply, cost}
use attention_sink.Policies.Base.{
  proposal, assemble, render_key, policy_context, code_for, build_decision, ordered_decision,
}
use attention_sink.Policies.Base.Evicting.{verdict, build_decision-evicting, apply-evicting}
use attention_sink.Policies.Base.Ready.{protected_tokens, IsReady, Rebalanced}
use attention_sink.Policies.Base.Built.{build_decision-assemble}
use attention_sink.Policies.Base.Greedy.{taken, greedy-shortest}
use attention_sink.Policies.Base.Ordered.{
  greedy-Rebalanced, greedy-raises, ranking-cost, greedy_decision-build, victims,
}
use attention_sink.Policies.Fifo.{fifo_ordering}
use attention_sink.Policies.Summarization.{version, fifo_fallback, ℕ, take}
use attention_sink.Policies.Summarization.Requests.{by_age, candidates, Planned, nothing-legal}
use attention_sink.Policies.Summarization.Plans.{NoneSuits}

module _ {S : Type 0} ⦃host : Host⦄ ⦃float : Float S⦄ (config : SummarizationConfig)
    (state : MemoryState S) (budget : TokenBudget) (context : CycleContext)
    (ready : IsReady state budget context) where
  -- No prefix of the eligible memories by age has the least number of sources and fits the budget once summarized.
  abbrev pub NothingSuits : Type 0
  NothingSuits =
      NoneSuits config (by_age config state budget context ready) (pos (active_tokens state)) budget
        (next_memory_id state) 0 (length (by_age config state budget context ready))

  -- The state is within the budget: a decision that retires nothing, asks for no summary and leaves it as it is.
  pub record Held (outcome : Result (PolicyDecision S)) : Type 0 where
    pub fits : active_tokens state ≤ budget.max_active_tokens
    pub decision : PolicyDecision S
    pub decided : outcome ≡ ok decision
    pub nothing_retired : decision.retired_memory_ids ≡ []
    pub nothing_asked : decision.compression_plan ≡ none
    pub unchanged : apply state decision ≡ ok state

  -- The state is over the budget and no summary helps: a decision that retires the shortest prefix by age that
  -- brings it within the budget, and that `apply` carries out.
  pub record FellBack (outcome : Result (PolicyDecision S)) : Type 0 where
    pub over : budget.max_active_tokens < active_tokens state
    pub nothing_suits : NothingSuits
    pub enabled : config.fifo_fallback_enabled ≡ true
    pub rebalanced : Rebalanced state budget outcome
    pub size : ℕ
    pub oldest :
        rebalanced.decision.retired_memory_ids
        ≡ ids (take size (by_age config state budget context ready))
    pub shortest :
        (j : ℕ)
        → j < size
        → budget.max_active_tokens
          < active_tokens state - cost (take j (by_age config state budget context ready))

  -- The state is over the budget and no summary helps: the fallback is off, or what may not be retired exceeds the
  -- budget.
  pub record Refused (outcome : Result (PolicyDecision S)) : Type 0 where
    pub over : budget.max_active_tokens < active_tokens state
    pub nothing_suits : NothingSuits
    pub raised : outcome ≡ raise (unsatisfiable_budget (policy_context context version))
    pub why :
        (config.fifo_fallback_enabled ≡ false)
        ⊎ (budget.max_active_tokens < protected_tokens state context none)

  abbrev pub Outcome : Result (PolicyDecision S) → Type 0
  Outcome outcome =
      Held outcome
      ⊎ ((budget.max_active_tokens < active_tokens state)
          × Planned config state budget context ready outcome)
      ⊎ FellBack outcome
      ⊎ Refused outcome

  pub hold-Held :
      active_tokens state ≤ budget.max_active_tokens
      → Held (
          build_decision state budget context version (
            proposal no_action_within_budget
              (candidates config state budget context ready)
              []
              (pos (active_tokens state))))
  unfolding assemble
  hold-Held fits = record {
    fits = fits;
    decision =
        verdict state ready.valid budget ready.positive context version no_action_within_budget
          (candidates config state budget context ready) [] none
          (nothing-legal config state budget context ready fits) refl;
    decided =
        ap
          (λ n. build_decision state budget context version (
            proposal no_action_within_budget (candidates config state budget context ready) []
              (pos n)))
          (omega arith)
        ∙ build_decision-evicting state ready.valid budget ready.positive context version
            no_action_within_budget (candidates config state budget context ready) [] none
            (nothing-legal config state budget context ready fits) refl;
    nothing_retired = refl;
    nothing_asked = refl;
    unchanged =
        apply-evicting state ready.valid budget ready.positive context version
          no_action_within_budget (candidates config state budget context ready) [] none
          (nothing-legal config state budget context ready fits) refl ready.same_run ready.same_arm;
  }

  fallback-on :
      config.fifo_fallback_enabled ≡ true
      → fifo_fallback config state budget context
        ≡ ordered_decision state budget context version summary_fallback_fifo (fifo_ordering S) none
  unfolding fifo_fallback
  fallback-on on =
      ap
        (λ b.
          require b (unsatisfiable_budget (policy_context context version))
          >> ordered_decision state budget context version summary_fallback_fifo (fifo_ordering S)
              none)
        on

  fallback-off :
      config.fifo_fallback_enabled ≡ false
      → fifo_fallback config state budget context
        ≡ raise (unsatisfiable_budget (policy_context context version))
  unfolding fifo_fallback
  fallback-off off =
      ap
        (λ b.
          require b (unsatisfiable_budget (policy_context context version))
          >> ordered_decision state budget context version summary_fallback_fifo (fifo_ordering S)
              none)
        off

  -- What is decided retires the victims.
  ordered-oldest :
      (d : PolicyDecision S)
      → protected_tokens state context none ≤ budget.max_active_tokens
      → ordered_decision state budget context version summary_fallback_fifo (fifo_ordering S) none
        ≡ ok d
      → d.retired_memory_ids
        ≡ ids (
            victims state budget context ready version
              (code_for summary_fallback_fifo)
              (fifo_ordering S)
              refl
              none)
  unfolding ordered_decision assemble
  ordered-oldest d fits h =
      let built = build_decision-assemble state budget context version _ d (
        sym (
          greedy_decision-build state budget context ready version (code_for summary_fallback_fifo)
            (fifo_ordering S) refl none)
        ∙ h) in
      ap (λ (d : PolicyDecision S). d.retired_memory_ids) (sym built.0)

  module _ (over : budget.max_active_tokens < active_tokens state)
      (nothing_suits : NothingSuits) where
    ordered-FellBack :
        config.fifo_fallback_enabled ≡ true
        → protected_tokens state context none ≤ budget.max_active_tokens
        → FellBack (
            ordered_decision state budget context version summary_fallback_fifo
              (fifo_ordering S)
              none)
    unfolding ordered_decision
    ordered-FellBack on fits =
        let rebalanced =
          greedy-Rebalanced state budget context ready version (code_for summary_fallback_fifo)
            (fifo_ordering S) refl none fits in
        record {
          over = over;
          nothing_suits = nothing_suits;
          enabled = on;
          rebalanced = rebalanced;
          size =
              taken (render_key (fifo_ordering S)) budget (by_age config state budget context ready)
                (active_tokens state);
          oldest = ordered-oldest rebalanced.decision fits rebalanced.decided;
          shortest = λ j.
              greedy-shortest (render_key (fifo_ordering S)) budget
                (by_age config state budget context ready) (active_tokens state) j
                (omega (
                  arith,
                  ranking-cost state budget context ready version (code_for summary_fallback_fifo)
                      (fifo_ordering S) refl none,
                ));
        }

    ordered-Refused :
        budget.max_active_tokens < protected_tokens state context none
        → Refused (
            ordered_decision state budget context version summary_fallback_fifo
              (fifo_ordering S)
              none)
    unfolding ordered_decision
    ordered-Refused above = record {
      over = over;
      nothing_suits = nothing_suits;
      raised =
          greedy-raises state budget context ready version (code_for summary_fallback_fifo)
            (fifo_ordering S) refl none above;
      why = inr above;
    }

    pub fallback-Outcome : Outcome (fifo_fallback config state budget context)
    fallback-Outcome = elim (Bool-cases config.fifo_fallback_enabled) [
      | inl on ↦
          subst Outcome (sym (fallback-on on))
            (elim (Bool-cases
              (leb (protected_tokens state context none) budget.max_active_tokens)) [
                | inl fits ↦ inr (inr (inl (ordered-FellBack on (leb→le _ _ fits))))
                | inr above ↦ inr (inr (inr (ordered-Refused (ground (arith, above)))))
              ])
      | inr off ↦ inr (
          inr (
            inr (record {
              over = over;
              nothing_suits = nothing_suits;
              raised = fallback-off off;
              why = inl off;
            })))
    ]
