-- ===== src/Policies/Reference/Sound.antt =====
-- The reference arms: what they need of the budget, and that their decisions are carried out.
use attention_sink.Prelude.{
  ℕ, ◌+◌, ◌-◌, ◌≤◌, ◌<◌, ◌≡◌, refl, ap, ◌∙◌, List, [], arith, string_eq, sorted, none,
}
use attention_sink.Prelude.Ids.Laws.{subset_refl}
use attention_sink.Prelude.Int.{pos, sub-pos}
use attention_sink.Prelude.Sorting.Laws.{sum_by-sorted}
use attention_sink.Domain.Enums.{evicted, retained_all, evicted_stateless}
use attention_sink.Domain.Errors.{raise, unsatisfiable_budget}
use attention_sink.Domain.Runtime.{Host, Float}
use attention_sink.Domain.Tokens.{TokenBudget}
use attention_sink.Domain.Memory.{Memory}
use attention_sink.Domain.Cycle.{CycleContext}
use attention_sink.Domain.State.{MemoryState, ids, cost, active_tokens}
use attention_sink.Domain.State.Leave.{AreRemovable}
use attention_sink.Domain.State.Applied.{left_by, left_by-IsValid, left_by-tokens}
use attention_sink.Policies.Base.{
  Candidate, eligible_memories, precedes, render_key, rank_candidates, proposal, policy_context,
  code_for, build_decision,
}
use attention_sink.Policies.Base.Evicting.{
  IsLegal, verdict, build_decision-raises, build_decision-evicting, apply-evicting,
}
use attention_sink.Policies.Base.Ranking.{
  keyed_by, memories-keyed_by, candidate_ids-keyed_by, keys-checked, render_key-ne-empty,
}
use attention_sink.Policies.Base.Ready.{
  protected_tokens, eligible-cost, IsReady, Rebalanced, AreRemovable-sorted, eligible-AreRemovable,
}
use attention_sink.Policies.Fifo.{fifo_ordering}
use attention_sink.Policies.Reference.{full_rebalance, stateless_rebalance}

module _ {S : Type 0} ⦃host : Host⦄ ⦃float : Float S⦄ (state : MemoryState S) (budget : TokenBudget)
    (context : CycleContext) (ready : IsReady state budget context) where
  module _ (fits : active_tokens state ≤ budget.max_active_tokens) where
    full-legal : IsLegal state ready.valid budget ready.positive context "full-v1" [] []
    full-legal = record {
      removable = record { each = tt; once = refl };
      ranked = refl;
      once = refl;
      keyed = refl;
      fits = omega arith;
    }

    pub full-Rebalanced : Rebalanced state budget (full_rebalance state budget context)
    unfolding full_rebalance
    full-Rebalanced = record {
      decision =
          verdict state ready.valid budget ready.positive context "full-v1" retained_all [] [] none
            full-legal refl;
      decided =
          ap
            (λ n.
              build_decision state budget context "full-v1" (proposal retained_all [] [] (pos n)))
            (omega arith)
          ∙ build_decision-evicting state ready.valid budget ready.positive context "full-v1"
              retained_all [] [] none full-legal refl;
      next = state;
      applied =
          apply-evicting state ready.valid budget ready.positive context "full-v1" retained_all []
            [] none full-legal refl ready.same_run ready.same_arm;
      next_valid = ready.valid;
      within = fits;
    }

  pub full-raises :
      budget.max_active_tokens < active_tokens state
      → full_rebalance state budget context
        ≡ raise (unsatisfiable_budget (policy_context context "full-v1"))
  unfolding full_rebalance
  full-raises over = build_decision-raises state budget context "full-v1" retained_all [] [] _ over

  -- The eligible memories by age.
  abbrev by_age : List (Memory S)
  by_age = sorted (precedes (fifo_ordering S)) (eligible_memories state context none)

  abbrev after_all : ℕ
  after_all = active_tokens state - cost by_age

  by_age-cost : cost by_age + protected_tokens state context none ≡ active_tokens state
  by_age-cost = omega (
    arith,
    sum_by-sorted (precedes (fifo_ordering S)) (λ (m : Memory S). m.token_count)
        (eligible_memories state context none),
    eligible-cost state context none,
  )

  by_age-AreRemovable : AreRemovable context.cycle state.memories by_age
  by_age-AreRemovable =
      AreRemovable-sorted context.cycle state.memories (eligible_memories state context none)
        (precedes (fifo_ordering S)) (eligible-AreRemovable state budget context ready none)

  abbrev all_keyed : List (Candidate S)
  all_keyed = keyed_by (render_key (fifo_ordering S)) by_age

  stateless-build :
      stateless_rebalance state budget context
      ≡ build_decision state budget context "stateless-v1"
          (proposal (code_for evicted_stateless by_age) all_keyed by_age (pos after_all))
  unfolding stateless_rebalance rank_candidates
  stateless-build = rw (
    memories-keyed_by (render_key (fifo_ordering S)) by_age,
    sub-pos (active_tokens state) (cost by_age) (omega (arith, by_age-cost)),
  )

  module _ (fits : protected_tokens state context none ≤ budget.max_active_tokens) where
    stateless-legal :
        IsLegal state ready.valid budget ready.positive context "stateless-v1" all_keyed by_age
    stateless-legal = record {
      removable = by_age-AreRemovable;
      ranked =
          rw (candidate_ids-keyed_by (render_key (fifo_ordering S)) by_age)
            (subset_refl (ids by_age));
      once =
          rw (candidate_ids-keyed_by (render_key (fifo_ordering S)) by_age)
            by_age-AreRemovable.once;
      keyed =
          keys-checked (render_key (fifo_ordering S)) (render_key-ne-empty (fifo_ordering S) refl) 0
            by_age;
      fits = omega (arith, by_age-cost);
    }

    pub stateless-Rebalanced : Rebalanced state budget (stateless_rebalance state budget context)
    stateless-Rebalanced = record {
      decision =
          verdict state ready.valid budget ready.positive context "stateless-v1"
            (code_for evicted_stateless by_age) all_keyed by_age none stateless-legal refl;
      decided =
          stateless-build
          ∙ build_decision-evicting state ready.valid budget ready.positive context "stateless-v1"
              (code_for evicted_stateless by_age) all_keyed by_age none stateless-legal refl;
      next = left_by evicted refl state ready.valid context.cycle by_age by_age-AreRemovable;
      applied =
          apply-evicting state ready.valid budget ready.positive context "stateless-v1"
            (code_for evicted_stateless by_age) all_keyed by_age none stateless-legal refl
            ready.same_run ready.same_arm;
      next_valid =
          left_by-IsValid evicted refl state ready.valid context.cycle by_age by_age-AreRemovable;
      within = omega (
        arith,
        left_by-tokens evicted refl state ready.valid context.cycle by_age by_age-AreRemovable,
        by_age-cost,
      );
    }

  pub stateless-raises :
      budget.max_active_tokens < protected_tokens state context none
      → stateless_rebalance state budget context
        ≡ raise (unsatisfiable_budget (policy_context context "stateless-v1"))
  stateless-raises over =
      stateless-build
      ∙ build_decision-raises state budget context "stateless-v1"
          (code_for evicted_stateless by_age) all_keyed by_age after_all
          (omega (arith, by_age-cost))
