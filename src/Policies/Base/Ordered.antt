-- ===== src/Policies/Base/Ordered.antt =====
-- The greedy rebalance over a ranked list, which every order-driven arm runs.
use attention_sink.Prelude.{
  ℕ, ◌+◌, ◌-◌, ◌≤◌, ◌<◌, ◌≡◌, refl, ap, ◌∙◌, String, Bool, true, Option, none, List, arith,
  string_eq, sorted, take,
}
use attention_sink.Prelude.Ids.Laws.{subset-take, take-map}
use attention_sink.Prelude.Sorting.Laws.{sum_by-sorted}
use attention_sink.Prelude.Int.{pos}
use attention_sink.Domain.Enums.{PolicyDecisionCode, evicted}
use attention_sink.Domain.Errors.{Result, raise, unsatisfiable_budget, ◌>>=◌}
use attention_sink.Domain.Runtime.{Host, Float}
use attention_sink.Domain.Tokens.{TokenBudget}
use attention_sink.Domain.Memory.{Memory}
use attention_sink.Domain.Decision.{PolicyDecision}
use attention_sink.Domain.Cycle.{CycleContext}
use attention_sink.Domain.State.{MemoryState, ids, cost, active_tokens}
use attention_sink.Domain.State.Leave.{AreRemovable}
use attention_sink.Domain.State.Applied.{left_by, left_by-IsValid, left_by-tokens}
use attention_sink.Policies.Base.{
  RankOrdering, eligible_memories, greedy_victims, precedes, render_key, ends_in_memory_id,
  rank_candidates, proposal, policy_context, build_decision,
}
use attention_sink.Policies.Base.Evicting.{
  IsLegal, verdict, build_decision-raises, build_decision-evicting, apply-evicting,
}
use attention_sink.Policies.Base.Ranking.{
  keyed_by, candidate_ids-keyed_by, keys-checked, render_key-ne-empty,
}
use attention_sink.Policies.Base.Greedy.{taken, greedy_victims-take, greedy-fits, greedy-exhausts}
use attention_sink.Policies.Base.Ready.{
  protected_tokens, eligible-cost, IsReady, Rebalanced, AreRemovable-sorted, AreRemovable-take,
  eligible-AreRemovable,
}

module _ {S : Type 0} ⦃host : Host⦄ ⦃float : Float S⦄ (state : MemoryState S) (budget : TokenBudget)
    (context : CycleContext) (ready : IsReady state budget context) (version : String)
    (code_of : List (Memory S) → PolicyDecisionCode) (ordering : RankOrdering S)
    (total : ends_in_memory_id ordering ≡ true) (protect : Option (Memory S → Bool)) where
  -- The common body of the arms, up to the code that they record.
  abbrev pub greedy_decision : Result (PolicyDecision S)
  greedy_decision =
      rank_candidates (eligible_memories state context protect) ordering >>= λ candidates.
      let chosen = greedy_victims candidates (pos (active_tokens state)) budget in
      build_decision state budget context version
        (proposal (code_of chosen.0) candidates chosen.0 chosen.1)

  -- The eligible memories, the most expendable first.
  abbrev pub ranking : List (Memory S)
  ranking = sorted (precedes ordering) (eligible_memories state context protect)

  abbrev pub victims : List (Memory S)
  victims = take (taken (render_key ordering) budget ranking (active_tokens state)) ranking

  pub ranking-cost : cost ranking + protected_tokens state context protect ≡ active_tokens state
  ranking-cost = omega (
    arith,
    sum_by-sorted (precedes ordering) (λ (m : Memory S). m.token_count)
        (eligible_memories state context protect),
    eligible-cost state context protect,
  )

  abbrev left_over : ℕ
  left_over = active_tokens state - cost victims

  -- The decision is the construction over the victims.
  pub greedy_decision-build :
      greedy_decision
      ≡ build_decision state budget context version (
          proposal
            (code_of victims)
            (keyed_by (render_key ordering) ranking)
            victims
            (pos left_over))
  unfolding rank_candidates
  greedy_decision-build = rw (
    total,
    greedy_victims-take (render_key ordering) budget ranking (active_tokens state)
        (omega (arith, ranking-cost)),
  )

  ranking-AreRemovable : AreRemovable context.cycle state.memories ranking
  ranking-AreRemovable =
      AreRemovable-sorted context.cycle state.memories (eligible_memories state context protect)
        (precedes ordering) (eligible-AreRemovable state budget context ready protect)

  pub victims-AreRemovable : AreRemovable context.cycle state.memories victims
  victims-AreRemovable =
      AreRemovable-take context.cycle state.memories ranking _ ranking-AreRemovable

  module _ (satisfiable : protected_tokens state context protect ≤ budget.max_active_tokens) where
    pub legal :
        IsLegal state ready.valid budget ready.positive context version
          (keyed_by (render_key ordering) ranking)
          victims
    legal = record {
      removable = victims-AreRemovable;
      ranked = rw (candidate_ids-keyed_by (render_key ordering) ranking) (
          rw
            (take-map (λ (m : Memory S). m.memory_id)
              (taken (render_key ordering) budget ranking (active_tokens state)) ranking)
            at
            (subset-take (taken (render_key ordering) budget ranking (active_tokens state))
              (ids ranking)));
      once = rw (candidate_ids-keyed_by (render_key ordering) ranking) ranking-AreRemovable.once;
      keyed = keys-checked (render_key ordering) (render_key-ne-empty ordering total) 0 ranking;
      fits =
          greedy-fits (render_key ordering) budget ranking (active_tokens state)
            (omega (arith, ranking-cost)) (omega (arith, ranking-cost));
    }

    abbrev pub next_state : MemoryState S
    next_state = left_by evicted refl state ready.valid context.cycle victims legal.removable

    next-within : active_tokens next_state ≤ budget.max_active_tokens
    next-within = omega (
      arith,
      left_by-tokens evicted refl state ready.valid context.cycle victims legal.removable,
      legal.fits,
    )

    pub greedy-Rebalanced : Rebalanced state budget greedy_decision
    greedy-Rebalanced = record {
      decision =
          verdict state ready.valid budget ready.positive context version (code_of victims)
            (keyed_by (render_key ordering) ranking) victims none legal refl;
      decided =
          greedy_decision-build
          ∙ build_decision-evicting state ready.valid budget ready.positive context version
              (code_of victims) (keyed_by (render_key ordering) ranking) victims none legal refl;
      next = next_state;
      applied =
          apply-evicting state ready.valid budget ready.positive context version (code_of victims)
            (keyed_by (render_key ordering) ranking) victims none legal refl ready.same_run
            ready.same_arm;
      next_valid =
          left_by-IsValid evicted refl state ready.valid context.cycle victims legal.removable;
      within = next-within;
    }

  module _ (over : budget.max_active_tokens < protected_tokens state context protect) where
    pub greedy-raises :
        greedy_decision ≡ raise (unsatisfiable_budget (policy_context context version))
    greedy-raises =
        greedy_decision-build
        ∙ build_decision-raises state budget context version (code_of victims)
            (keyed_by (render_key ordering) ranking) victims left_over
            (omega (
              arith,
              ranking-cost,
              ap cost (
                  greedy-exhausts (render_key ordering) budget ranking (active_tokens state)
                    (omega (arith, ranking-cost)) (omega (arith, ranking-cost))),
            ))
