-- ===== src/Policies/Summarization/Requests.antt =====
-- A request for a summary is a decision that passes its checks, and that `apply` carries out by doing nothing.
use mathlib.Core.List.{append-nil}
use attention_sink.Prelude.{
  ◌+◌, ◌≤◌, ◌≡◌, refl, ap, ◌∙◌, String, true, not, none, some, List, [], ◌∷◌, arith, le→leb, lt→ltb,
  string_eq, nat_eq, list_eq, ==_refl, length, filter, range_from, sorted, contains, distinct,
  disjoint,
}
use attention_sink.Prelude.Ids.Laws.{filter-nothing, distinct-map-filter}
use attention_sink.Prelude.Int.{pos}
use attention_sink.Domain.Enums.{evicted, compression_planned}
use attention_sink.Domain.Errors.{Result, ok, for_each}
use attention_sink.Domain.Runtime.{Host, Float}
use attention_sink.Domain.Tokens.{TokenBudget}
use attention_sink.Domain.Memory.{Memory, is_active}
use attention_sink.Domain.Decision.{
  CompressionPlan, PolicyDecision, rank_check, decision_fields, decision_sets, decision_ranks,
  decision_created, decision_provenance, decision_check,
}
use attention_sink.Domain.Cycle.{CycleContext}
use attention_sink.Domain.Configuration.{SummarizationConfig}
use attention_sink.Domain.Explain.Nonempty.{render_explanation-ne-empty}
use attention_sink.Domain.State.{
  MemoryState, active_memory_ids, active_tokens, next_memory_id, apply,
}
use attention_sink.Domain.State.Leave.{AreRemovable}
use attention_sink.Domain.State.Applied.{StateIsValid-distinct, apply-retiring}
use attention_sink.Policies.Base.{
  Candidate, Proposal, proposal, assemble, eligible_memories, precedes, render_key, ranks_from,
  kept_ids, build_decision,
}
use attention_sink.Policies.Base.Evicting.{
  candidate_ids, ranks_from-ids, ranks_from-indices, IsLegal,
}
use attention_sink.Policies.Base.Ranking.{
  keyed_by, candidate_ids-keyed_by, keys-checked, render_key-ne-empty,
}
use attention_sink.Policies.Base.Ready.{IsReady, AreRemovable-sorted, eligible-AreRemovable}
use attention_sink.Policies.Fifo.{fifo_ordering}
use attention_sink.Policies.Summarization.{version}
use attention_sink.Policies.Summarization.Plans.{IsShortest}

module _ {S : Type 0} ⦃host : Host⦄ ⦃float : Float S⦄ (config : SummarizationConfig)
    (state : MemoryState S) (budget : TokenBudget) (context : CycleContext)
    (ready : IsReady state budget context) where
  -- The eligible memories by age.
  abbrev pub by_age : List (Memory S)
  by_age = sorted (precedes (fifo_ordering S)) (eligible_memories state context none)

  abbrev pub candidates : List (Candidate S)
  candidates = keyed_by (render_key (fifo_ordering S)) by_age

  pub by_age-AreRemovable : AreRemovable context.cycle state.memories by_age
  by_age-AreRemovable =
      AreRemovable-sorted context.cycle state.memories (eligible_memories state context none)
        (precedes (fifo_ordering S)) (eligible-AreRemovable state budget context ready none)

  candidates-distinct : distinct (candidate_ids candidates) ≡ true
  candidates-distinct =
      rw (candidate_ids-keyed_by (render_key (fifo_ordering S)) by_age) by_age-AreRemovable.once

  candidates-checked : for_each rank_check (ranks_from 0 candidates) ≡ ok tt
  candidates-checked =
      keys-checked (render_key (fifo_ordering S)) (render_key-ne-empty (fifo_ordering S) refl) 0
        by_age

  -- A decision that asks for a summary of the shortest prefix that will do, and that `apply` carries out by leaving the
  -- state as it is.
  pub record Planned (outcome : Result (PolicyDecision S)) : Type 0 where
    pub decision : PolicyDecision S
    pub decided : outcome ≡ ok decision
    pub plan : CompressionPlan
    pub requested : decision.compression_plan ≡ some plan
    pub shortest :
        IsShortest config by_age
          (pos (active_tokens state))
          budget
          (next_memory_id state)
          0
          (length by_age)
          plan
    pub unchanged : apply state decision ≡ ok state

  abbrev pub request : CompressionPlan → Proposal S
  request plan = record (proposal compression_planned candidates [] (pos (active_tokens state))) {
    compression_plan = some plan;
  }

  abbrev pub requesting : CompressionPlan → PolicyDecision S
  requesting plan = assemble state budget context version (request plan)

  -- A proposal that retires nothing, for the sake of its kept memories.
  pub nothing-legal :
      active_tokens state ≤ budget.max_active_tokens
      → IsLegal state ready.valid budget ready.positive context version candidates []
  nothing-legal fits = record {
    removable = record { each = tt; once = refl };
    ranked = refl;
    once = candidates-distinct;
    keyed = candidates-checked;
    fits = omega (arith, fits);
  }

  module _ (plan : CompressionPlan) where
    kept-all : kept_ids state (request plan) ≡ active_memory_ids state
    kept-all =
        append-nil (filter (λ k. not (contains [] k)) (active_memory_ids state))
        ∙ filter-nothing (active_memory_ids state)

    kept-distinct : distinct (kept_ids state (request plan)) ≡ true
    kept-distinct = rw kept-all (
        distinct-map-filter (λ (m : Memory S). m.memory_id) is_active state.memories
          (StateIsValid-distinct state ready.valid))

    disjoint_nothing : (ks : List String) → disjoint ks [] ≡ true
    disjoint_nothing [] = refl
    disjoint_nothing (k ∷ ks) = disjoint_nothing ks

    fields-ok : decision_fields (requesting plan) ≡ ok tt
    unfolding decision_fields assemble
    fields-ok = simp (
      lt→ltb 0 budget.max_active_tokens ready.positive,
      le→leb 0 (active_tokens state + 0) (omega arith),
      render_explanation-ne-empty,
    )

    sets-ok : decision_sets (requesting plan) ≡ ok tt
    unfolding decision_sets assemble
    sets-ok = simp (kept-distinct, disjoint_nothing (kept_ids state (request plan)))

    ranks-ok : decision_ranks (requesting plan) ≡ ok tt
    unfolding decision_ranks assemble
    ranks-ok = simp (
      ranks_from-ids 0 candidates,
      ranks_from-indices 0 candidates,
      ==_refl (range_from 0 (length (candidate_ids candidates))),
      candidates-distinct,
    )

    request-checked : decision_check (requesting plan) ≡ ok tt
    unfolding decision_check decision_created decision_provenance assemble
    request-checked = simp (fields-ok, sets-ok, ranks-ok)

    pub request-eq-ok :
        build_decision state budget context version (request plan) ≡ ok (requesting plan)
    unfolding build_decision assemble
    request-eq-ok = simp (candidates-checked, request-checked)

    pub request-unchanged : apply state (requesting plan) ≡ ok state
    unfolding assemble
    request-unchanged =
        apply-retiring evicted refl state ready.valid context.cycle []
          (record { each = tt; once = refl }) compression_planned (requesting plan) ready.same_run
          ready.same_arm refl refl refl refl
          (append-nil (filter (λ k. not (contains [] k)) (active_memory_ids state)))
          (ap pos (omega arith))
