-- ===== src/Policies/Registry/Eligible.antt =====
-- Which memories a mechanism may retire: only the eligible ones.
use attention_sink.Prelude.{
  not, filter, ◌&&◌, ◌≡◌, refl, sym, ap, ◌∙◌, String, Bool, true, false, Option, none, some, List,
  [], ◌∷◌, arith, ◌==◌, string_eq, list_eq, nat_eq, subset, if-cases,
}
use attention_sink.Prelude.Int.{pos}
use attention_sink.Domain.Errors.{ok, unsatisfiable_budget, require, >>=-eq-ok}
use attention_sink.Domain.Runtime.{Host, Float}
use attention_sink.Domain.Tokens.{TokenBudget, is_satisfied_by}
use attention_sink.Domain.Memory.{Memory, is_active}
use attention_sink.Domain.Decision.{CompressionPlan, PolicyDecision}
use attention_sink.Domain.Cycle.{CycleContext}
use attention_sink.Domain.State.{MemoryState, ids, active_tokens, next_memory_id}
use attention_sink.Policies.Base.{
  RankOrdering, Candidate, eligible_memories, is_eligible, is_protected, rank_candidates,
  policy_context, ordered_decision,
}
use attention_sink.Policies.Base.Retired.{subset-nothing, build_decision-ranked, over_ranking}
use attention_sink.Policies.Fifo.{fifo_ordering, fifo_rebalance}
use attention_sink.Policies.Lru.{lru_ordering, lru_rebalance}
use attention_sink.Policies.HeavyHitter.{heavy_ordering, reserved_ids, heavy_rebalance}
use attention_sink.Policies.PinnedOrigin.{is_pinned, pinned_rebalance}
use attention_sink.Policies.Reference.{full_rebalance, stateless_rebalance}
use attention_sink.Policies.Summarization.{
  version, plan_compression, candidate_memories, fifo_fallback, planned_or_fallback,
  summary_rebalance,
}
use attention_sink.Policies.Registry.{
  MemoryPolicy, fifo, lru, random, full, stateless, heavy, pinned, summarizing, rebalance,
}

-- The mechanisms that rank their candidates: all but the drawing one.
unfoldable pub ranks : MemoryPolicy → Bool
ranks fifo = true
ranks lru = true
ranks random = false
ranks full = true
ranks stateless = true
ranks (heavy config) = true
ranks (pinned config) = true
ranks (summarizing config) = true

-- What a mechanism protects besides pinned and newborn memories.
abbrev pub protects : {S : Type 0} → MemoryPolicy → Option (Memory S → Bool)
protects fifo = none
protects lru = none
protects random = none
protects full = none
protects stateless = none
protects (heavy config) = none
protects (pinned config) = some (is_pinned config)
protects (summarizing config) = none

module _ {S : Type 0} ⦃float : Float S⦄ (state : MemoryState S) (budget : TokenBudget)
    (context : CycleContext) where
  -- The identifiers of the memories that may be retired.
  abbrev eligible_ids : Option (Memory S → Bool) → List String
  eligible_ids protect = ids (eligible_memories state context protect)

  ordered-eligible :
      (label : String) (code : _) (ordering : RankOrdering S) (protect : Option (Memory S → Bool))
      (d : PolicyDecision S)
      → ordered_decision state budget context label code ordering protect ≡ ok d
      → subset d.retired_memory_ids (eligible_ids protect) ≡ true
  unfolding ordered_decision
  ordered-eligible label code ordering protect d h =
      let ranked =
        >>=-eq-ok (rank_candidates (eligible_memories state context protect) ordering) _ h in
      over_ranking state budget context (eligible_memories state context protect) ordering ranked.0
        label _ d refl ranked.1 ranked.2

  stateless-eligible :
      (d : PolicyDecision S)
      → stateless_rebalance state budget context ≡ ok d
      → subset d.retired_memory_ids (eligible_ids none) ≡ true
  unfolding stateless_rebalance
  stateless-eligible d h =
      let ranked =
        >>=-eq-ok (rank_candidates (eligible_memories state context none) (fifo_ordering S)) _ h in
      over_ranking state budget context (eligible_memories state context none) (fifo_ordering S)
        ranked.0 "stateless-v1" _ d refl ranked.1 ranked.2

  heavy-eligible :
      (config : _) (d : PolicyDecision S)
      → heavy_rebalance config state budget context ≡ ok d
      → subset d.retired_memory_ids (eligible_ids none) ≡ true
  unfolding heavy_rebalance
  heavy-eligible config d h =
      let ordering = heavy_ordering (reserved_ids config state) in
      let ranked =
        >>=-eq-ok (rank_candidates (eligible_memories state context none) ordering) _ h in
      over_ranking state budget context (eligible_memories state context none) ordering ranked.0
        "heavy-v1" _ d refl ranked.1 ranked.2

  full-eligible :
      (d : PolicyDecision S)
      → full_rebalance state budget context ≡ ok d
      → subset d.retired_memory_ids (eligible_ids none) ≡ true
  unfolding full_rebalance
  full-eligible d h =
      subset-nothing d.retired_memory_ids (eligible_ids none)
        (build_decision-ranked state budget context "full-v1" _ d h)

  fallback-eligible :
      (config : _) (d : PolicyDecision S)
      → fifo_fallback config state budget context ≡ ok d
      → subset d.retired_memory_ids (eligible_ids none) ≡ true
  unfolding fifo_fallback
  fallback-eligible config d h =
      let enabled =
        >>=-eq-ok
          (require config.fifo_fallback_enabled
            (unsatisfiable_budget (policy_context context version)))
          _ h in
      ordered-eligible version _ (fifo_ordering S) none d enabled.2

  planned-eligible :
      (config : _) (cs : List (Candidate S)) (plan : Option CompressionPlan) (d : PolicyDecision S)
      → rank_candidates (eligible_memories state context none) (fifo_ordering S) ≡ ok cs
      → planned_or_fallback config state budget context cs plan ≡ ok d
      → subset d.retired_memory_ids (eligible_ids none) ≡ true
  unfolding planned_or_fallback
  planned-eligible config cs none d ranked h = fallback-eligible config d h
  planned-eligible config cs (some plan) d ranked h =
      over_ranking state budget context (eligible_memories state context none) (fifo_ordering S) cs
        version _ d refl ranked h

  summary-eligible :
      (config : _) (d : PolicyDecision S)
      → summary_rebalance config state budget context ≡ ok d
      → subset d.retired_memory_ids (eligible_ids none) ≡ true
  unfolding summary_rebalance
  summary-eligible config d h =
      let ranked =
        >>=-eq-ok (rank_candidates (eligible_memories state context none) (fifo_ordering S)) _ h in
      if-cases (is_satisfied_by budget (pos (active_tokens state))) ranked.2
        (λ fits.
          over_ranking state budget context (eligible_memories state context none) (fifo_ordering S)
            ranked.0 version _ d refl ranked.1 fits)
        (λ over.
          let planned =
            >>=-eq-ok
              (plan_compression config (candidate_memories ranked.0) (pos (active_tokens state))
                budget (next_memory_id state))
              _ over in
          planned-eligible config ranked.0 planned.0 d ranked.1 planned.2)

rebalance-eligible :
    {S : Type 0} ⦃host : Host⦄ ⦃float : Float S⦄ (state : MemoryState S) (budget : TokenBudget)
    (context : CycleContext) (policy : MemoryPolicy) (d : PolicyDecision S)
    → ranks policy ≡ true
    → rebalance policy state budget context ≡ ok d
    → subset d.retired_memory_ids (ids (eligible_memories state context (protects policy))) ≡ true
unfolding rebalance fifo_rebalance lru_rebalance pinned_rebalance ranks
rebalance-eligible {S} state budget context fifo d r h =
    ordered-eligible state budget context "fifo-v1" _ (fifo_ordering S) none d h
rebalance-eligible {S} state budget context lru d r h =
    ordered-eligible state budget context "lru-v1" _ (lru_ordering S) none d h
rebalance-eligible state budget context random d r h = absurd (ground arith)
rebalance-eligible state budget context full d r h = full-eligible state budget context d h
rebalance-eligible state budget context stateless d r h =
    stateless-eligible state budget context d h
rebalance-eligible state budget context (heavy config) d r h =
    heavy-eligible state budget context config d h
rebalance-eligible {S} state budget context (pinned config) d r h =
    ordered-eligible state budget context "sink-v1" _ (fifo_ordering S) (some (is_pinned config)) d
      h
rebalance-eligible state budget context (summarizing config) d r h =
    summary-eligible state budget context config d h

-- An active memory that is not pinned, was not born in this cycle, and is not the pinned origin's own.
abbrev pub may_retire : {S : Type 0} → CycleContext → MemoryPolicy → Memory S → Bool
may_retire context policy m =
    is_active m
    && not (m.birth_cycle == context.cycle)
    && not m.pinned
    && not (is_protected (protects policy) m)

eligible-filter :
    {S : Type 0} (context : CycleContext) (policy : MemoryPolicy) (ms : List (Memory S))
    → filter (is_eligible context (protects policy)) (filter is_active ms)
      ≡ filter (may_retire context policy) ms
unfolding is_eligible
eligible-filter context policy [] = refl
eligible-filter context policy (m ∷ ms) = ground (arith, eligible-filter context policy ms)

-- A ranking mechanism retires only active memories of the state that are not pinned, were not born in this cycle, and
-- are not the pinned origin's own.
pub rebalance-may_retire :
    {S : Type 0} ⦃host : Host⦄ ⦃float : Float S⦄ (state : MemoryState S) (budget : TokenBudget)
    (context : CycleContext) (policy : MemoryPolicy) (d : PolicyDecision S)
    → ranks policy ≡ true
    → rebalance policy state budget context ≡ ok d
    → subset d.retired_memory_ids (ids (filter (may_retire context policy) state.memories)) ≡ true
unfolding eligible_memories
rebalance-may_retire state budget context policy d r h =
    ap (λ ms. subset d.retired_memory_ids (ids ms))
      (sym (eligible-filter context policy state.memories))
    ∙ rebalance-eligible state budget context policy d r h
