-- ===== src/Policies/Base/Evicting.antt =====
-- A proposal that only evicts is accepted, and `apply` carries it out.
use mathlib.Core.List.{append-nil}
use attention_sink.Prelude.{
  none, ℕ, suc, ◌-◌, ◌≤◌, ◌<◌, ◌≡◌, refl, ap, String, true, false, not, Option, List, [], ◌∷◌, map,
  arith, string_eq, nat_eq, list_eq, ==_refl, length, filter, range_from, lt→ltb, leb, le→leb, ◌+◌,
  contains, distinct, subset, disjoint,
}
use attention_sink.Prelude.Ids.Laws.{distinct-filter, disjoint-filter, distinct-map-filter}
use attention_sink.Prelude.Int.{ℤ, pos}
use attention_sink.Domain.Enums.{PolicyDecisionCode, evicted}
use attention_sink.Domain.Errors.{ok, raise, unsatisfiable_budget, for_each}
use attention_sink.Domain.Runtime.{Host, Float}
use attention_sink.Domain.Tokens.{TokenBudget}
use attention_sink.Domain.Memory.{Memory, is_active}
use attention_sink.Domain.Decision.{
  RandomProvenance, rank_check, retirement_check, retire_as, PolicyDecision, draws_match,
  decision_fields, decision_sets, decision_ranks, decision_created, decision_provenance,
  decision_check,
}
use attention_sink.Domain.Cycle.{CycleContext}
use attention_sink.Domain.Explain.Nonempty.{render_explanation-ne-empty}
use attention_sink.Domain.State.{MemoryState, ids, cost, active_memory_ids, active_tokens, apply}
use attention_sink.Domain.State.Leave.{AreRemovable}
use attention_sink.Domain.State.Applied.{
  StateIsValid, StateIsValid-distinct, left_by, apply-retiring,
}
use attention_sink.Policies.Base.{
  Candidate, Proposal, proposal, ranks_from, kept_ids, assemble, policy_context, build_decision,
}

module _ {S : Type 0} where
  abbrev pub candidate_ids : List (Candidate S) → List String
  candidate_ids = map λ c. c.0.memory_id

  pub ranks_from-ids :
      (k : ℕ) (cs : List (Candidate S))
      → map (λ r. r.memory_id) (ranks_from k cs) ≡ candidate_ids cs
  ranks_from-ids k [] = refl
  ranks_from-ids k ((m, key) ∷ cs) = ap (◌∷◌ m.memory_id) (ranks_from-ids (suc k) cs)

  pub ranks_from-indices :
      (k : ℕ) (cs : List (Candidate S))
      → map (λ r. r.rank_index) (ranks_from k cs) ≡ range_from k (length (candidate_ids cs))
  ranks_from-indices k [] = refl
  ranks_from-indices k ((m, key) ∷ cs) = ap (◌∷◌ k) (ranks_from-indices (suc k) cs)

module _ (code : PolicyDecisionCode) where
  retirements-ids : (ks : List String) → map (λ r. r.memory_id) (retire_as evicted code ks) ≡ ks
  retirements-ids [] = refl
  retirements-ids (k ∷ ks) = ap (◌∷◌ k) (retirements-ids ks)

  retirements-checked :
      (ks : List String) → for_each retirement_check (retire_as evicted code ks) ≡ ok tt
  unfolding retirement_check
  retirements-checked [] = refl
  retirements-checked (k ∷ ks) = retirements-checked ks

  pub length-retirements : (ks : List String) → length (retire_as evicted code ks) ≡ length ks
  length-retirements [] = refl
  length-retirements (k ∷ ks) = ap suc (length-retirements ks)

-- A proposal to evict `victims`, with the provenance of a random choice or none.
abbrev pub evicting :
    {S : Type 0}
    → PolicyDecisionCode
    → List (Candidate S)
    → List (Memory S)
    → ℤ
    → Option RandomProvenance
    → Proposal S
evicting code candidates victims tokens_after provenance =
    record (proposal code candidates victims tokens_after) { random_provenance = provenance }

leb-above : (a b : ℕ) → b < a → leb (a + 0) (b + 0) ≡ false
leb-above a b h = ground arith

-- A final proposal over the budget is refused, whatever else it says.
pub build_decision-over :
    {S : Type 0} (state : MemoryState S) (budget : TokenBudget) (context : CycleContext)
    (version : String) (code : PolicyDecisionCode) (candidates : List (Candidate S))
    (victims : List (Memory S)) (tokens : ℕ) (provenance : Option RandomProvenance)
    → budget.max_active_tokens < tokens
    → build_decision state budget context version
        (evicting code candidates victims (pos tokens) provenance)
      ≡ raise (unsatisfiable_budget (policy_context context version))
unfolding build_decision
build_decision-over state budget context version code candidates victims tokens provenance h =
    rw (leb-above tokens budget.max_active_tokens h)

pub build_decision-raises :
    {S : Type 0} (state : MemoryState S) (budget : TokenBudget) (context : CycleContext)
    (version : String) (code : PolicyDecisionCode) (candidates : List (Candidate S))
    (victims : List (Memory S)) (tokens : ℕ)
    → budget.max_active_tokens < tokens
    → build_decision state budget context version (proposal code candidates victims (pos tokens))
      ≡ raise (unsatisfiable_budget (policy_context context version))
build_decision-raises state budget context version code candidates victims tokens h =
    build_decision-over state budget context version code candidates victims tokens none h

module _ {S : Type 0} ⦃host : Host⦄ ⦃float : Float S⦄ (state : MemoryState S)
    (valid : StateIsValid state) (budget : TokenBudget) (positive : 0 < budget.max_active_tokens)
    (context : CycleContext) (policy_version : String) where
  -- What a policy has to see to: the victims may be retired and are among the ranked candidates, and what
  -- is left fits the budget.
  pub record IsLegal (candidates : List (Candidate S)) (victims : List (Memory S)) : Type 0 where
    pub removable : AreRemovable context.cycle state.memories victims
    pub ranked : subset (ids victims) (candidate_ids candidates) ≡ true
    pub once : distinct (candidate_ids candidates) ≡ true
    pub keyed : for_each rank_check (ranks_from 0 candidates) ≡ ok tt
    pub fits : active_tokens state - cost victims ≤ budget.max_active_tokens

  module _ (code : PolicyDecisionCode) (candidates : List (Candidate S)) (victims : List (Memory S))
      (provenance : Option RandomProvenance) (legal : IsLegal candidates victims)
      (drawn : draws_match provenance (retire_as evicted code (ids victims)) ≡ true) where
    abbrev left_over : ℕ
    left_over = active_tokens state - cost victims

    abbrev chosen : Proposal S
    chosen = evicting code candidates victims (pos left_over) provenance

    abbrev pub verdict : PolicyDecision S
    verdict = assemble state budget context policy_version chosen

    kept-distinct : distinct (kept_ids state chosen) ≡ true
    kept-distinct =
        rw (append-nil (filter (λ k. not (contains (ids victims) k)) (active_memory_ids state))) (
          distinct-filter (λ k. not (contains (ids victims) k)) (active_memory_ids state)
            (distinct-map-filter (λ (m : Memory S). m.memory_id) is_active state.memories
              (StateIsValid-distinct state valid)))

    kept-disjoint : disjoint (kept_ids state chosen) (ids victims) ≡ true
    kept-disjoint =
        rw (append-nil (filter (λ k. not (contains (ids victims) k)) (active_memory_ids state)))
          (disjoint-filter (ids victims) (active_memory_ids state))

    fields-ok : decision_fields verdict ≡ ok tt
    unfolding decision_fields assemble
    fields-ok = simp (
      lt→ltb 0 budget.max_active_tokens positive,
      le→leb 0 (left_over + 0) (omega arith),
      render_explanation-ne-empty,
    )

    sets-ok : decision_sets verdict ≡ ok tt
    unfolding decision_sets assemble
    sets-ok = simp (
      retirements-ids code,
      ==_refl (ids victims),
      kept-distinct,
      legal.removable.once,
      kept-disjoint,
    )

    ranks-ok : decision_ranks verdict ≡ ok tt
    unfolding decision_ranks assemble
    ranks-ok = simp (
      ranks_from-ids 0 candidates,
      ranks_from-indices 0 candidates,
      ==_refl (range_from 0 (length (candidate_ids candidates))),
      legal.once,
      legal.ranked,
    )

    decision-ok : decision_check verdict ≡ ok tt
    unfolding decision_check decision_created decision_provenance assemble
    decision-ok = simp (
      fields-ok,
      sets-ok,
      ranks-ok,
      drawn,
      le→leb (left_over + 0) (budget.max_active_tokens + 0) (omega (arith, legal.fits)),
    )

    -- The decision is built.
    pub build_decision-evicting :
        build_decision state budget context policy_version chosen ≡ ok verdict
    unfolding build_decision assemble
    build_decision-evicting = simp (
      le→leb (left_over + 0) (budget.max_active_tokens + 0) (omega (arith, legal.fits)),
      retirements-checked code (ids victims),
      legal.keyed,
      decision-ok,
    )

    -- It is carried out as it says.
    pub apply-evicting :
        context.run_id ≡ state.run_id
        → context.arm_id ≡ state.arm_id
        → apply state verdict
          ≡ ok (left_by evicted refl state valid context.cycle victims legal.removable)
    unfolding assemble
    apply-evicting run arm =
        apply-retiring evicted refl state valid context.cycle victims legal.removable code verdict
          run arm refl refl refl refl
          (append-nil (filter (λ k. not (contains (ids victims) k)) (active_memory_ids state))) refl
