-- ===== src/Policies/Base/Retired.antt =====
-- A decision over a ranking retires only what was ranked.
use attention_sink.Prelude.{
  ◌≡◌, refl, sym, ap, ◌∙◌, String, true, List, [], ◌∷◌, map, arith, ◌==◌, string_eq, list_eq,
  nat_eq, sorted, contains, distinct, subset,
}
use attention_sink.Prelude.Sorting.Laws.{contains-sorted}
use attention_sink.Domain.Errors.{ok, value_error, require, >>=-eq-ok, require-eq-ok}
use attention_sink.Domain.Runtime.{Float}
use attention_sink.Domain.Tokens.{TokenBudget}
use attention_sink.Domain.Memory.{Memory}
use attention_sink.Domain.Decision.{
  PolicyDecision, indices, decision_fields, decision_sets, decision_ranks, decision_check,
}
use attention_sink.Domain.Cycle.{CycleContext}
use attention_sink.Domain.State.{MemoryState, ids}
use attention_sink.Domain.State.Sound.{ok-injective}
use attention_sink.Policies.Base.{
  RankOrdering, Candidate, Proposal, assemble, precedes, render_key, ends_in_memory_id,
  rank_candidates, build_decision,
}
use attention_sink.Policies.Base.Evicting.{candidate_ids, ranks_from-ids}
use attention_sink.Policies.Base.Ranking.{candidate_ids-keyed_by}
use attention_sink.Policies.Base.Built.{build_decision-assemble}

subset-same :
    (xs ys zs : List String)
    → ((k : String) → contains ys k ≡ contains zs k)
    → subset xs ys ≡ true
    → subset xs zs ≡ true
subset-same [] ys zs e h = refl
subset-same (x ∷ xs) ys zs e h = ground (arith, e x, subset-same xs ys zs e)

pub subset-nothing : (xs zs : List String) → subset xs [] ≡ true → subset xs zs ≡ true
subset-nothing [] zs h = refl
subset-nothing (x ∷ xs) zs h = absurd (ground arith)

module _ {S : Type 0} (state : MemoryState S) (budget : TokenBudget) (context : CycleContext)
    (label : String) where
  pub build_decision-ranked :
      (p : Proposal S) (d : PolicyDecision S)
      → build_decision state budget context label p ≡ ok d
      → subset d.retired_memory_ids (candidate_ids p.candidates) ≡ true
  unfolding decision_check decision_ranks assemble
  build_decision-ranked p d h =
      let built = build_decision-assemble state budget context label p d h in
      let proposed = assemble state budget context label p in
      let ranked_ids = map (λ c. c.memory_id) proposed.candidate_order in
      let fields = >>=-eq-ok (decision_fields proposed) _ built.1 in
      let sets = >>=-eq-ok (decision_sets proposed) _ fields.2 in
      let checked = >>=-eq-ok (decision_ranks proposed) _ sets.2 in
      let indexed =
        >>=-eq-ok
          (require (map (λ c. c.rank_index) proposed.candidate_order == indices ranked_ids)
            value_error)
          _ checked.1 in
      let once = >>=-eq-ok (require (distinct ranked_ids) value_error) _ indexed.2 in
      let included : subset proposed.retired_memory_ids ranked_ids ≡ true =
        require-eq-ok _ value_error once.2 in
      sym (
        ap (λ (e : PolicyDecision S). subset e.retired_memory_ids (candidate_ids p.candidates))
          built.0)
      ∙ sym (ap (subset proposed.retired_memory_ids) (ranks_from-ids 0 p.candidates))
      ∙ included

module _ {S : Type 0} ⦃float : Float S⦄ (state : MemoryState S) (budget : TokenBudget)
    (context : CycleContext) where
  ranked-ids :
      (ms : List (Memory S)) (ordering : RankOrdering S) (cs : List (Candidate S))
      → rank_candidates ms ordering ≡ ok cs
      → (k : String) → contains (candidate_ids cs) k ≡ contains (ids ms) k
  unfolding rank_candidates
  ranked-ids ms ordering cs h k =
      let ends = >>=-eq-ok (require (ends_in_memory_id ordering) value_error) _ h in
      sym (ap (λ (c : List (Candidate S)). contains (candidate_ids c) k) (ok-injective ends.2))
      ∙ ap (λ ks. contains ks k)
          (candidate_ids-keyed_by (render_key ordering) (sorted (precedes ordering) ms))
      ∙ contains-sorted (precedes ordering) (λ (m : Memory S). m.memory_id) ms k

  -- A decision built over a ranking of the memories retires some of them.
  pub over_ranking :
      (ms : List (Memory S)) (ordering : RankOrdering S) (cs : List (Candidate S)) (label : String)
      (p : Proposal S) (d : PolicyDecision S)
      → p.candidates ≡ cs
      → rank_candidates ms ordering ≡ ok cs
      → build_decision state budget context label p ≡ ok d
      → subset d.retired_memory_ids (ids ms) ≡ true
  over_ranking ms ordering cs label p d same ranked h =
      subset-same d.retired_memory_ids (candidate_ids cs) (ids ms)
        (ranked-ids ms ordering cs ranked)
        (sym (ap (λ c. subset d.retired_memory_ids (candidate_ids c)) same)
          ∙ build_decision-ranked state budget context label p d h)
