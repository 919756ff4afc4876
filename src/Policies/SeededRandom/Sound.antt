-- ===== src/Policies/SeededRandom/Sound.antt =====
-- The random arm: what it needs of the budget, and that its decision is carried out.
use attention_sink.Prelude.{
  ℕ, ◌+◌, ◌-◌, ◌≤◌, ◌<◌, ◌≡◌, refl, sym, ap, ◌∙◌, String, true, false, Option, none, some, List, [],
  ◌∷◌, ◌++◌, map, arith, leb→le, nat_beq_iff, ◌==◌, string_eq, nat_eq, list_eq, length, length-map,
  contains, distinct, All-append, inl, inr,
}
use attention_sink.Prelude.Ids.Laws.{distinct-append, subset-append}
use attention_sink.Prelude.Sorting.Laws.{All-sorted, distinct-sorted}
use attention_sink.Prelude.Dict.Laws.{from_list-keyed}
use attention_sink.Prelude.Int.{pos}
use attention_sink.Prelude.Text.{text_leb}
use attention_sink.Domain.Enums.{PolicyDecisionCode, evicted, evicted_random}
use attention_sink.Domain.Errors.{ok, raise, unsatisfiable_budget}
use attention_sink.Domain.Runtime.{Host, Float}
use attention_sink.Domain.Tokens.{TokenBudget, is_satisfied_by}
use attention_sink.Domain.Memory.{Memory}
use attention_sink.Domain.Decision.{
  RandomDraw, RandomProvenance, indices, provenance_check, draws_match, retire_as,
}
use attention_sink.Domain.Cycle.{CycleContext}
use attention_sink.Domain.State.{MemoryState, ids, cost, active_tokens}
use attention_sink.Domain.State.Retire.{by_id}
use attention_sink.Domain.State.Applied.{left_by, left_by-IsValid, left_by-tokens}
use attention_sink.Policies.Base.{
  Candidate, eligible_memories, policy_context, build_decision, code_for,
}
use attention_sink.Policies.Base.Evicting.{
  candidate_ids, evicting, IsLegal, verdict, build_decision-over, build_decision-evicting,
  apply-evicting, length-retirements,
}
use attention_sink.Policies.Base.Ready.{
  protected_tokens, eligible-cost, IsReady, Rebalanced, eligible-AreRemovable,
}
use attention_sink.Policies.SeededRandom.{
  Drawing, start_drawing, undrawn, by_key, provenance, random_rebalance,
}
use attention_sink.Policies.SeededRandom.Rounds.{Unnamed, IsUnderway, map-append}
use attention_sink.Policies.SeededRandom.Drawn.{
  Ends, draw_loop-Ends, entry_id, undrawn-ids, undrawn-keyed, entry_ids-by_id, length-by_id,
  Unnamed-entries, All-entry_id, drawn-ids, ranks-checked,
}

-- Provenance that its constructor accepts, and that matches as many retirements as there are draws.
record Recorded (context : CycleContext) (code : PolicyDecisionCode) (draws : List RandomDraw)
    (victims : List String) : Type 0 where
  made : Option RandomProvenance
  accepted : provenance context draws ≡ ok made
  matched : draws_match made (retire_as evicted code victims) ≡ true

provenance-Recorded :
    (context : CycleContext) (code : PolicyDecisionCode) (draws : List RandomDraw)
    (victims : List String)
    → (context.run_random_seed == "") ≡ false
    → map (λ (d : RandomDraw). d.decision_index) draws ≡ indices draws
    → length draws ≡ length victims
    → Recorded context code draws victims
unfolding provenance provenance_check
provenance-Recorded context code [] victims seed numbered counted = record {
  made = none;
  accepted = refl;
  matched = refl;
}
provenance-Recorded context code (d ∷ draws) victims seed numbered counted = record {
  made = some (record { run_random_seed = context.run_random_seed; draws = d ∷ draws });
  accepted = simp (
    seed,
    (list_eq.eqb_iff (map (λ (r : RandomDraw). r.decision_index) (d ∷ draws))
          (indices (d ∷ draws))).1
        numbered,
  );
  matched =
      (nat_beq_iff (length (d ∷ draws)) (length (retire_as evicted code victims))).1
        (counted ∙ sym (length-retirements code victims));
}

module _ {S : Type 0} ⦃host : Host⦄ ⦃float : Float S⦄ (state : MemoryState S) (budget : TokenBudget)
    (context : CycleContext) (ready : IsReady state budget context)
    (seed : (context.run_random_seed == "") ≡ false) where
  abbrev pub drawable : List (Memory S)
  drawable = eligible_memories state context none

  pub affordable : cost drawable ≤ active_tokens state
  affordable = omega (arith, eligible-cost state context none)

  abbrev pub start : Drawing S
  start = start_drawing state context

  start-by_id : start.remaining ≡ by_id drawable
  start-by_id =
      from_list-keyed (λ (m : Memory S). m.memory_id) drawable
        (eligible-AreRemovable state budget context ready none).once

  nothing_named : (ms : List (Memory S)) → Unnamed [] ms
  nothing_named [] = tt
  nothing_named (m ∷ ms) = (refl, nothing_named ms)

  start-IsUnderway : IsUnderway state context (cost drawable) drawable start
  start-IsUnderway = record {
    remaining = start-by_id;
    rest_removable = (eligible-AreRemovable state budget context ready none).each;
    rest_once = (eligible-AreRemovable state budget context ready none).once;
    removable = tt;
    once = refl;
    apart = nothing_named drawable;
    spent = omega arith;
    tokens = ap pos (omega arith);
    drawn = refl;
    keyed = tt;
    numbered = refl;
    counted = refl;
  }

  -- From a ready state, the drawing ends with as many rounds as there are memories to draw, and raises nothing: it stops
  -- with nothing left to draw, or with the cost within the budget.
  pub start_drawing-Ends :
      Ends state budget context (cost drawable) affordable (length start.remaining) start
  start_drawing-Ends =
      draw_loop-Ends state budget context (cost drawable) affordable (length start.remaining)
        drawable start (omega (arith, ap length start-by_id, length-by_id drawable))
        start-IsUnderway

  abbrev victims : List (Memory S)
  victims = start_drawing-Ends.last.victims

  abbrev code : PolicyDecisionCode
  code = code_for evicted_random victims

  abbrev candidates : List (Candidate S)
  candidates = start_drawing-Ends.last.drawn ++ undrawn (by_key start_drawing-Ends.last.remaining)

  candidates-ids :
      candidate_ids candidates
      ≡ ids victims ++ map entry_id (by_key (by_id start_drawing-Ends.rest))
  candidates-ids =
      map-append (λ (c : Candidate S). c.0.memory_id) start_drawing-Ends.last.drawn
        (undrawn (by_key start_drawing-Ends.last.remaining))
      ∙ ap (λ ks. ks ++ candidate_ids (undrawn (by_key start_drawing-Ends.last.remaining)))
          (drawn-ids start_drawing-Ends.last.drawn victims start_drawing-Ends.underway.drawn)
      ∙ ap (λ ks. ids victims ++ ks) (undrawn-ids (by_key start_drawing-Ends.last.remaining))
      ∙ ap (λ d. ids victims ++ map entry_id (by_key d)) start_drawing-Ends.underway.remaining

  candidates-distinct : distinct (candidate_ids candidates) ≡ true
  candidates-distinct = rw candidates-ids (
      distinct-append (ids victims) (map entry_id (by_key (by_id start_drawing-Ends.rest)))
        start_drawing-Ends.underway.once
        (distinct-sorted (λ a b. text_leb a.0 b.0) entry_id (by_id start_drawing-Ends.rest)
          (rw (entry_ids-by_id start_drawing-Ends.rest) start_drawing-Ends.underway.rest_once))
        (All-entry_id (λ k. contains (ids victims) k ≡ false)
          (by_key (by_id start_drawing-Ends.rest))
          (All-sorted (λ a b. text_leb a.0 b.0) (λ e. contains (ids victims) (entry_id e) ≡ false)
            (by_id start_drawing-Ends.rest)
            (Unnamed-entries victims start_drawing-Ends.rest start_drawing-Ends.underway.apart))))

  abbrev left_over : ℕ
  left_over = active_tokens state - cost victims

  recorded : Recorded context code start_drawing-Ends.last.draws (ids victims)
  recorded =
      provenance-Recorded context code start_drawing-Ends.last.draws (ids victims) seed
        start_drawing-Ends.underway.numbered
        (start_drawing-Ends.underway.counted
          ∙ sym (length-map (λ (m : Memory S). m.memory_id) victims))

  random-build :
      random_rebalance state budget context
      ≡ build_decision state budget context "random-v1"
          (evicting code candidates victims (pos left_over) recorded.made)
  unfolding random_rebalance
  random-build =
      simp (start_drawing-Ends.looped, recorded.accepted, start_drawing-Ends.underway.tokens)

  module _ (fits : protected_tokens state context none ≤ budget.max_active_tokens) where
    left_over-fits : left_over ≤ budget.max_active_tokens
    left_over-fits = elim start_drawing-Ends.stopped [
      | inl nothing ↦ omega (
        arith,
        ap cost nothing,
        start_drawing-Ends.underway.spent,
        eligible-cost state context none,
        fits,
      )
      | inr satisfied ↦ omega (
        arith,
        leb→le (left_over + 0) (budget.max_active_tokens + 0)
            (ap (is_satisfied_by budget) (sym start_drawing-Ends.underway.tokens) ∙ satisfied),
      )
    ]

    legal : IsLegal state ready.valid budget ready.positive context "random-v1" candidates victims
    legal = record {
      removable = record {
        each = start_drawing-Ends.underway.removable;
        once = start_drawing-Ends.underway.once;
      };
      ranked =
          rw candidates-ids
            (subset-append (ids victims) (map entry_id (by_key (by_id start_drawing-Ends.rest))));
      once = candidates-distinct;
      keyed = ranks-checked 0 candidates (
          All-append (λ (c : Candidate S). (c.1 == "") ≡ false) start_drawing-Ends.last.drawn
            (undrawn (by_key start_drawing-Ends.last.remaining)) start_drawing-Ends.underway.keyed
            (undrawn-keyed (by_key start_drawing-Ends.last.remaining)));
      fits = left_over-fits;
    }

    -- If a ready state's protected memories fit the budget and the run has a seed, the random arm decides, `apply`
    -- carries the decision out, and the next state is valid and within the budget, whatever is drawn.
    pub random-Rebalanced : Rebalanced state budget (random_rebalance state budget context)
    random-Rebalanced = record {
      decision =
          verdict state ready.valid budget ready.positive context "random-v1" code candidates
            victims recorded.made legal recorded.matched;
      decided =
          random-build
          ∙ build_decision-evicting state ready.valid budget ready.positive context "random-v1" code
              candidates victims recorded.made legal recorded.matched;
      next = left_by evicted refl state ready.valid context.cycle victims legal.removable;
      applied =
          apply-evicting state ready.valid budget ready.positive context "random-v1" code candidates
            victims recorded.made legal recorded.matched ready.same_run ready.same_arm;
      next_valid =
          left_by-IsValid evicted refl state ready.valid context.cycle victims legal.removable;
      within = omega (
        arith,
        left_by-tokens evicted refl state ready.valid context.cycle victims legal.removable,
        left_over-fits,
      );
    }

  -- If its protected memories exceed the budget, the random arm raises, and names the run, the arm, the cycle and its
  -- version.
  pub random-raises :
      budget.max_active_tokens < protected_tokens state context none
      → random_rebalance state budget context
        ≡ raise (unsatisfiable_budget (policy_context context "random-v1"))
  random-raises over =
      random-build
      ∙ build_decision-over state budget context "random-v1" code candidates victims left_over
          recorded.made
          (omega (arith, start_drawing-Ends.underway.spent, eligible-cost state context none, over))
