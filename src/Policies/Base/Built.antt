-- ===== src/Policies/Base/Built.antt =====
-- What every decision that `build_decision` returns has been checked for.
use attention_sink.Prelude.{
  ℕ, ◌≤◌, ◌≡◌, refl, String, Bool, true, not, ◌&&◌, ◌||◌, leb→le, arith, ◌+◌,
}
use attention_sink.Prelude.Int.{pos, leb_ℤ}
use attention_sink.Domain.Errors.{
  ok, value_error, unsatisfiable_budget, require, for_each, >>=-eq-ok, require-eq-ok,
}
use attention_sink.Domain.Tokens.{TokenBudget, is_satisfied_by}
use attention_sink.Domain.Memory.{is_some}
use attention_sink.Domain.Decision.{
  PolicyDecision, rank_check, retirement_check, is_final, decision_fields, decision_sets,
  decision_ranks, decision_created, decision_provenance, decision_check,
}
use attention_sink.Domain.Cycle.{CycleContext}
use attention_sink.Domain.State.{MemoryState}
use attention_sink.Domain.State.Sound.{ok-injective}
use attention_sink.Policies.Base.{Proposal, assemble, policy_context, build_decision}

not-both : (a b : Bool) → not (a && not b) ≡ true → a ≡ true → b ≡ true
not-both a b h t = ground arith

leb_ℤ-pos : (a b : ℕ) → leb_ℤ (pos a) (pos b) ≡ true → a ≤ b
leb_ℤ-pos a b h = omega (arith, leb→le (a + 0) (b + 0) h)

module _ {S : Type 0} where
  -- A decision for the run, arm and cycle of the context, under the budget, that passes its constructor's checks.
  pub record Built (budget : TokenBudget) (context : CycleContext) (version : String)
      (d : PolicyDecision S) : Type 0 where
    pub checked : decision_check d ≡ ok tt
    pub budgeted : d.budget_tokens ≡ budget.max_active_tokens
    pub same_run : d.run_id ≡ context.run_id
    pub same_arm : d.arm_id ≡ context.arm_id
    pub same_cycle : d.cycle ≡ context.cycle
    pub same_version : d.policy_version ≡ version

  module _ (state : MemoryState S) (budget : TokenBudget) (context : CycleContext)
      (version : String) where
    pub build_decision-assemble :
        (p : Proposal S) (d : PolicyDecision S)
        → build_decision state budget context version p ≡ ok d
        → (assemble state budget context version p ≡ d)
          × (decision_check (assemble state budget context version p) ≡ ok tt)
    unfolding build_decision
    build_decision-assemble p d h =
        let proposed = assemble state budget context version p in
        let fits =
          >>=-eq-ok
            (require (is_some p.compression_plan || is_satisfied_by budget p.tokens_after)
              (unsatisfiable_budget (policy_context context version)))
            _ h in
        let retirements = >>=-eq-ok (for_each retirement_check proposed.retirements) _ fits.2 in
        let ranks = >>=-eq-ok (for_each rank_check proposed.candidate_order) _ retirements.2 in
        let checked = >>=-eq-ok (decision_check proposed) _ ranks.2 in
        (ok-injective checked.2, checked.1)

    pub build_decision-Built :
        (p : Proposal S) (d : PolicyDecision S)
        → build_decision state budget context version p ≡ ok d
        → Built budget context version d
    unfolding assemble
    build_decision-Built p d h =
        let built = build_decision-assemble p d h in
        let proposed : Built budget context version (assemble state budget context version p) =
          record {
            checked = built.1;
            budgeted = refl;
            same_run = refl;
            same_arm = refl;
            same_cycle = refl;
            same_version = refl;
          } in
        rw built.0 at proposed

  -- A decision that needs no summary is within its budget.
  pub Built-within :
      (budget : TokenBudget) (context : CycleContext) (version : String) (d : PolicyDecision S)
      → Built budget context version d
      → is_final d ≡ true
      → leb_ℤ d.tokens_after (pos budget.max_active_tokens) ≡ true
  unfolding decision_check
  Built-within budget context version d b final =
      let fields = >>=-eq-ok (decision_fields d) _ b.checked in
      let sets = >>=-eq-ok (decision_sets d) _ fields.2 in
      let ranks = >>=-eq-ok (decision_ranks d) _ sets.2 in
      let created = >>=-eq-ok (decision_created d) _ ranks.2 in
      let provenance = >>=-eq-ok (decision_provenance d) _ created.2 in
      rw b.budgeted at (
        not-both (is_final d) (leb_ℤ d.tokens_after (pos d.budget_tokens))
          (require-eq-ok _ value_error provenance.2) final)

  pub Built-within-pos :
      (budget : TokenBudget) (context : CycleContext) (version : String) (d : PolicyDecision S)
      (n : ℕ)
      → Built budget context version d
      → is_final d ≡ true
      → d.tokens_after ≡ pos n
      → n ≤ budget.max_active_tokens
  Built-within-pos budget context version d n b final e =
      leb_ℤ-pos n budget.max_active_tokens (rw e at (Built-within budget context version d b final))
