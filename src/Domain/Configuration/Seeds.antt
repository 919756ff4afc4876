-- ===== src/Domain/Configuration/Seeds.antt =====
-- `validate_seed_memories`: the seeds that a run may start from.
use attention_sink.Prelude.{
  ℕ, ◌+◌, ◌≤◌, ◌≡◌, ◌↔◌, refl, sym, ap, ◌∙◌, String, true, Option, none, some, List, arith, leb→le,
  le→leb, ◌==◌, string_eq, Option-cases, inl, inr,
}
use attention_sink.Prelude.Int.{pos}
use attention_sink.Domain.Enums.{seed, kind_eq}
use attention_sink.Domain.Errors.{
  Error, Result, ok, raise, policy_error, unsatisfiable_budget, ◌>>◌, require, >>=-eq-ok,
  require-eq-ok,
}
use attention_sink.Domain.Tokens.{TokenBudget, is_satisfied_by}
use attention_sink.Domain.Memory.{Memory}
use attention_sink.Domain.State.{cost}
use attention_sink.Domain.Configuration.{
  RunConfiguration, find_seed, run_context, check_origin, check_pinned, validate_seed_memories,
}

not_both : (r : Result (Unit {0})) (e : Error) → r ≡ raise e → r ≡ ok tt → ⊥
not_both r e h k = cc

le_of_within :
    (budget : TokenBudget) (n : ℕ)
    → is_satisfied_by budget (pos n) ≡ true
    → n ≤ budget.max_active_tokens
le_of_within budget n h = omega (arith, leb→le (n + 0) (budget.max_active_tokens + 0) h)

within_of_le :
    (budget : TokenBudget) (n : ℕ)
    → n ≤ budget.max_active_tokens
    → is_satisfied_by budget (pos n) ≡ true
within_of_le budget n h = le→leb (n + 0) (budget.max_active_tokens + 0) (omega arith)

module _ {S : Type 0} where
  -- The pinned origin is one of the seeds, of the kind of a seed, and fits the budget by itself.
  pub record PinnedFits (run : RunConfiguration) (seeds : List (Memory S)) (pinned_id : String)
      : Type 0 where
    pub origin : Memory S
    pub found : find_seed pinned_id seeds ≡ some origin
    pub is_seed : origin.memory_kind ≡ seed
    pub fits : origin.token_count ≤ run.budget.max_active_tokens

  unfoldable pub OriginFits : RunConfiguration → List (Memory S) → Option String → Type 0
  OriginFits run seeds none = Unit
  OriginFits run seeds (some pinned_id) = PinnedFits run seeds pinned_id

  missing-raises :
      (run : RunConfiguration) (pinned_id : String) (seeds : List (Memory S))
      → find_seed pinned_id seeds ≡ none
      → check_pinned run seeds (some pinned_id) ≡ raise (policy_error (run_context run))
  unfolding check_pinned
  missing-raises run pinned_id seeds h = ap (check_origin run) h

  found-checks :
      (run : RunConfiguration) (pinned_id : String) (seeds : List (Memory S)) (m : Memory S)
      → find_seed pinned_id seeds ≡ some m
      → check_pinned run seeds (some pinned_id) ≡ (
          require (m.memory_kind == seed) (policy_error (run_context run))
          >> require
              (is_satisfied_by run.budget (pos m.token_count))
              (unsatisfiable_budget (run_context run)))
  unfolding check_pinned
  found-checks run pinned_id seeds m h = ap (check_origin run) h

  pinned-OriginFits :
      (run : RunConfiguration) (seeds : List (Memory S)) (o : Option String)
      → check_pinned run seeds o ≡ ok tt
      → OriginFits run seeds o
  unfolding check_pinned OriginFits
  pinned-OriginFits run seeds none h = tt
  pinned-OriginFits run seeds (some pinned_id) h = elim (Option-cases (find_seed pinned_id seeds)) [
    | inl missing ↦ absurd (
        not_both (check_pinned run seeds (some pinned_id)) (policy_error (run_context run))
          (missing-raises run pinned_id seeds missing) h)
    | inr (m, found) ↦
        let kind =
          >>=-eq-ok (require (m.memory_kind == seed) (policy_error (run_context run))) _
            (sym (found-checks run pinned_id seeds m found) ∙ h) in
        record {
          origin = m;
          found = found;
          is_seed =
              (kind_eq.eqb_iff m.memory_kind seed).0
                (require-eq-ok _ (policy_error (run_context run)) kind.1);
          fits =
              le_of_within run.budget m.token_count
                (require-eq-ok _ (unsatisfiable_budget (run_context run)) kind.2);
        }
  ]

  OriginFits-pinned :
      (run : RunConfiguration) (seeds : List (Memory S)) (o : Option String)
      → OriginFits run seeds o
      → check_pinned run seeds o ≡ ok tt
  unfolding check_pinned OriginFits
  OriginFits-pinned run seeds none f = refl
  OriginFits-pinned run seeds (some pinned_id) f =
      found-checks run pinned_id seeds f.origin f.found
      ∙ simp (
        (kind_eq.eqb_iff f.origin.memory_kind seed).1 f.is_seed,
        within_of_le run.budget f.origin.token_count f.fits,
      )

  -- A run may start from its seeds just if they fit the budget together, and the pinned origin, where one is
  -- configured, is one of them, of the kind of a seed, and fits the budget by itself.
  pub validate_seed_memories-eq-ok :
      (run : RunConfiguration) (seeds : List (Memory S))
      → (validate_seed_memories run seeds ≡ ok tt) ↔ (
          OriginFits run seeds run.policies.pinned_origin.pinned_memory_id
          × (cost seeds ≤ run.budget.max_active_tokens))
  unfolding validate_seed_memories
  validate_seed_memories-eq-ok run seeds = (
    λ h.
        let pinned =
          >>=-eq-ok (check_pinned run seeds run.policies.pinned_origin.pinned_memory_id) _ h in
        (
          pinned-OriginFits run seeds run.policies.pinned_origin.pinned_memory_id pinned.1,
          le_of_within run.budget (cost seeds)
              (require-eq-ok _ (unsatisfiable_budget (run_context run)) pinned.2),
        ),
    λ f. simp (
      OriginFits-pinned run seeds run.policies.pinned_origin.pinned_memory_id f.0,
      within_of_le run.budget (cost seeds) f.1,
    ),
  )
