-- ===== src/Domain/State/Applied.antt =====
-- `apply` of a decision that only retires.
use mathlib.Core.List.{append-nil}
use attention_sink.Prelude.{
  ℕ, ◌+◌, ◌-◌, ◌≡◌, refl, sym, ◌∙◌, true, not, List, [], ◌∷◌, arith, string_eq, list_eq, ==_refl,
  All, filter, contains, distinct,
}
use attention_sink.Prelude.Dict.Laws.{from_list-keyed, values-keyed}
use attention_sink.Prelude.Int.{pos}
use attention_sink.Domain.Enums.{MemoryStatus, PolicyDecisionCode, arm_eq, is_retired_status}
use attention_sink.Domain.Errors.{Error, ok, for_each, traverse}
use attention_sink.Domain.Runtime.{Host, Float}
use attention_sink.Domain.Memory.{Memory, edge_check, validate}
use attention_sink.Domain.Memory.Transitions.{IsValid, validate_of_IsValid}
use attention_sink.Domain.Decision.{PolicyDecision, retire_as}
use attention_sink.Domain.State.{
  MemoryState, ids, cost, active_memory_ids, active_tokens, check_identity, state_check, rebuild,
  revalidate, admit, apply,
}
use attention_sink.Domain.State.Skeleton.{state_check-skeleton}
use attention_sink.Domain.State.Leave.{
  leave, AreRemovable, leave-skeleton, leave-IsValid, leave-cost, leave-ids, retire_loop-eq-ok,
}

module _ {S : Type 0} ⦃host : Host⦄ ⦃float : Float S⦄ where
  -- What the constructors guarantee of a state and of all that it holds.
  pub record StateIsValid (s : MemoryState S) : Type 0 where
    pub members : All IsValid s.memories
    pub edges : for_each edge_check s.lineage_edges ≡ ok tt
    pub checked : state_check s ≡ ok tt

  traverse-validate : (ms : List (Memory S)) → All IsValid ms → traverse validate ms ≡ ok ms
  traverse-validate [] h = refl
  traverse-validate (m ∷ ms) h = rw (validate_of_IsValid m h.0, traverse-validate ms h.1)

  pub rebuild-eq-ok : (s : MemoryState S) → StateIsValid s → rebuild s ≡ ok s
  unfolding rebuild
  rebuild-eq-ok s v = rw (v.edges, v.checked)

  -- Building a valid state anew raises nothing and gives the same state.
  pub revalidate-eq-ok : (s : MemoryState S) → StateIsValid s → revalidate s ≡ ok s
  unfolding revalidate
  revalidate-eq-ok s v = rw (traverse-validate s.memories v.members) (rebuild-eq-ok s v)

  pub StateIsValid-distinct :
      (s : MemoryState S) → StateIsValid s → distinct (ids s.memories) ≡ true
  unfolding state_check check_identity
  StateIsValid-distinct s v = ground (arith, v.checked)

  module _ (status : MemoryStatus) (is_retired : is_retired_status status ≡ true)
      (s : MemoryState S) (valid : StateIsValid s) (cycle : ℕ) (vs : List (Memory S))
      (removable : AreRemovable cycle s.memories vs) where
    -- The state without the retired memories in its active set.
    abbrev pub left_by : MemoryState S
    left_by = record s { memories = leave status cycle vs s.memories }

    pub left_by-IsValid : StateIsValid left_by
    left_by-IsValid = record {
      members = leave-IsValid status is_retired cycle vs s.memories removable valid.members;
      edges = valid.edges;
      checked =
          sym (
            state_check-skeleton s _
              (leave-skeleton status is_retired cycle vs s.memories removable))
          ∙ valid.checked;
    }

    pub left_by-tokens : active_tokens left_by + cost vs ≡ active_tokens s
    left_by-tokens = leave-cost status is_retired cycle vs s.memories removable

    pub left_by-ids :
        active_memory_ids left_by ≡ filter (λ k. not (contains (ids vs) k)) (active_memory_ids s)
    left_by-ids =
        leave-ids status is_retired cycle vs s.memories removable (StateIsValid-distinct s valid)

    pub apply-retiring :
        (code : PolicyDecisionCode) (d : PolicyDecision S)
        → d.run_id ≡ s.run_id
        → d.arm_id ≡ s.arm_id
        → d.cycle ≡ cycle
        → d.retirements ≡ retire_as status code (ids vs)
        → d.created_memories ≡ []
        → d.lineage_edges ≡ []
        → d.kept_memory_ids ≡ filter (λ k. not (contains (ids vs) k)) (active_memory_ids s)
        → d.tokens_after ≡ pos (active_tokens s - cost vs)
        → apply s d ≡ ok left_by
    unfolding apply admit
    apply-retiring code d run arm at retirements created edges kept tokens =
        simp
          (
            run,
            arm,
            ==_refl s.run_id,
            ==_refl s.arm_id,
            at,
            retirements,
            created,
            edges,
            from_list-keyed (λ (m : Memory S). m.memory_id) s.memories
                (StateIsValid-distinct s valid),
            λ (e : Error). retire_loop-eq-ok status is_retired cycle e code vs s.memories removable,
            values-keyed (λ (m : Memory S). m.memory_id),
            revalidate-eq-ok left_by left_by-IsValid,
            append-nil,
            kept,
            tokens,
            left_by-ids,
            ==_refl (filter (λ k. not (contains (ids vs) k)) (active_memory_ids s)),
          )
          (ground (arith, left_by-tokens))
