-- ===== src/Policies/Base/Ready.antt =====
-- A state that a policy may be handed, and the memories that it may retire.
use attention_sink.Prelude.{
  ℕ, ◌+◌, ◌≤◌, ◌<◌, ◌≡◌, Bool, true, false, not, Option, some, List, [], ◌∷◌, arith, string_eq,
  Bool-cases, inl, inr, All, All-take, filter, sorted, take, sum_by-partition,
}
use attention_sink.Prelude.Ids.Laws.{distinct-map-filter, distinct-take, take-map}
use attention_sink.Prelude.Sorting.Laws.{All-sorted, distinct-sorted}
use attention_sink.Domain.Errors.{Result, ok}
use attention_sink.Domain.Runtime.{Host, Float}
use attention_sink.Domain.Tokens.{TokenBudget}
use attention_sink.Domain.Memory.{Memory, is_active}
use attention_sink.Domain.Memory.Transitions.{IsValid}
use attention_sink.Domain.Cycle.{CycleContext}
use attention_sink.Domain.Decision.{PolicyDecision}
use attention_sink.Domain.State.{
  MemoryState, ids, cost, find, active_memories, active_tokens, apply,
}
use attention_sink.Domain.State.Retire.{find-All}
use attention_sink.Domain.State.Leave.{IsRemovable, AreRemovable}
use attention_sink.Domain.State.Applied.{StateIsValid, StateIsValid-distinct}
use attention_sink.Policies.Base.{is_eligible, eligible_memories}

module _ {S : Type 0} where
  -- What the memories cost that the policy may not retire.
  unfoldable pub protected_tokens : MemoryState S → CycleContext → Option (Memory S → Bool) → ℕ
  protected_tokens state context protect =
      cost (filter (λ m. not (is_eligible context protect m)) (active_memories state))

  pub eligible-cost :
      (state : MemoryState S) (context : CycleContext) (protect : Option (Memory S → Bool))
      → cost (eligible_memories state context protect) + protected_tokens state context protect
        ≡ active_tokens state
  unfolding eligible_memories protected_tokens
  eligible-cost state context protect =
      sum_by-partition (λ m. m.token_count) (is_eligible context protect) (active_memories state)

  is_eligible-unpinned :
      (context : CycleContext) (protect : Option (Memory S → Bool)) (m : Memory S)
      → is_eligible context protect m ≡ true
      → m.pinned ≡ false
  unfolding is_eligible
  is_eligible-unpinned context protect m h = ground arith

module _ {S : Type 0} ⦃host : Host⦄ ⦃float : Float S⦄ where
  -- A valid state, a positive budget, and a context of the same run and arm, in no earlier cycle than
  -- any memory was born.
  pub record IsReady (state : MemoryState S) (budget : TokenBudget) (context : CycleContext)
      : Type 0 where
    pub valid : StateIsValid state
    pub positive : 0 < budget.max_active_tokens
    pub same_run : context.run_id ≡ state.run_id
    pub same_arm : context.arm_id ≡ state.arm_id
    pub born : All (λ m. m.birth_cycle ≤ context.cycle) state.memories

  -- A verdict that `apply` carries out, into a valid state within the budget.
  pub record Rebalanced (state : MemoryState S) (budget : TokenBudget)
      (verdict : Result (PolicyDecision S)) : Type 0 where
    pub decision : PolicyDecision S
    pub decided : verdict ≡ ok decision
    pub next : MemoryState S
    pub applied : apply state decision ≡ ok next
    pub next_valid : StateIsValid next
    pub within : active_tokens next ≤ budget.max_active_tokens

  pub AreRemovable-sorted :
      (cycle : ℕ) (ms vs : List (Memory S)) (le : Memory S → Memory S → Bool)
      → AreRemovable cycle ms vs
      → AreRemovable cycle ms (sorted le vs)
  AreRemovable-sorted cycle ms vs le a = record {
    each = All-sorted le (IsRemovable cycle ms) vs a.each;
    once = distinct-sorted le (λ (m : Memory S). m.memory_id) vs a.once;
  }

  pub AreRemovable-take :
      (cycle : ℕ) (ms vs : List (Memory S)) (n : ℕ)
      → AreRemovable cycle ms vs
      → AreRemovable cycle ms (take n vs)
  AreRemovable-take cycle ms vs n a = record {
    each = All-take (IsRemovable cycle ms) n vs a.each;
    once = rw (take-map (λ (m : Memory S). m.memory_id) n vs) at (distinct-take n (ids vs) a.once);
  }

  module _ (state : MemoryState S) (budget : TokenBudget) (context : CycleContext)
      (ready : IsReady state budget context) (protect : Option (Memory S → Bool)) where
    IsRemovable-each :
        (ms : List (Memory S))
        → All (λ m. find m.memory_id state.memories ≡ some m) ms
        → All IsValid ms
        → All (λ m. m.birth_cycle ≤ context.cycle) ms
        → All
            (IsRemovable context.cycle state.memories)
            (filter (is_eligible context protect) (filter is_active ms))
    IsRemovable-each [] f v b = tt
    IsRemovable-each (m ∷ ms) (f, fs) (v, vs) (b, bs) =
        let rest = IsRemovable-each ms fs vs bs in
        elim (Bool-cases (is_active m)) [
          | inl live ↦ elim (Bool-cases (is_eligible context protect m)) [
            | inl may ↦
                simp (live, may)
                  (
                    record {
                      found = f;
                      is_live = live;
                      unpinned = is_eligible-unpinned context protect m may;
                      born = b;
                      valid = v;
                    },
                    rest,
                  )
            | inr not_may ↦ simp (live, not_may) rest
          ]
          | inr gone ↦ simp gone rest
        ]

    pub eligible-AreRemovable :
        AreRemovable context.cycle state.memories (eligible_memories state context protect)
    unfolding eligible_memories
    eligible-AreRemovable = record {
      each =
          IsRemovable-each state.memories
            (find-All state.memories (StateIsValid-distinct state ready.valid)) ready.valid.members
            ready.born;
      once =
          distinct-map-filter (λ (m : Memory S). m.memory_id) (is_eligible context protect)
            (active_memories state)
            (distinct-map-filter (λ (m : Memory S). m.memory_id) is_active state.memories
              (StateIsValid-distinct state ready.valid));
    }
