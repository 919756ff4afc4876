-- ===== src/Policies/Base.antt =====
-- packages/policies/attention_sink/policies/base.py: what every order-driven arm shares.
pub mod Evicting
pub mod Ranking
pub mod Greedy
pub mod Ready
pub mod Ordered
pub mod Built
pub mod Order
pub mod Retired
use Prim.Native.Nat.{Ordering}
use attention_sink.Prelude.{
  ℕ, suc, String, Bool, false, not, ◌&&◌, ◌||◌, Option, none, some, List, [], ◌∷◌, ◌++◌, map, ◌==◌,
  ◌!=◌, string_eq, nat_eq, is_le, length, is_empty, filter, get_last?, sorted, contains,
  if◌then◌else◌,
}
use attention_sink.Prelude.Int.{ℤ, pos, ◌-ℤ◌, compare_ℤ}
use attention_sink.Prelude.Comparing.{then_by}
use attention_sink.Prelude.Text.{concat, join, str_ℤ, compare_text}
use attention_sink.Domain.Enums.{
  arm_value, MemoryStatus, evicted, compressed, PolicyDecisionCode, no_action_within_budget,
}
use attention_sink.Domain.Errors.{
  ErrorContext, Result, ok, value_error, unsatisfiable_budget, ◌>>=◌, ◌>>◌, require, for_each,
}
use attention_sink.Domain.Runtime.{Float}
use attention_sink.Domain.Tokens.{TokenBudget, is_satisfied_by}
use attention_sink.Domain.Memory.{Memory, MemoryLineageEdge, is_some}
use attention_sink.Domain.Decision.{
  CandidateRank, rank_check, RandomProvenance, CompressionPlan, MemoryRetirement, retirement_check,
  retire_as, PolicyDecision, decision_check,
}
use attention_sink.Domain.Cycle.{CycleContext}
use attention_sink.Domain.Explain.{render_explanation}
use attention_sink.Domain.State.{
  MemoryState, ids, active_memories, active_memory_ids, active_tokens,
}

-- A named field of an ordering, by the type of its values.
pub data RankField (S : Type 0) : Type 0 where
  int_field : String → (Memory S → ℤ) → RankField S
  float_field : String → (Memory S → S) → RankField S
  text_field : String → (Memory S → String) → RankField S

abbrev pub RankOrdering : Type 0 → Type 0
RankOrdering S = List (RankField S)

abbrev pub Candidate : Type 0 → Type 0
Candidate S = Memory S × String

module _ {S : Type 0} where
  abbrev pub field_name : RankField S → String
  field_name (int_field name fn) = name
  field_name (float_field name fn) = name
  field_name (text_field name fn) = name

  abbrev pub is_protected : Option (Memory S → Bool) → Memory S → Bool
  is_protected none m = false
  is_protected (some protect) m = protect m

  unfoldable pub is_eligible : CycleContext → Option (Memory S → Bool) → Memory S → Bool
  is_eligible context protect m =
      m.birth_cycle != context.cycle && not m.pinned && not (is_protected protect m)

  unfoldable pub eligible_memories :
      MemoryState S → CycleContext → Option (Memory S → Bool) → List (Memory S)
  unfolding is_eligible
  eligible_memories state context protect =
      filter (is_eligible context protect) (active_memories state)

  unfoldable pub greedy_victims : List (Candidate S) → ℤ → TokenBudget → List (Memory S) × ℤ
  greedy_victims [] remaining budget = ([], remaining)
  greedy_victims ((m, key) ∷ candidates) remaining budget =
      let rest = greedy_victims candidates (remaining -ℤ pos m.token_count) budget in
      if is_satisfied_by budget remaining then ([], remaining) else (m ∷ rest.0, rest.1)

-- `MEMORY_ID_FIELD`
abbrev pub memory_id_field : (S : Type 0) → RankField S
memory_id_field S = text_field "memory_id" λ m. m.memory_id

unfoldable pub render_pair : String → String → String
unfolding concat
render_pair name value = concat (name ∷ "=" ∷ value ∷ [])

module _ {S : Type 0} ⦃float : Float S⦄ where
  unfoldable pub compare_field : RankField S → Memory S → Memory S → Ordering
  compare_field (int_field name fn) m n = compare_ℤ (fn m) (fn n)
  compare_field (float_field name fn) m n = float.compare (fn m) (fn n)
  compare_field (text_field name fn) m n = compare_text (fn m) (fn n)

  -- Python's order of the tuples of keys.
  unfoldable pub compare_by : RankOrdering S → Memory S → Memory S → Ordering
  unfolding compare_field
  compare_by [] m n = Ordering.eq
  compare_by (field ∷ ordering) m n = then_by (compare_field field m n) (compare_by ordering m n)

  abbrev pub precedes : RankOrdering S → Memory S → Memory S → Bool
  precedes ordering m n = is_le (compare_by ordering m n)

  -- `f"{name}={_render(fn(memory))}"`
  unfoldable pub render_field : Memory S → RankField S → String
  unfolding render_pair str_ℤ
  render_field m (int_field name fn) = render_pair name (str_ℤ (fn m))
  render_field m (float_field name fn) = render_pair name (float.repr (fn m))
  render_field m (text_field name fn) = render_pair name (fn m)

  unfoldable pub render_key : RankOrdering S → Memory S → String
  unfolding join render_field
  render_key ordering m = join ";" (map (render_field m) ordering)

  -- `ordering and ordering[-1][0] == MEMORY_ID_FIELD[0]`
  abbrev pub ends_in_memory_id : RankOrdering S → Bool
  ends_in_memory_id ordering = elim (get_last? ordering) [
    | none ↦ false
    | some field ↦ field_name field == "memory_id"
  ]

  unfoldable pub rank_candidates : List (Memory S) → RankOrdering S → Result (List (Candidate S))
  rank_candidates memories ordering = do
    require (ends_in_memory_id ordering) value_error
    ok (map (λ m. (m, render_key ordering m)) (sorted (precedes ordering) memories))

-- The keyword arguments of `build_decision` that its callers choose.
pub record Proposal (S : Type 0) : Type 0 where
  pub code : PolicyDecisionCode
  pub candidates : List (Candidate S)
  pub victims : List (Memory S)
  pub tokens_after : ℤ
  pub retirement_status : MemoryStatus
  pub compressed_memories : List (Memory S)
  pub created_memories : List (Memory S)
  pub lineage_edges : List MemoryLineageEdge
  pub random_provenance : Option RandomProvenance
  pub compression_plan : Option CompressionPlan
  pub committed_compression : Option CompressionPlan
  pub summary_tokens : ℕ

abbrev pub policy_context : CycleContext → String → ErrorContext
policy_context context policy_version = record {
  run_id = some context.run_id;
  arm_id = some (arm_value context.arm_id);
  cycle = some context.cycle;
  policy_version = some policy_version;
}

-- `plan if plan is not None else committed`
abbrev pub described : Option CompressionPlan → Option CompressionPlan → Option CompressionPlan
described none committed = committed
described (some plan) committed = some plan

-- `f(plan) if plan else 0`
abbrev of_plan : (CompressionPlan → ℕ) → Option CompressionPlan → ℕ
of_plan f none = 0
of_plan f (some plan) = f plan

module _ {S : Type 0} where
  -- The defaults of the optional arguments.
  abbrev pub proposal : PolicyDecisionCode → List (Candidate S) → List (Memory S) → ℤ → Proposal S
  proposal code candidates victims tokens_after = record {
    code = code;
    candidates = candidates;
    victims = victims;
    tokens_after = tokens_after;
    retirement_status = evicted;
    compressed_memories = [];
    created_memories = [];
    lineage_edges = [];
    random_provenance = none;
    compression_plan = none;
    committed_compression = none;
    summary_tokens = 0;
  }

  abbrev pub ranks_from : ℕ → List (Candidate S) → List CandidateRank
  ranks_from index [] = []
  ranks_from index ((m, rank_key) ∷ candidates) =
      record { memory_id = m.memory_id; rank_index = index; rank_key = rank_key }
      ∷ ranks_from (suc index) candidates

  abbrev pub kept_ids : MemoryState S → Proposal S → List String
  kept_ids state p =
      filter (λ memory_id. not (contains (ids p.compressed_memories ++ ids p.victims) memory_id))
        (active_memory_ids state)
      ++ ids p.created_memories

  -- The record that `build_decision` assembles.
  unfoldable pub assemble :
      MemoryState S → TokenBudget → CycleContext → String → Proposal S → PolicyDecision S
  assemble state budget context policy_version p =
      let kept = kept_ids state p in
      let retired = ids p.compressed_memories ++ ids p.victims in
      let plan = described p.compression_plan p.committed_compression in
      record {
        run_id = context.run_id;
        arm_id = context.arm_id;
        cycle = context.cycle;
        policy_version = policy_version;
        decision_code = p.code;
        budget_tokens = budget.max_active_tokens;
        tokens_before = active_tokens state;
        tokens_after = p.tokens_after;
        kept_memory_ids = kept;
        retired_memory_ids = retired;
        retirements =
            retire_as compressed p.code (ids p.compressed_memories)
            ++ retire_as p.retirement_status p.code (ids p.victims);
        created_memories = p.created_memories;
        lineage_edges = p.lineage_edges;
        candidate_order = ranks_from 0 p.candidates;
        random_provenance = p.random_provenance;
        compression_plan = p.compression_plan;
        committed_compression = p.committed_compression;
        explanation = render_explanation (record {
          arm_id = context.arm_id;
          cycle = context.cycle;
          code = p.code;
          budget_tokens = budget.max_active_tokens;
          tokens_before = active_tokens state;
          tokens_after = p.tokens_after;
          kept_memory_ids = kept;
          retired_memory_ids = retired;
          eligible_count = length p.candidates;
          compression_sources = of_plan (λ c. length c.source_memory_ids) plan;
          summary_limit = of_plan (λ c. c.summary_target_token_limit) plan;
          summary_tokens = p.summary_tokens;
          tokens_freed = of_plan (λ c. c.tokens_freed) plan;
        });
      }

  -- `is_final and not budget.is_satisfied_by(tokens_after)` raises; then every part is validated.
  unfoldable pub build_decision :
      MemoryState S → TokenBudget → CycleContext → String → Proposal S → Result (PolicyDecision S)
  unfolding assemble
  build_decision state budget context policy_version p = do
    require (is_some p.compression_plan || is_satisfied_by budget p.tokens_after)
        (unsatisfiable_budget (policy_context context policy_version))
    let decision = assemble state budget context policy_version p
    for_each retirement_check decision.retirements
    for_each rank_check decision.candidate_order
    decision_check decision
    ok decision

  -- `code if victims else NO_ACTION_WITHIN_BUDGET`
  abbrev pub code_for : PolicyDecisionCode → List (Memory S) → PolicyDecisionCode
  code_for code victims = if is_empty victims then no_action_within_budget else code

module _ {S : Type 0} ⦃float : Float S⦄ where
  unfoldable pub ordered_decision :
      MemoryState S
      → TokenBudget
      → CycleContext
      → String
      → PolicyDecisionCode
      → RankOrdering S
      → Option (Memory S → Bool)
      → Result (PolicyDecision S)
  ordered_decision state budget context policy_version code ordering protect = do
    candidates ← rank_candidates (eligible_memories state context protect) ordering
    let taken = greedy_victims candidates (pos (active_tokens state)) budget
    build_decision state budget context policy_version
        (proposal (code_for code taken.0) candidates taken.0 taken.1)
