-- ===== src/Domain/State.antt =====
-- packages/domain/attention_sink/domain/state.py: everything that one arm remembers, and its transitions.
pub mod Skeleton
pub mod Retire
pub mod Leave
pub mod Applied
pub mod Sound
pub mod Admit
pub mod Citing
use attention_sink.Prelude.{
  ℕ, ◌+◌, String, Bool, true, not, ◌&&◌, ◌||◌, Option, none, some, List, [], ◌∷◌, ◌++◌, map, ltb,
  leb, ◌==◌, ◌!=◌, string_eq, nat_eq, list_eq, length, filter, sum_by, get_last?, sorted, contains,
  distinct, subset, same_set, if◌then◌else◌,
}
use attention_sink.Prelude.Dict
use attention_sink.Prelude.Dict.{Dict}
use attention_sink.Prelude.Int.{pos, eq_ℤ}
use attention_sink.Domain.Enums.{ArmId, arm_value, arm_eq, MemoryKind, summary, kind_eq, active}
use attention_sink.Domain.Errors.{
  ErrorContext, Error, Result, ok, raise, value_error, policy_error, lineage_error, state_error,
  ◌>>=◌, ◌>>◌, require, for_each, traverse,
}
use attention_sink.Domain.Runtime.{Host, Float, float_is_zero}
use attention_sink.Domain.Hashing.{state_hash}
use attention_sink.Domain.Memory.{
  Memory, MemoryLineageEdge, edge_check, make_memory_id, is_active, validate, retire,
  with_citation_cycle,
}
use attention_sink.Domain.Citations.{VerifiedCitation, updates_memory_state}
use attention_sink.Domain.Decision.{MemoryRetirement, PolicyDecision, compressed_ids}

pub record MemoryState (S : Type 0) : Type 0 where
  pub run_id : String
  pub arm_id : ArmId
  pub memories : List (Memory S)
  pub lineage_edges : List MemoryLineageEdge
  pub next_creation_sequence : ℕ

-- `not sequences or next > sequences[-1]`
abbrev pub is_above : Option ℕ → ℕ → Bool
is_above none next = true
is_above (some last) next = ltb last next

module _ {S : Type 0} where
  abbrev pub ids : List (Memory S) → List String
  ids = map λ m. m.memory_id

  abbrev pub sequences : List (Memory S) → List ℕ
  sequences = map λ m. m.creation_sequence

  unfoldable pub check_identity : MemoryState S → Result (Unit {0})
  check_identity s = do
    require (distinct (ids s.memories)) value_error
    require (sequences s.memories == sorted leb (sequences s.memories)) value_error
    require (distinct (sequences s.memories)) value_error
    require (is_above (get_last? (sequences s.memories)) s.next_creation_sequence) value_error

  check_member : MemoryState S → Memory S → Result (Unit {0})
  check_member s m = do
    require (m.run_id == s.run_id && m.arm_id == s.arm_id) value_error
    require (subset m.parent_memory_ids (ids s.memories)) value_error

  check_edge : MemoryState S → MemoryLineageEdge → Result (Unit {0})
  check_edge s edge =
      require (subset (edge.parent_memory_id ∷ edge.child_memory_id ∷ []) (ids s.memories))
        value_error

  -- `_check_invariants`
  unfoldable pub state_check : MemoryState S → Result (Unit {0})
  unfolding check_member check_edge
  state_check s = do
    check_identity s
    for_each (check_member s) s.memories
    for_each (check_edge s) s.lineage_edges

  -- A state over memories that are records already; the edges are built anew.
  unfoldable pub rebuild : MemoryState S → Result (MemoryState S)
  rebuild s = do for_each edge_check s.lineage_edges; state_check s; ok s

  abbrev pub active_of : List (Memory S) → List (Memory S)
  active_of = filter is_active

  abbrev pub active_memories : MemoryState S → List (Memory S)
  active_memories s = active_of s.memories

  abbrev pub active_memory_ids : MemoryState S → List String
  active_memory_ids s = ids (active_memories s)

  abbrev pub cost : List (Memory S) → ℕ
  cost = sum_by λ m. m.token_count

  abbrev pub active_tokens : MemoryState S → ℕ
  active_tokens s = cost (active_memories s)

  abbrev pub find : String → List (Memory S) → Option (Memory S)
  find memory_id [] = none
  find memory_id (m ∷ ms) = if m.memory_id == memory_id then some m else find memory_id ms

  -- `get`
  abbrev pub get : MemoryState S → String → Option (Memory S)
  get s memory_id = find memory_id s.memories

  unfoldable pub next_memory_id : MemoryState S → String
  next_memory_id s = make_memory_id s.arm_id s.next_creation_sequence

  -- The errors of `admit` name the run and the arm.
  abbrev pub admit_context : MemoryState S → ErrorContext
  admit_context s = record {
    run_id = some s.run_id;
    arm_id = some (arm_value s.arm_id);
    cycle = none;
    policy_version = none;
  }

  -- The loop of `admit`: the slot behind the last memory.
  unfoldable pub admit_loop : Error → List String → ℕ → List (Memory S) → Result ℕ
  admit_loop e known cursor [] = ok cursor
  admit_loop e known cursor (m ∷ ms) = do
    require (not (contains known m.memory_id)) e
    require (is_active m) e
    require (leb cursor m.creation_sequence) e
    admit_loop e known (m.creation_sequence + 1) ms

  unfoldable pub admit : MemoryState S → List (Memory S) → Result (MemoryState S)
  admit s [] = ok s
  admit s (m ∷ ms) = do
    cursor ←
        admit_loop (state_error (admit_context s)) (ids s.memories) s.next_creation_sequence
          (m ∷ ms)
    rebuild (record s { memories = s.memories ++ m ∷ ms; next_creation_sequence = cursor })

  -- `Counter` of the citations that may change this arm.
  unfoldable pub counts_for : MemoryState S → VerifiedCitation → Bool
  counts_for s c = updates_memory_state c && c.run_id == s.run_id && c.arm_id == s.arm_id

  unfoldable pub count_citations : MemoryState S → List VerifiedCitation → String → ℕ
  unfolding counts_for
  count_citations s citations memory_id =
      length (filter (λ c. counts_for s c && c.memory_id == memory_id) citations)

  abbrev pub apply_context : MemoryState S → PolicyDecision S → ErrorContext
  apply_context s d = record {
    run_id = some s.run_id;
    arm_id = some (arm_value s.arm_id);
    cycle = some d.cycle;
    policy_version = some d.policy_version;
  }

  -- A created summary names what the decision compressed.
  unfoldable pub check_created : Error → List MemoryRetirement → Memory S → Result (Unit {0})
  check_created e retirements created =
      require
        (created.memory_kind != summary
          || same_set created.parent_memory_ids (compressed_ids retirements))
        e

module _ {S : Type 0} ⦃host : Host⦄ where
  -- The property `state_hash`
  unfoldable pub hash_of_state : MemoryState S → String
  hash_of_state s = state_hash (active_memory_ids s)

module _ {S : Type 0} ⦃host : Host⦄ ⦃float : Float S⦄ where
  -- `mint`: an empty hash is what the constructor fills in.
  unfoldable pub mint :
      MemoryState S
      → String
      → ℕ
      → MemoryKind
      → ℕ
      → Option String
      → List String
      → Bool
      → Result (Memory S)
  mint s text token_count memory_kind cycle source_stimulus_id parent_memory_ids pinned =
      validate (record {
        memory_id = next_memory_id s;
        run_id = s.run_id;
        arm_id = s.arm_id;
        text = text;
        token_count = token_count;
        memory_kind = memory_kind;
        status = active;
        birth_cycle = cycle;
        retirement_cycle = none;
        citation_count = 0;
        discounted_citation_score = float.of_int 0;
        last_verified_citation_cycle = none;
        pinned = pinned;
        source_stimulus_id = source_stimulus_id;
        parent_memory_ids = parent_memory_ids;
        content_hash = "";
        creation_sequence = s.next_creation_sequence;
      })

  -- `model_validate` of a dump: every part is built anew.
  unfoldable pub revalidate : MemoryState S → Result (MemoryState S)
  revalidate s = do
    memories ← traverse validate s.memories
    rebuild (record s { memories = memories })

  -- One memory of `record_cycle_citations`.
  unfoldable pub update_citations : (String → ℕ) → ℕ → S → Memory S → Result (Memory S)
  update_citations counts cycle decay m =
      if not (is_active m) || counts m.memory_id == 0 && float_is_zero m.discounted_citation_score
      then ok m
      else with_citation_cycle cycle (counts m.memory_id) decay m

  unfoldable pub record_cycle_citations :
      MemoryState S → List VerifiedCitation → ℕ → S → Result (MemoryState S)
  record_cycle_citations s citations cycle decay = do
    updated ← traverse (update_citations (count_citations s citations) cycle decay) s.memories
    rebuild (record s { memories = updated })

  -- One retirement on the memories by identifier, given what stands under its identifier.
  unfoldable pub retire_found :
      Error → ℕ → Dict (Memory S) → MemoryRetirement → Option (Memory S) → Result (Dict (Memory S))
  retire_found e cycle by_id r none = raise e
  retire_found e cycle by_id r (some target) = do
    require (is_active target) e
    require (not target.pinned) e
    left ← retire r.status cycle target
    ok (Dict.insert r.memory_id left by_id)

  abbrev pub retire_one : Error → ℕ → Dict (Memory S) → MemoryRetirement → Result (Dict (Memory S))
  retire_one e cycle by_id r = retire_found e cycle by_id r (Dict.lookup r.memory_id by_id)

  unfoldable pub retire_loop :
      Error → ℕ → Dict (Memory S) → List MemoryRetirement → Result (Dict (Memory S))
  retire_loop e cycle by_id [] = ok by_id
  retire_loop e cycle by_id (r ∷ rs) = do
    by_id' ← retire_one e cycle by_id r
    retire_loop e cycle by_id' rs

  unfoldable pub apply : MemoryState S → PolicyDecision S → Result (MemoryState S)
  apply s d = do
    let policy = policy_error (apply_context s d)
    require (d.run_id == s.run_id && d.arm_id == s.arm_id) policy
    by_id ←
        retire_loop policy d.cycle (Dict.from_list (λ m. m.memory_id) s.memories []) d.retirements
    for_each (check_created (lineage_error (apply_context s d)) d.retirements) d.created_memories
    retired_state ← revalidate (record s { memories = Dict.values by_id })
    admitted ← admit retired_state d.created_memories
    rebuilt ←
        revalidate (record admitted { lineage_edges = admitted.lineage_edges ++ d.lineage_edges })
    require (active_memory_ids rebuilt == d.kept_memory_ids) policy
    require (eq_ℤ (pos (active_tokens rebuilt)) d.tokens_after) policy
    ok rebuilt
