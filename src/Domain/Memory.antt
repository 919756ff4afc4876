-- ===== src/Domain/Memory.antt =====
-- packages/domain/attention_sink/domain/memory.py: one memory, what its constructor accepts, and its
-- transitions. A memory here is any assignment of the fields; `validate` is what building one runs. The
-- identifier patterns are in Domain/Identifiers, and `schema_version`, a constant, is left out.
pub mod Transitions
use Prim.Native.Nat.{max}
use attention_sink.Prelude.{
  ℕ, suc, ◌+◌, String, Bool, true, false, not, [], ◌∷◌, ◌&&◌, ◌||◌, Option, none, some, List, ltb,
  leb, ◌==◌, ◌!=◌, string_eq, nat_eq, if◌then◌else◌, length, is_empty, contains, distinct,
}
use attention_sink.Prelude.Text.{concat, zero_padded}
use attention_sink.Domain.Enums.{
  ArmId, arm_value, MemoryKind, summary, kind_eq, MemoryStatus, active, status_eq,
  is_retired_status, LineageRelation,
}
use attention_sink.Domain.Errors.{Result, ok, raise, value_error, ◌>>=◌, ◌>>◌, require}
use attention_sink.Domain.Runtime.{Host, Float, float_leb}
use attention_sink.Domain.Hashing.{content_hash}

abbrev pub min_summary_sources : ℕ
min_summary_sources = 2

-- A negative slot cannot be written here.
unfoldable pub make_memory_id : ArmId → ℕ → String
unfolding concat zero_padded
make_memory_id arm_id creation_sequence =
    concat ("mem_" ∷ arm_value arm_id ∷ "_" ∷ zero_padded creation_sequence ∷ [])

pub record MemoryLineageEdge : Type 0 where
  pub parent_memory_id : String
  pub child_memory_id : String
  pub relation : LineageRelation
  pub cycle : ℕ

-- `_reject_self_reference`
unfoldable pub edge_check : MemoryLineageEdge → Result (Unit {0})
edge_check edge = require (edge.parent_memory_id != edge.child_memory_id) value_error

pub record Memory (S : Type 0) : Type 0 where
  pub memory_id : String
  pub run_id : String
  pub arm_id : ArmId
  pub text : String
  pub token_count : ℕ
  pub memory_kind : MemoryKind
  pub status : MemoryStatus
  pub birth_cycle : ℕ
  pub retirement_cycle : Option ℕ
  pub citation_count : ℕ
  pub discounted_citation_score : S
  pub last_verified_citation_cycle : Option ℕ
  pub pinned : Bool
  pub source_stimulus_id : Option String
  pub parent_memory_ids : List String
  pub content_hash : String
  pub creation_sequence : ℕ

abbrev pub is_some {ℓ} : {A : Type ℓ} → Option A → Bool
is_some none = false
is_some (some a) = true

-- `cycle is not None and cycle < bound`
abbrev pub is_before : Option ℕ → ℕ → Bool
is_before none bound = false
is_before (some cycle) bound = ltb cycle bound

module _ {S : Type 0} where
  abbrev pub is_active : Memory S → Bool
  is_active m = m.status == active

  -- The constraints that tie the kind to the parents.
  unfoldable pub check_lineage : Memory S → Result (Unit {0})
  check_lineage m = do
    let is_summary = m.memory_kind == summary
    require (not (is_summary && ltb (length m.parent_memory_ids) min_summary_sources)) value_error
    require (is_summary || is_empty m.parent_memory_ids) value_error
    require (distinct m.parent_memory_ids) value_error
    require (not (contains m.parent_memory_ids m.memory_id)) value_error

  -- The constraints that tie the status to the retirement cycle and the pin.
  unfoldable pub check_retirement : Memory S → Result (Unit {0})
  check_retirement m = do
    let retired = is_retired_status m.status
    require (not (retired && not (is_some m.retirement_cycle))) value_error
    require (retired || not (is_some m.retirement_cycle)) value_error
    require (not (is_before m.retirement_cycle m.birth_cycle)) value_error
    require (not (retired && m.pinned)) value_error

  unfoldable pub check_citations : Memory S → Result (Unit {0})
  check_citations m = do
    require (not (is_some m.last_verified_citation_cycle && m.citation_count == 0)) value_error
    require (not (is_before m.last_verified_citation_cycle m.birth_cycle)) value_error

module _ {S : Type 0} ⦃float : Float S⦄ where
  -- `Field(min_length=1)`, `Field(ge=1)`, `Field(ge=0.0)`
  unfoldable pub check_fields : Memory S → Result (Unit {0})
  check_fields m = do
    require (m.text != "") value_error
    require (leb 1 m.token_count) value_error
    require (float_leb (float.of_int 0) m.discounted_citation_score) value_error

  -- `retention_density`
  unfoldable pub retention_density : Memory S → S
  retention_density m = float.div m.discounted_citation_score (float.of_int (max m.token_count 1))

module _ {S : Type 0} ⦃host : Host⦄ ⦃float : Float S⦄ where
  -- `_fill_content_hash`: an empty hash is filled in.
  unfoldable pub fill_content_hash : Memory S → Memory S
  fill_content_hash m =
      if m.content_hash == "" && m.text != ""
      then record m { content_hash = content_hash m.text }
      else m

  -- `_check_invariants`
  unfoldable pub check_invariants : Memory S → Result (Unit {0})
  check_invariants m = do
    require (m.content_hash == content_hash m.text) value_error
    check_lineage m
    check_retirement m
    check_citations m

  -- `Memory.model_validate`, and `Memory(...)`
  unfoldable pub validate : Memory S → Result (Memory S)
  validate m = do
    let filled = fill_content_hash m
    check_fields filled
    check_invariants filled
    ok filled

  -- `retire`; `evolve` is the validation of the changed record.
  unfoldable pub retire : MemoryStatus → ℕ → Memory S → Result (Memory S)
  retire status cycle m = do
    require (is_retired_status status) value_error
    validate (record m { status = status; retirement_cycle = some cycle })

  -- The changes of `with_citation_cycle`.
  unfoldable pub cite : ℕ → ℕ → S → Memory S → Memory S
  cite cycle citations decay m =
      let score =
        float.add (float.mul decay m.discounted_citation_score) (float.of_int citations) in
      if citations == 0 then record m { discounted_citation_score = score } else record m {
        discounted_citation_score = score;
        citation_count = m.citation_count + citations;
        last_verified_citation_cycle = some cycle;
      }

  unfoldable pub with_citation_cycle : ℕ → ℕ → S → Memory S → Result (Memory S)
  with_citation_cycle cycle citations decay m = validate (cite cycle citations decay m)
