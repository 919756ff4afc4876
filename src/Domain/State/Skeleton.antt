-- ===== src/Domain/State/Skeleton.antt =====
-- What the validation of a state reads of its memories: their identifiers, slots, owners and parents. A
-- change of anything else keeps a valid state valid.
use attention_sink.Prelude.{
  ℕ, String, ◌≡◌, refl, sym, ap, ◌∙◌, ◌&&◌, List, [], ◌∷◌, map, ◌==◌, string_eq, nat_eq, list_eq,
  subset,
}
use attention_sink.Domain.Enums.{ArmId, arm_eq}
use attention_sink.Domain.Errors.{Result, value_error, ◌>>◌, require, for_each}
use attention_sink.Domain.Memory.{Memory, MemoryLineageEdge}
use attention_sink.Domain.State.{
  MemoryState, ids, sequences, check_identity, check_member, check_edge, state_check,
}

pub record Skeleton : Type 0 where
  pub memory_id : String
  pub creation_sequence : ℕ
  pub run_id : String
  pub arm_id : ArmId
  pub parent_memory_ids : List String

abbrev pub skeleton : {S : Type 0} → Memory S → Skeleton
skeleton m = record {
  memory_id = m.memory_id;
  creation_sequence = m.creation_sequence;
  run_id = m.run_id;
  arm_id = m.arm_id;
  parent_memory_ids = m.parent_memory_ids;
}

-- One member's check, on its skeleton and the identifiers of the state.
member_check : String → ArmId → List String → Skeleton → Result (Unit {0})
member_check run arm known k =
    require (k.run_id == run && k.arm_id == arm) value_error
    >> require (subset k.parent_memory_ids known) value_error

module _ {S : Type 0} where
  abbrev pub SameSkeleton : List (Memory S) → List (Memory S) → Type 0
  SameSkeleton ms ns = map skeleton ms ≡ map skeleton ns

  ids-skeleton : (ms : List (Memory S)) → ids ms ≡ map (λ k. k.memory_id) (map skeleton ms)
  ids-skeleton [] = refl
  ids-skeleton (m ∷ ms) = ap (◌∷◌ m.memory_id) (ids-skeleton ms)

  sequences-skeleton :
      (ms : List (Memory S)) → sequences ms ≡ map (λ k. k.creation_sequence) (map skeleton ms)
  sequences-skeleton [] = refl
  sequences-skeleton (m ∷ ms) = ap (◌∷◌ m.creation_sequence) (sequences-skeleton ms)

  pub SameSkeleton-ids : (ms ns : List (Memory S)) → SameSkeleton ms ns → ids ms ≡ ids ns
  SameSkeleton-ids ms ns e = ids-skeleton ms ∙ ap (map (λ k. k.memory_id)) e ∙ sym (ids-skeleton ns)

  SameSkeleton-sequences :
      (ms ns : List (Memory S)) → SameSkeleton ms ns → sequences ms ≡ sequences ns
  SameSkeleton-sequences ms ns e =
      sequences-skeleton ms ∙ ap (map (λ k. k.creation_sequence)) e ∙ sym (sequences-skeleton ns)

  members-skeleton :
      (s : MemoryState S) (ms : List (Memory S))
      → for_each (check_member s) ms
        ≡ for_each (member_check s.run_id s.arm_id (ids s.memories)) (map skeleton ms)
  unfolding check_member member_check
  members-skeleton s [] = refl
  members-skeleton s (m ∷ ms) = rw (members-skeleton s ms)

  module _ (s : MemoryState S) (ns : List (Memory S)) (e : SameSkeleton s.memories ns) where
    identity-skeleton : check_identity s ≡ check_identity (record s { memories = ns })
    unfolding check_identity
    identity-skeleton =
        rw (SameSkeleton-ids s.memories ns e, SameSkeleton-sequences s.memories ns e)

    edges-skeleton :
        (es : List MemoryLineageEdge)
        → for_each (check_edge s) es ≡ for_each (check_edge (record s { memories = ns })) es
    unfolding check_edge
    edges-skeleton [] = refl
    edges-skeleton (edge ∷ es) = rw (edges-skeleton es) (rw (SameSkeleton-ids s.memories ns e))

    -- Memories with the same skeletons pass the same checks.
    pub state_check-skeleton : state_check s ≡ state_check (record s { memories = ns })
    unfolding state_check
    state_check-skeleton = rw (
      identity-skeleton,
      edges-skeleton s.lineage_edges,
      members-skeleton s s.memories,
      members-skeleton (record s { memories = ns }) ns,
      SameSkeleton-ids s.memories ns e,
      e,
    )
