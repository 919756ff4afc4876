-- ===== src/Tests/DomainCases.antt =====
-- The theorems on memories and states at concrete inputs.
use attention_sink.Prelude.{ℕ, ◌≡◌, refl, some, List, [], ◌∷◌, inl}
use attention_sink.Domain.Enums.{arm_fifo, arm_lru, writer, interview}
use attention_sink.Domain.Errors.{ok}
use attention_sink.Domain.Hashing.{content_hash}
use attention_sink.Domain.Memory.{
  make_memory_id, check_fields, check_lineage, check_retirement, check_citations, check_invariants,
  fill_content_hash, validate, cite, with_citation_cycle,
}
use attention_sink.Domain.Citations.{VerifiedCitation}
use attention_sink.Domain.State.{
  MemoryState, active_memory_ids, active_tokens, state_check, check_identity, rebuild, admit_loop,
  admit, counts_for, count_citations, update_citations, record_cycle_citations,
}
use attention_sink.Domain.State.Applied.{StateIsValid}
use attention_sink.Domain.State.Sound.{CarriedOut, apply-CarriedOut}
use attention_sink.Domain.State.Admit.{Admitted, admit-Admitted, admit-StateIsValid}
use attention_sink.Domain.State.Citing.{
  Cited, Pointwise, record_cycle_citations-Cited, record_cycle_citations-StateIsValid,
  record_cycle_citations-isolated,
}
use attention_sink.Tests.Fixtures.{host, whole, memory, three}
use attention_sink.Tests.Valid.{first-IsValid}
use attention_sink.Tests.Runs.{evict_first, without_first, evict_first-applied}

apply-CarriedOut_example : CarriedOut evict_first without_first
apply-CarriedOut_example =
    apply-CarriedOut (three arm_fifo) without_first evict_first evict_first-applied

abbrev no_memories : MemoryState ℕ
no_memories = record {
  run_id = "run-1";
  arm_id = arm_fifo;
  memories = [];
  lineage_edges = [];
  next_creation_sequence = 0;
}

abbrev one_memory : MemoryState ℕ
one_memory = record no_memories {
  memories = memory arm_fifo 0 0 40 ∷ [];
  next_creation_sequence = 1;
}

one-admitted : admit no_memories (memory arm_fifo 0 0 40 ∷ []) ≡ ok one_memory
unfolding admit admit_loop rebuild state_check check_identity make_memory_id
one-admitted = refl

admit-Admitted_example : Admitted no_memories (memory arm_fifo 0 0 40 ∷ []) one_memory
admit-Admitted_example =
    admit-Admitted no_memories one_memory (memory arm_fifo 0 0 40 ∷ []) one-admitted

none-StateIsValid : StateIsValid no_memories
unfolding state_check check_identity
none-StateIsValid = record { members = tt; edges = refl; checked = refl }

admit-StateIsValid_example : StateIsValid one_memory
admit-StateIsValid_example =
    admit-StateIsValid no_memories one_memory (memory arm_fifo 0 0 40 ∷ []) none-StateIsValid
      (first-IsValid, tt) one-admitted

abbrev cited_by_writer : VerifiedCitation
cited_by_writer = record {
  run_id = "run-1";
  arm_id = arm_fifo;
  cycle = 3;
  memory_id = "mem_arm_fifo_000000";
  source = writer;
  auditor_version = "a1";
  evidence = "a span";
}

abbrev citations : List VerifiedCitation
citations =
    cited_by_writer
    ∷ record cited_by_writer { source = interview }
    ∷ record cited_by_writer { arm_id = arm_lru }
    ∷ []

abbrev once_cited : MemoryState ℕ
once_cited = record one_memory {
  memories =
      record (memory arm_fifo 0 0 40) {
        citation_count = 1;
        discounted_citation_score = 1;
        last_verified_citation_cycle = some 3;
      }
      ∷ [];
}

once-recorded : record_cycle_citations one_memory citations 3 1 ≡ ok once_cited
unfolding record_cycle_citations count_citations counts_for update_citations with_citation_cycle
    cite validate fill_content_hash check_fields check_invariants check_lineage check_retirement
    check_citations rebuild state_check check_identity make_memory_id content_hash
once-recorded = refl

record_cycle_citations-Cited_example :
    Pointwise Cited one_memory.memories once_cited.memories
    × (active_memory_ids once_cited ≡ active_memory_ids one_memory)
    × (active_tokens once_cited ≡ active_tokens one_memory)
record_cycle_citations-Cited_example =
    record_cycle_citations-Cited one_memory once_cited citations 3 1 once-recorded

record_cycle_citations-StateIsValid_example : StateIsValid once_cited
record_cycle_citations-StateIsValid_example =
    record_cycle_citations-StateIsValid one_memory once_cited citations 3 1
      (admit-StateIsValid no_memories one_memory (memory arm_fifo 0 0 40 ∷ []) none-StateIsValid
        (first-IsValid, tt) one-admitted)
      once-recorded

record_cycle_citations-isolated_example :
    record_cycle_citations one_memory citations 3 1
    ≡ record_cycle_citations one_memory
        (cited_by_writer ∷ record cited_by_writer { arm_id = arm_lru } ∷ [])
        3
        1
record_cycle_citations-isolated_example =
    record_cycle_citations-isolated one_memory (record cited_by_writer { source = interview })
      (cited_by_writer ∷ []) (record cited_by_writer { arm_id = arm_lru } ∷ []) 3 1 (inl refl)
