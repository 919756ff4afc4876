-- ===== src/Pilot/Engine/Results.antt =====
-- packages/pilot/attention_sink/pilot/engine.py: one arm's cycle as its record, and the state that it advances to.
use attention_sink.Prelude.{
  ℕ, String, Option, none, some, List, [], ◌∷◌, ◌++◌, map, length, get_last?, false,
}
use attention_sink.Domain.Enums.{ArmId, generated}
use attention_sink.Domain.Errors.{Result, ok, raise, key_error, index_error, unfinished, traverse}
use attention_sink.Domain.Actions.{Action, pure, gets, lift, asks, ◌>>=◌, ◌>>◌}
use attention_sink.Domain.Runtime.{Host, Float}
use attention_sink.Domain.Memory.{Memory}
use attention_sink.Domain.Cycle.{CycleContext}
use attention_sink.Domain.Decision.{MemoryRetirement, PolicyDecision, compressed_ids}
use attention_sink.Domain.State.{
  MemoryState, active_memories, active_memory_ids, active_tokens, find, mint, admit, hash_of_state,
  record_cycle_citations,
}
use attention_sink.Gateway.Observability.{token_counter}
use attention_sink.Pilot.Snapshots.{
  StimulusRecord, RetiredMemoryRecord, ArmCycleSnapshot, Dump, statistic_of, snapshot_check,
  seal_snapshot,
}
use attention_sink.Pilot.Engine.State.{PilotEngine, Gateway, state_of, spend_on, record_on}
use attention_sink.Pilot.Engine.Generation.{ArmGeneration}
use attention_sink.Pilot.Engine.Rebalancing.{RebalanceOutcome, rebalance_arm_memory}

pub record ArmResult (S : Type 0) : Type 0 where
  pub arm_id : ArmId
  pub state : MemoryState S
  pub snapshot : ArmCycleSnapshot S

module _ {S : Type 0} where
  -- `unfinished` does not occur: a rebalance ends.
  abbrev finished : Option (RebalanceOutcome S) → Result (RebalanceOutcome S)
  finished none = raise unfinished
  finished (some outcome) = ok outcome

  -- `outcome.decisions[-1]`
  abbrev last_decision : Option (PolicyDecision S) → Result (PolicyDecision S)
  last_decision none = raise index_error
  last_decision (some decision) = ok decision

  abbrev retirements_of : List (PolicyDecision S) → List MemoryRetirement
  retirements_of [] = []
  retirements_of (decision ∷ decisions) = decision.retirements ++ retirements_of decisions

  -- `RetiredMemoryRecord(...)` of one retirement, with `known[retirement.memory_id]`
  abbrev retired_record : MemoryRetirement → Option (Memory S) → Result RetiredMemoryRecord
  retired_record retirement none = raise key_error
  retired_record retirement (some m) = ok (record {
    memory_id = retirement.memory_id;
    status = retirement.status;
    reason = retirement.reason;
    token_count = m.token_count;
    text = m.text;
  })

  abbrev retired_records : MemoryState S → List MemoryRetirement → Result (List RetiredMemoryRecord)
  retired_records final =
      traverse λ retirement. retired_record retirement (find retirement.memory_id final.memories)

  abbrev context_of : PilotEngine S → ArmId → ℕ → StimulusRecord → CycleContext
  context_of engine arm_id cycle stimulus = record {
    run_id = engine.configuration.run_id;
    arm_id = arm_id;
    cycle = cycle;
    stimulus_id = stimulus.stimulus_id;
    protocol_version = engine.configuration.protocol_version;
    prompt_version = engine.configuration.writer_prompt_version;
    run_random_seed = engine.configuration.random_seed;
  }

module _ {S : Type 0} where
  -- `ArmCycleSnapshot(...)`, before its constructor's checks and its seal
  abbrev pub snapshot_of :
      PilotEngine S
      → Gateway S
      → StimulusRecord
      → ArmGeneration
      → MemoryState S
      → MemoryState S
      → Memory S
      → RebalanceOutcome S
      → PolicyDecision S
      → List RetiredMemoryRecord
      → String
      → ℕ
      → ℕ
      → ArmCycleSnapshot S
  snapshot_of engine gateway stimulus generation before admitted candidate outcome final_decision
        retired digest cycle now =
      let final = outcome.state in
      record {
        run_id = engine.configuration.run_id;
        run_kind = engine.configuration.run_kind;
        arm_id = generation.arm_id;
        cycle = cycle;
        stimulus = stimulus;
        active_memory_ids_before = active_memory_ids before;
        memory_statistics_before_rebalance = map statistic_of (active_memories admitted);
        tokens_before = active_tokens admitted;
        journal_entry = generation.writer.journal_entry;
        candidate_memory = generation.writer.candidate_memory;
        candidate_memory_id = candidate.memory_id;
        claimed_citations = generation.claims;
        validated_citations = generation.citations;
        rejected_claims = generation.rejected;
        policy_decisions = outcome.decisions;
        created_summary = outcome.created_summary;
        summary_source_memory_ids = outcome.summary_source_memory_ids;
        retired_memories = retired;
        compressed_memory_ids = compressed_ids (retirements_of outcome.decisions);
        active_memory_ids_after = active_memory_ids final;
        tokens_after = active_tokens final;
        budget_tokens = engine.configuration.memory_budget_tokens;
        state_hash = digest;
        model_metadata = generation.writer.metadata ∷ outcome.metadata;
        policy_version = final_decision.policy_version;
        prompt_versions =
            ("writer", engine.configuration.writer_prompt_version)
            ∷ ("summary", engine.configuration.summary_prompt_version)
            ∷ ("interview", engine.configuration.interview_version)
            ∷ [];
        prompt_hashes = gateway.prompt_hashes;
        simulated = gateway.simulated;
        completed_at = now;
        snapshot_hash = "";
      }

-- The clock reads `clock n` after n calls.
module _ {S : Type 0} ⦃host : Host⦄ ⦃float : Float S⦄ ⦃dump : Dump (ArmCycleSnapshot S)⦄
    (gateway : Gateway S) (clock : ℕ → ℕ) where
  unfoldable pub finalize_arm_result :
      ArmId → ℕ → StimulusRecord → ArmGeneration → Action (PilotEngine S) (ArmResult S)
  finalize_arm_result arm_id cycle stimulus generation = do
    before ← state_of arm_id
    scored ← asks λ engine.
        record_cycle_citations before generation.citations cycle
          engine.configuration.heavy_hitter_citation_decay
    let text = generation.writer.candidate_memory
    spend_on token_counter arm_id
    counted ← asks λ engine. gateway.count_detailed (length engine.budget.ledger) text
    record_on counted.metadata
    candidate ←
        lift (mint scored text counted.tokens generated cycle (some stimulus.stimulus_id) [] false)
    admitted ← lift (admit scored (candidate ∷ []))
    engine ← gets λ engine. engine
    found ← rebalance_arm_memory gateway arm_id admitted (context_of engine arm_id cycle stimulus)
    outcome ← lift (finished found)
    retired ← lift (retired_records outcome.state (retirements_of outcome.decisions))
    final_decision ← lift (last_decision (get_last? outcome.decisions))
    now ← gets λ engine. clock (length engine.budget.ledger)
    let snapshot =
        snapshot_of engine gateway stimulus (record generation { arm_id = arm_id }) before admitted
          candidate outcome final_decision retired (hash_of_state outcome.state) cycle now
    lift (snapshot_check snapshot)
    pure (record { arm_id = arm_id; state = outcome.state; snapshot = seal_snapshot snapshot })
