-- ===== src/Pilot/Engine/Rebalancing.antt =====
-- packages/pilot/attention_sink/pilot/engine.py: one arm is brought back under its budget, with a model call for each
-- summary that its mechanism asks for.
pub mod Spending
use attention_sink.Prelude.{
  ℕ, zero, suc, String, Bool, false, Option, none, some, List, [], ◌∷◌, ◌++◌, length, ◌==◌,
}
use attention_sink.Domain.Enums.{ArmId, summary}
use attention_sink.Domain.Errors.{Result, ok, raise, key_error, type_error, traverse}
use attention_sink.Domain.Actions.{Action, pure, gets, lift, asks, ◌>>=◌, ◌>>◌}
use attention_sink.Domain.Runtime.{Host, Float}
use attention_sink.Domain.Memory.{Memory}
use attention_sink.Domain.Configuration.{SummarizationConfig}
use attention_sink.Domain.Cycle.{CycleContext}
use attention_sink.Domain.Decision.{CompressionPlan, PolicyDecision}
use attention_sink.Domain.State.{MemoryState, active_memories, find, mint, apply}
use attention_sink.Policies.Summarization.{finalize_compression}
use attention_sink.Policies.Registry.{MemoryPolicy, summarizing, policies_for, rebalance}
use attention_sink.Gateway.Observability.{CallMetadata, summarizer}
use attention_sink.Pilot.Configuration.{budget_of, policies_of}
use attention_sink.Pilot.Spending.{remaining}
use attention_sink.Pilot.Engine.State.{PilotEngine, Gateway, spend_on, record_on}

pub record RebalanceOutcome (S : Type 0) : Type 0 where
  pub state : MemoryState S
  pub decisions : List (PolicyDecision S)
  pub created_summary : Option (Memory S)
  pub summary_source_memory_ids : List String
  pub metadata : List CallMetadata

-- `isinstance(policy, CompressingMemoryPolicy)`
abbrev pub compressing : MemoryPolicy → Result SummarizationConfig
compressing (summarizing config) = ok config
compressing other = raise type_error

module _ {S : Type 0} where
  -- `active[memory_id]`
  abbrev or_missing : Option (Memory S) → Result (Memory S)
  or_missing none = raise key_error
  or_missing (some m) = ok m

  abbrev sources_in : MemoryState S → List String → Result (List (Memory S))
  sources_in state = traverse λ memory_id. or_missing (find memory_id (active_memories state))

  -- What a round adds to the outcome.
  abbrev pub add_round :
      RebalanceOutcome S
      → MemoryState S
      → CompressionPlan
      → Memory S
      → CallMetadata
      → PolicyDecision S
      → RebalanceOutcome S
  add_round so_far state plan created call next = record {
    state = state;
    decisions = so_far.decisions ++ next ∷ [];
    created_summary = some created;
    summary_source_memory_ids = plan.source_memory_ids;
    metadata = so_far.metadata ++ call ∷ [];
  }

module _ {S : Type 0} ⦃host : Host⦄ ⦃float : Float S⦄ (gateway : Gateway S) where
  -- `_write_summary`
  unfoldable pub write_summary :
      MemoryState S → CompressionPlan → ℕ → ArmId → Action (PilotEngine S) (Memory S × CallMetadata)
  write_summary state plan cycle arm_id = do
    sources ← lift (sources_in state plan.source_memory_ids)
    spend_on summarizer arm_id
    result ← asks λ engine. gateway.summarize (length engine.budget.ledger) plan sources
    record_on result.metadata
    written ← lift (
        mint state result.summary_text result.summary_tokens summary cycle none
          plan.source_memory_ids false)
    pure (written, result.metadata)

  -- One round of the loop: what the last decision did is applied, and the mechanism decides again.
  unfoldable pub compression_round :
      MemoryPolicy
      → ArmId
      → CycleContext
      → RebalanceOutcome S
      → PolicyDecision S
      → CompressionPlan
      → Action (PilotEngine S) (RebalanceOutcome S × PolicyDecision S)
  compression_round policy arm_id context so_far decision plan = do
    config ← lift (compressing policy)
    state ← lift (apply so_far.state decision)
    (created, call) ← write_summary state plan context.cycle arm_id
    next ← asks λ engine.
        finalize_compression config state (budget_of engine.configuration) context plan created
    pure (add_round so_far state plan created call next, next)

  -- The `while`, on a number of tests of its condition; `none` when it needs more.
  unfoldable pub compression_rounds :
      ℕ
      → MemoryPolicy
      → ArmId
      → CycleContext
      → RebalanceOutcome S
      → PolicyDecision S
      → Action (PilotEngine S) (Option (RebalanceOutcome S))
  compression_rounds zero policy arm_id context so_far decision = pure none
  compression_rounds (suc fuel) policy arm_id context so_far decision =
      elim decision.compression_plan [
        | none ↦ lift (apply so_far.state decision) >>= λ state.
            pure (some (record so_far { state = state }))
        | some plan ↦
            compression_round policy arm_id context so_far decision plan >>= λ (outcome, next).
            compression_rounds fuel policy arm_id context outcome next
      ]

  -- One test more than there are summary calls left.
  unfoldable pub rebalance_arm_memory :
      ArmId → MemoryState S → CycleContext → Action (PilotEngine S) (Option (RebalanceOutcome S))
  rebalance_arm_memory arm_id state context = do
    engine ← gets λ engine. engine
    let policy = policies_for (policies_of engine.configuration) arm_id
    decision ← lift (rebalance policy state (budget_of engine.configuration) context)
    compression_rounds (suc (remaining engine.budget summarizer)) policy arm_id context
        (record {
          state = state;
          decisions = decision ∷ [];
          created_summary = none;
          summary_source_memory_ids = [];
          metadata = [];
        })
        decision
