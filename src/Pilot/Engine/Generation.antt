-- ===== src/Pilot/Engine/Generation.antt =====
-- packages/pilot/attention_sink/pilot/engine.py: what an arm writes in a cycle, and which of its citations count.
use attention_sink.Prelude.{ℕ, List, [], length}
use attention_sink.Domain.Enums.{ArmId}
use attention_sink.Domain.Actions.{Action, pure, gets, lift, asks, ◌>>=◌, ◌>>◌}
use attention_sink.Domain.Citations.{CitationClaim, VerifiedCitation}
use attention_sink.Domain.State.{active_memories}
use attention_sink.Gateway.Observability.{writer as writer_role}
use attention_sink.Pilot.Snapshots.{StimulusRecord, RejectedClaim}
use attention_sink.Pilot.Engine.Claims.{validate_claims}
use attention_sink.Pilot.Engine.Citing.{claims_from, spans_of, citations_of}
use attention_sink.Pilot.Engine.State.{
  PilotEngine, Gateway, WriterResult, state_of, spend_on, record_on,
}

pub record ArmGeneration : Type 0 where
  pub arm_id : ArmId
  pub writer : WriterResult
  pub claims : List CitationClaim
  pub citations : List VerifiedCitation
  pub rejected : List RejectedClaim

module _ {S : Type 0} (gateway : Gateway S) where
  unfoldable pub generate_arm_cycle :
      ArmId → ℕ → StimulusRecord → Action (PilotEngine S) ArmGeneration
  generate_arm_cycle arm_id cycle stimulus = do
    state ← state_of arm_id
    spend_on writer_role arm_id
    result ← asks λ engine.
        gateway.write (length engine.budget.ledger) cycle stimulus.text (active_memories state)
    record_on result.metadata
    let (accepted, rejected) = validate_claims state result.cited_memory_ids
    run_id ← gets λ engine. engine.configuration.run_id
    mode ← gets λ engine. engine.configuration.citation_mode
    claims ← lift (claims_from run_id arm_id cycle 0 result.cited_memory_ids result.journal_spans)
    citations ← lift (citations_of mode run_id arm_id cycle accepted (spans_of claims []))
    pure (record {
      arm_id = arm_id;
      writer = result;
      claims = claims;
      citations = citations;
      rejected = rejected;
    })
