-- ===== src/Pilot/Engine/Checkpoints.antt =====
-- packages/pilot/attention_sink/pilot/engine.py: the fixed questions, which every arm is asked at a checkpoint.
pub mod Measured
use attention_sink.Prelude.{
  ℕ, String, Option, none, some, List, [], ◌∷◌, length, ◌==◌, nat_eq, true,
}
use attention_sink.Domain.Enums.{ArmId}
use attention_sink.Domain.Errors.{sequence_error}
use attention_sink.Domain.Actions.{Action, pure, gets, modify, asks, ensure, ◌>>=◌, ◌>>◌}
use attention_sink.Domain.State.{active_memories, active_memory_ids}
use attention_sink.Gateway.Observability.{interviewer}
use attention_sink.Pilot.Configuration.{is_checkpoint}
use attention_sink.Pilot.Spending.{open_cycle}
use attention_sink.Pilot.Engine.State.{
  PilotEngine, Gateway, InterviewResult, state_of, spend_on, record_on,
}

pub record CheckpointRecord : Type 0 where
  pub run_id : String
  pub arm_id : ArmId
  pub cycle : ℕ
  pub interview_version : String
  pub result : InterviewResult
  pub active_memory_ids : List String
  pub completed_at : ℕ

-- `tuple(arms) if arms is not None else self.configuration.arms`
abbrev pub asked_arms : List ArmId → Option (List ArmId) → List ArmId
asked_arms configured none = configured
asked_arms configured (some arms) = arms

-- The clock reads `clock n` after n calls.
module _ {S : Type 0} (gateway : Gateway S) (clock : ℕ → ℕ) where
  -- One round of the loop.
  unfoldable pub interview_arm : ℕ → ArmId → Action (PilotEngine S) CheckpointRecord
  interview_arm cycle arm_id = do
    state ← state_of arm_id
    spend_on interviewer arm_id
    result ← asks λ engine.
        gateway.interview (length engine.budget.ledger) engine.questions (active_memories state)
    record_on result.metadata
    engine ← gets λ engine. engine
    pure (record {
      run_id = engine.configuration.run_id;
      arm_id = arm_id;
      cycle = cycle;
      interview_version = engine.configuration.interview_version;
      result = result;
      active_memory_ids = active_memory_ids state;
      completed_at = clock (length engine.budget.ledger);
    })

  unfoldable pub interview_all : ℕ → List ArmId → Action (PilotEngine S) (List CheckpointRecord)
  interview_all cycle [] = pure []
  interview_all cycle (arm_id ∷ arms) = do
    answered ← interview_arm cycle arm_id
    others ← interview_all cycle arms
    pure (answered ∷ others)

  unfoldable pub run_checkpoint :
      ℕ → Option (List ArmId) → Action (PilotEngine S) (List CheckpointRecord)
  unfolding interview_all
  run_checkpoint cycle arms = do
    ensure (λ engine. is_checkpoint engine.configuration cycle) sequence_error
    ensure (λ engine. cycle == engine.current_cycle) sequence_error
    modify λ engine. record engine { budget = open_cycle cycle true engine.budget }
    asked ← gets λ engine. asked_arms engine.configuration.arms arms
    interview_all cycle asked
