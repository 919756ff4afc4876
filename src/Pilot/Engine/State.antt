-- ===== src/Pilot/Engine/State.antt =====
-- packages/pilot/attention_sink/pilot/engine.py: what one engine holds, how it is set up and restored, and the gateway
-- that it calls, of packages/model_gateway/attention_sink/model_gateway/interfaces.py.
use attention_sink.Prelude.{
  ℕ, ◌+◌, String, Bool, not, Option, none, some, List, [], ◌∷◌, map, leb, ◌==◌, nat_eq, is_empty,
  if◌then◌else◌,
}
use attention_sink.Prelude.Ids.{same_set}
use attention_sink.Prelude.Dict.{Dict}
use attention_sink.Domain.Enums.{ArmId, arm_value, arm_eq}
use attention_sink.Domain.Errors.{Result, ok, raise, key_error, value_error, sequence_error}
use attention_sink.Domain.Actions.{Action, modify, asks, ensure, ◌>>◌}
use attention_sink.Domain.Memory.{Memory}
use attention_sink.Domain.Decision.{CompressionPlan}
use attention_sink.Domain.State.{MemoryState}
use attention_sink.Gateway.Observability.{ModelRole, CallMetadata}
use attention_sink.Pilot.Configuration.{PilotRunConfiguration}
use attention_sink.Pilot.Spending.{ModelCallBudget, spend, record_call}
use attention_sink.Pilot.Snapshots.{RunStatus, StimulusRecord}

-- `WriterResult`, with the fields of its output that the engine reads.
pub record WriterResult : Type 0 where
  pub journal_entry : String
  pub candidate_memory : String
  pub journal_spans : List String
  pub cited_memory_ids : List String
  pub metadata : CallMetadata

pub record SummaryResult : Type 0 where
  pub summary_text : String
  pub summary_tokens : ℕ
  pub metadata : CallMetadata

pub record TokenCount : Type 0 where
  pub tokens : ℕ
  pub metadata : CallMetadata

pub record InterviewQuestion : Type 0 where
  pub question_id : String
  pub text : String

-- `InterviewResult`, with an answer as the text that it dumps to.
pub record InterviewResult : Type 0 where
  pub answers : List String
  pub cited_memory_ids : List String
  pub metadata : CallMetadata

-- The protocols that the engine calls, each of which may raise. A model may answer differently each time: the first
-- argument is the number of calls before.
pub record Gateway (S : Type 0) : Type 0 where
  pub write : ℕ → ℕ → String → List (Memory S) → Result WriterResult
  pub summarize : ℕ → CompressionPlan → List (Memory S) → Result SummaryResult
  pub count_detailed : ℕ → String → Result TokenCount
  pub interview : ℕ → List InterviewQuestion → List (Memory S) → Result InterviewResult
  pub simulated : Bool
  pub prompt_hashes : Dict String

-- A seed of the world, as far as a run reads it.
pub record SeedMemorySpec : Type 0 where
  pub text : String
  pub provisional_token_count : Option ℕ

abbrev pub count_or : ℕ → Option ℕ → ℕ
count_or other none = other
count_or other (some n) = if n == 0 then other else n

pub record PilotEngine (S : Type 0) : Type 0 where
  pub configuration : PilotRunConfiguration S
  pub seeds : List SeedMemorySpec
  pub deck : List StimulusRecord
  pub questions : List InterviewQuestion
  pub budget : ModelCallBudget
  pub status : RunStatus
  pub current_cycle : ℕ
  pub states : List (ArmId × MemoryState S)

abbrev find_stimulus : ℕ → List StimulusRecord → Option StimulusRecord
find_stimulus cycle [] = none
find_stimulus cycle (s ∷ ss) = if s.cycle == cycle then some s else find_stimulus cycle ss

abbrev or_protocol_error : Option StimulusRecord → Result StimulusRecord
or_protocol_error none = raise value_error
or_protocol_error (some s) = ok s

module _ {S : Type 0} where
  abbrev pub state_in : ArmId → List (ArmId × MemoryState S) → Option (MemoryState S)
  state_in arm_id [] = none
  state_in arm_id ((a, state) ∷ states) = if a == arm_id then some state else state_in arm_id states

  abbrev pub or_key_error : Option (MemoryState S) → Result (MemoryState S)
  or_key_error none = raise key_error
  or_key_error (some state) = ok state

  -- `state_of`
  unfoldable pub state_of : ArmId → Action (PilotEngine S) (MemoryState S)
  state_of arm_id = asks λ engine. or_key_error (state_in arm_id engine.states)

  abbrev pub charged : PilotEngine S → Result ModelCallBudget → Result (Unit {0}) × PilotEngine S
  charged engine (raise e) = (raise e, engine)
  charged engine (ok budget) = (ok tt, record engine { budget = budget })

  -- `self.budget.spend(role, arm_id=arm_id.value)`
  unfoldable pub spend_on : ModelRole → ArmId → Action (PilotEngine S) (Unit {0})
  spend_on role arm_id engine = charged engine (spend role (some (arm_value arm_id)) engine.budget)

  -- `self.budget.record(metadata)`
  unfoldable pub record_on : CallMetadata → Action (PilotEngine S) (Unit {0})
  record_on metadata =
      modify λ engine. record engine { budget = record_call metadata engine.budget }

  unfoldable pub restore :
      List (ArmId × MemoryState S) → ℕ → RunStatus → Action (PilotEngine S) (Unit {0})
  restore states cycle status = do
    ensure (λ engine. same_set (map (λ (a, state). a) states) engine.configuration.arms) value_error
    modify λ engine. record engine { states = states; current_cycle = cycle; status = status }

  unfoldable pub prepare_cycle : ℕ → Action (PilotEngine S) StimulusRecord
  prepare_cycle cycle = do
    ensure (λ engine. not (is_empty engine.states)) sequence_error
    ensure (λ engine. cycle == engine.current_cycle + 1) sequence_error
    ensure (λ engine. leb cycle engine.configuration.maximum_cycles) sequence_error
    asks λ engine. or_protocol_error (find_stimulus cycle engine.deck)
