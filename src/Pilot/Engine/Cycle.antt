-- ===== src/Pilot/Engine/Cycle.antt =====
-- packages/pilot/attention_sink/pilot/engine.py: all arms of a cycle are staged, checked together, and advance together.
-- The arms' writers run side by side in the code, and each call of the budget is whole; here they run in the configured
-- order, all of them, before the first failure is raised.
pub mod Steady
pub mod Recorded
pub mod Validated
pub mod Together
use attention_sink.Prelude.{
  ℕ, ◌+◌, String, Bool, true, false, not, ◌&&◌, Option, none, some, List, [], ◌∷◌, ◌++◌, map, leb,
  length, ◌==◌, string_eq, nat_eq, list_eq, all, if◌then◌else◌,
}
use attention_sink.Domain.Enums.{ArmId, arm_eq}
use attention_sink.Domain.Errors.{
  Result, ok, raise, key_error, value_error, sequence_error, traverse, require,
}
use attention_sink.Domain.Actions.{Action, pure, gets, modify, lift, asks, ensure, ◌>>=◌, ◌>>◌}
use attention_sink.Domain.Runtime.{Host, Float}
use attention_sink.Domain.State.{MemoryState}
use attention_sink.Pilot.Spending.{open_cycle}
use attention_sink.Pilot.Snapshots.{
  RunStatus, running, completed, failed, StimulusRecord, ArmCycleSnapshot, Dump, verify_hash,
}
use attention_sink.Pilot.Engine.State.{PilotEngine, Gateway, prepare_cycle}
use attention_sink.Pilot.Engine.Generation.{ArmGeneration, generate_arm_cycle}
use attention_sink.Pilot.Engine.Results.{ArmResult, finalize_arm_result}

pub record StagedCycle (S : Type 0) : Type 0 where
  pub cycle : ℕ
  pub stimulus : StimulusRecord
  pub results : List (ArmResult S)

abbrev pub generation_in : ArmId → List ArmGeneration → Result ArmGeneration
generation_in arm_id [] = raise key_error
generation_in arm_id (g ∷ gs) = if g.arm_id == arm_id then ok g else generation_in arm_id gs

module _ {S : Type 0} ⦃host : Host⦄ ⦃dump : Dump (ArmCycleSnapshot S)⦄ where
  -- What is asked of one arm's record in `validate_staged_cycle`.
  unfoldable pub is_consistent : ℕ → StagedCycle S → ArmResult S → Bool
  is_consistent budget staged result =
      result.snapshot.cycle == staged.cycle
      && result.snapshot.stimulus.stimulus_id == staged.stimulus.stimulus_id
      && leb result.snapshot.tokens_after budget
      && verify_hash result.snapshot

  -- Every arm is looked at, and the problems are raised as one error.
  unfoldable pub validate_staged_cycle : StagedCycle S → Action (PilotEngine S) (Unit {0})
  unfolding is_consistent
  validate_staged_cycle staged =
      ensure
        (λ engine.
          map (λ result. result.arm_id) staged.results == engine.configuration.arms
          && all (is_consistent engine.configuration.memory_budget_tokens staged) staged.results)
        value_error

  unfoldable pub complete_cycle_in_memory :
      StagedCycle S → Action (PilotEngine S) (List (ArmCycleSnapshot S))
  unfolding validate_staged_cycle
  complete_cycle_in_memory staged = do
    ensure (λ engine. staged.cycle == engine.current_cycle + 1) sequence_error
    validate_staged_cycle staged
    modify λ engine. record engine {
      states = map (λ result. (result.arm_id, result.state)) staged.results;
      current_cycle = staged.cycle;
      status = if staged.cycle == engine.configuration.maximum_cycles then completed else running;
    }
    pure (map (λ result. result.snapshot) staged.results)

module _ {S : Type 0} where
  -- `except Exception: self.status = RunStatus.FAILED; raise`
  abbrev pub failing : {A : Type 0} → Result A × PilotEngine S → Result A × PilotEngine S
  failing (ok a, engine) = (ok a, engine)
  failing (raise e, engine) = (raise e, record engine { status = failed })

module _ {S : Type 0} ⦃host : Host⦄ ⦃float : Float S⦄ ⦃dump : Dump (ArmCycleSnapshot S)⦄
    (gateway : Gateway S) (clock : ℕ → ℕ) where
  -- The futures: what each arm's writer came to.
  unfoldable pub generate_all :
      ℕ → StimulusRecord → List ArmId → PilotEngine S → List (Result ArmGeneration) × PilotEngine S
  generate_all cycle stimulus [] engine = ([], engine)
  generate_all cycle stimulus (arm_id ∷ arms) engine =
      let (result, next) = generate_arm_cycle gateway arm_id cycle stimulus engine in
      let (results, last) = generate_all cycle stimulus arms next in (result ∷ results, last)

  -- `future.result()` in turn
  abbrev pub generations :
      ℕ → StimulusRecord → List ArmId → Action (PilotEngine S) (List ArmGeneration)
  generations cycle stimulus arms engine =
      let (results, next) = generate_all cycle stimulus arms engine in
      (traverse (λ result. result) results, next)

  unfoldable pub finalize_all :
      ℕ
      → StimulusRecord
      → List ArmGeneration
      → List ArmId
      → Action (PilotEngine S) (List (ArmResult S))
  finalize_all cycle stimulus written [] = pure []
  finalize_all cycle stimulus written (arm_id ∷ arms) = do
    generation ← lift (generation_in arm_id written)
    result ← finalize_arm_result gateway clock arm_id cycle stimulus generation
    results ← finalize_all cycle stimulus written arms
    pure (result ∷ results)

  unfoldable pub stage_cycle : ℕ → Action (PilotEngine S) (StagedCycle S)
  unfolding generate_all finalize_all
  stage_cycle cycle = do
    stimulus ← prepare_cycle cycle
    modify λ engine. record engine { budget = open_cycle cycle false engine.budget }
    arms ← gets λ engine. engine.configuration.arms
    written ← generations cycle stimulus arms
    results ← finalize_all cycle stimulus written arms
    let staged : StagedCycle S = record { cycle = cycle; stimulus = stimulus; results = results }
    validate_staged_cycle staged
    pure staged

  unfoldable pub run_cycle : ℕ → Action (PilotEngine S) (List (ArmCycleSnapshot S))
  unfolding stage_cycle
  run_cycle cycle = (λ engine. failing (stage_cycle cycle engine)) >>= complete_cycle_in_memory
