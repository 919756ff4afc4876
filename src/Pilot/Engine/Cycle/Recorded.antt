-- ===== src/Pilot/Engine/Cycle/Recorded.antt =====
-- packages/pilot/attention_sink/pilot/engine.py: what the snapshot of an arm's cycle tells of the state that is staged
-- with it.
use mathlib.Core.Path.{subst}
use attention_sink.Prelude.{false, ℕ, ◌≡◌, refl, List, [], ◌∷◌, All}
use attention_sink.Domain.Enums.{ArmId}
use attention_sink.Domain.Errors.{Result, ok, raise}
use attention_sink.Domain.Actions.{Action, then_do, pure, lift, gets, modify, ◌>>=◌, ◌>>◌}
use attention_sink.Domain.Runtime.{Host, Float}
use attention_sink.Domain.Memory.{Memory}
use attention_sink.Domain.Decision.{PolicyDecision}
use attention_sink.Domain.State.{MemoryState, active_memory_ids, active_tokens, hash_of_state}
use attention_sink.Pilot.Spending.{open_cycle}
use attention_sink.Pilot.Snapshots.{
  StimulusRecord, RetiredMemoryRecord, ArmCycleSnapshot, Dump, seal_snapshot,
}
use attention_sink.Pilot.Engine.State.{PilotEngine, Gateway, prepare_cycle}
use attention_sink.Pilot.Engine.Generation.{ArmGeneration}
use attention_sink.Pilot.Engine.Rebalancing.{RebalanceOutcome}
use attention_sink.Pilot.Engine.Results.{ArmResult, snapshot_of, finalize_arm_result}
use attention_sink.Pilot.Engine.Cycle.{
  StagedCycle, validate_staged_cycle, generations, finalize_all, stage_cycle, generation_in,
}

-- What a call returns, if it returns.
pub record Returns {D A : Type 0} (P : A → Type 0) (action : Action D A) : Type 0 where
  pub returned : (d : D) (a : A) (next : D) → action d ≡ (ok a, next) → P a

module _ {D A B : Type 0} (P : A → Type 0) (Q : B → Type 0) where
  then_do-returned :
      (rest : A → Action D B) (out : Result A × D) (b : B) (last : D)
      → ((a : A) (next : D) → out ≡ (ok a, next) → P a)
      → ((a : A) → P a → Returns Q (rest a))
      → then_do rest out ≡ (ok b, last)
      → Q b
  then_do-returned rest (raise e, next) b last one more h = cc
  then_do-returned rest (ok a, next) b last one more h =
      (more a (one a next refl)).returned next b last h

  then-Returns :
      (first : Action D A) (rest : A → Action D B)
      → Returns P first
      → ((a : A) → P a → Returns Q (rest a))
      → Returns Q (first >>= rest)
  then-Returns first rest one more = record {
    returned = λ d b last. then_do-returned rest (first d) b last (one.returned d) more;
  }

-- Whatever the first call returns.
after-Returns :
    {D A B : Type 0} (Q : B → Type 0) (first : Action D A) (rest : A → Action D B)
    → ((a : A) → Returns Q (rest a))
    → Returns Q (first >>= rest)
after-Returns Q first rest more =
    then-Returns (λ a. Unit {0}) Q first rest (record { returned = λ d a next h. tt })
      (λ a known. more a)

same-returned :
    {D A : Type 0} (a b : A) (d e : D) → ◌≡◌ {A = Result A × D} (ok a, d) (ok b, e) → a ≡ b
same-returned a b d e h = cc

pure-Returns : {D A : Type 0} (P : A → Type 0) (a : A) → P a → Returns {D = D} P (pure a)
pure-Returns P a p = record { returned = λ d b next h. subst P (same-returned a b d next h) p }

module _ {S : Type 0} ⦃host : Host⦄ where
  -- The snapshot tells of the state the active memories, their cost and their digest.
  pub record IsRecorded (result : ArmResult S) : Type 0 where
    pub same_memories : result.snapshot.active_memory_ids_after ≡ active_memory_ids result.state
    pub same_cost : result.snapshot.tokens_after ≡ active_tokens result.state
    pub same_digest : result.snapshot.state_hash ≡ hash_of_state result.state

module _ {S : Type 0} ⦃host : Host⦄ ⦃dump : Dump (ArmCycleSnapshot S)⦄ where
  -- What is staged once every arm has its result.
  abbrev pub staged_of : ℕ → StimulusRecord → List (ArmResult S) → StagedCycle S
  staged_of cycle stimulus results = record {
    cycle = cycle;
    stimulus = stimulus;
    results = results;
  }

  abbrev pub validated :
      ℕ → StimulusRecord → List (ArmResult S) → Action (PilotEngine S) (StagedCycle S)
  validated cycle stimulus results =
      validate_staged_cycle (staged_of cycle stimulus results)
      >> pure (staged_of cycle stimulus results)

module _ {S : Type 0} ⦃host : Host⦄ ⦃float : Float S⦄ ⦃dump : Dump (ArmCycleSnapshot S)⦄
    (gateway : Gateway S) (clock : ℕ → ℕ) where
  sealed-Recorded :
      (arm_id : ArmId) (engine : PilotEngine S) (stimulus : StimulusRecord)
      (generation : ArmGeneration) (before admitted : MemoryState S) (candidate : Memory S)
      (outcome : RebalanceOutcome S) (decision : PolicyDecision S)
      (retired : List RetiredMemoryRecord) (cycle now : ℕ)
      → Returns {D = PilotEngine S} IsRecorded (
          pure (record {
            arm_id = arm_id;
            state = outcome.state;
            snapshot = seal_snapshot (
                snapshot_of engine gateway stimulus generation before admitted candidate outcome
                  decision retired
                  (hash_of_state outcome.state)
                  cycle
                  now);
          }))
  unfolding seal_snapshot
  sealed-Recorded arm_id engine stimulus generation before admitted candidate outcome decision
        retired cycle now =
      pure-Returns IsRecorded _
        (record { same_memories = refl; same_cost = refl; same_digest = refl })

  finalize_arm_result-Recorded :
      (arm_id : ArmId) (cycle : ℕ) (stimulus : StimulusRecord) (generation : ArmGeneration)
      → Returns IsRecorded (finalize_arm_result gateway clock arm_id cycle stimulus generation)
  unfolding finalize_arm_result
  finalize_arm_result-Recorded arm_id cycle stimulus generation =
      search (after-Returns, sealed-Recorded) depth 40 fits 4000

  finalize_all-Recorded :
      (cycle : ℕ) (stimulus : StimulusRecord) (written : List ArmGeneration) (arms : List ArmId)
      → Returns (All IsRecorded) (finalize_all gateway clock cycle stimulus written arms)
  unfolding finalize_all
  finalize_all-Recorded cycle stimulus written [] = pure-Returns (All IsRecorded) [] tt
  finalize_all-Recorded cycle stimulus written (arm_id ∷ arms) =
      after-Returns (All IsRecorded) (lift (generation_in arm_id written)) _ λ generation.
        then-Returns IsRecorded (All IsRecorded) _ _
          (finalize_arm_result-Recorded arm_id cycle stimulus generation)
          λ result recorded.
            then-Returns (All IsRecorded) (All IsRecorded) _ _
              (finalize_all-Recorded cycle stimulus written arms)
              λ results rest. pure-Returns (All IsRecorded) _ (recorded, rest)

  abbrev pub AreRecorded : StagedCycle S → Type 0
  AreRecorded staged = All IsRecorded staged.results

  validated-Recorded :
      (cycle : ℕ) (stimulus : StimulusRecord) (results : List (ArmResult S))
      → All IsRecorded results
      → Returns AreRecorded (validated cycle stimulus results)
  validated-Recorded cycle stimulus results recorded =
      after-Returns AreRecorded (validate_staged_cycle (staged_of cycle stimulus results))
        (λ sound. pure (staged_of cycle stimulus results))
        λ sound. pure-Returns AreRecorded (staged_of cycle stimulus results) recorded

  -- Whatever the models answer, the snapshots of a staged cycle are records of its states.
  pub stage_cycle-Recorded : (cycle : ℕ) → Returns AreRecorded (stage_cycle gateway clock cycle)
  unfolding stage_cycle
  stage_cycle-Recorded cycle = after-Returns AreRecorded (prepare_cycle cycle) _ λ stimulus.
      after-Returns AreRecorded
        (modify λ (engine : PilotEngine S). record engine {
          budget = open_cycle cycle false engine.budget;
        })
        _
        λ opened.
          after-Returns AreRecorded (gets λ (engine : PilotEngine S). engine.configuration.arms) _
            λ arms.
              after-Returns AreRecorded (generations gateway clock cycle stimulus arms) _ λ written.
                then-Returns (All IsRecorded) AreRecorded
                  (finalize_all gateway clock cycle stimulus written arms)
                  (validated cycle stimulus) (finalize_all-Recorded cycle stimulus written arms)
                  (validated-Recorded cycle stimulus)
