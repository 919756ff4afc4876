-- ===== src/Pilot/Engine/Cycle/Together.antt =====
-- packages/pilot/attention_sink/pilot/engine.py: how the arms of a cycle advance.
use attention_sink.Prelude.{
  nat_eq, ℕ, ◌+◌, ◌≡◌, refl, true, false, List, [], ◌∷◌, map, all, All, ◌==◌, arith, list_eq,
  list_beq_iff,
}
use attention_sink.Domain.Enums.{ArmId, arm_eq}
use attention_sink.Domain.Errors.{Error, Result, ok, raise}
use attention_sink.Domain.Actions.{then_do, modify, lift}
use attention_sink.Domain.Runtime.{Host, Float}
use attention_sink.Pilot.Snapshots.{failed, StimulusRecord, ArmCycleSnapshot, Dump}
use attention_sink.Pilot.Engine.State.{PilotEngine, Gateway, prepare_cycle}
use attention_sink.Pilot.Engine.Generation.{ArmGeneration, generate_arm_cycle}
use attention_sink.Pilot.Engine.Results.{finalize_arm_result}
use attention_sink.Pilot.Engine.Cycle.{
  StagedCycle, is_consistent, validate_staged_cycle, complete_cycle_in_memory, generate_all,
  finalize_all, stage_cycle, failing, run_cycle, generations, open_cycle, generation_in,
}
use attention_sink.Pilot.Engine.Cycle.Recorded.{IsRecorded, stage_cycle-Recorded}
use attention_sink.Pilot.Engine.Cycle.Validated.{stage_cycle-Sound}
use attention_sink.Pilot.Engine.Cycle.Steady.{
  Unmoved, Steady, steady_rules, then-Steady, lift-Steady, rebalance_arm_memory-Steady, still,
  ensure-Steady, Unmoved-trans, pure-Steady,
}

module _ {S : Type 0} ⦃host : Host⦄ ⦃float : Float S⦄ ⦃dump : Dump (ArmCycleSnapshot S)⦄
    (gateway : Gateway S) (clock : ℕ → ℕ) where
  generate_arm_cycle-Steady :
      (arm_id : ArmId) (cycle : ℕ) (stimulus : StimulusRecord)
      → Steady (generate_arm_cycle gateway arm_id cycle stimulus)
  unfolding generate_arm_cycle
  generate_arm_cycle-Steady arm_id cycle stimulus = search steady_rules depth 20 fits 4000

  finalize_arm_result-Steady :
      (arm_id : ArmId) (cycle : ℕ) (stimulus : StimulusRecord) (generation : ArmGeneration)
      → Steady (finalize_arm_result gateway clock arm_id cycle stimulus generation)
  unfolding finalize_arm_result
  finalize_arm_result-Steady arm_id cycle stimulus generation =
      search (steady_rules, rebalance_arm_memory-Steady) depth 30 fits 4000

  generate_all-Unmoved :
      (cycle : ℕ) (stimulus : StimulusRecord) (arms : List ArmId) (engine : PilotEngine S)
      → Unmoved (generate_all gateway clock cycle stimulus arms engine).1 engine
  unfolding generate_all
  generate_all-Unmoved cycle stimulus [] engine = still engine
  generate_all-Unmoved cycle stimulus (arm_id ∷ arms) engine =
      let next = (generate_arm_cycle gateway arm_id cycle stimulus engine).1 in
      Unmoved-trans (generate_all gateway clock cycle stimulus arms next).1 next engine
        (generate_all-Unmoved cycle stimulus arms next)
        ((generate_arm_cycle-Steady arm_id cycle stimulus).unmoved engine)

  generations-Steady :
      (cycle : ℕ) (stimulus : StimulusRecord) (arms : List ArmId)
      → Steady (generations gateway clock cycle stimulus arms)
  generations-Steady cycle stimulus arms = record {
    unmoved = generate_all-Unmoved cycle stimulus arms;
  }

  finalize_all-Steady :
      (cycle : ℕ) (stimulus : StimulusRecord) (written : List ArmGeneration) (arms : List ArmId)
      → Steady (finalize_all gateway clock cycle stimulus written arms)
  unfolding finalize_all
  finalize_all-Steady cycle stimulus written [] = search steady_rules
  finalize_all-Steady cycle stimulus written (arm_id ∷ arms) =
      then-Steady (lift (generation_in arm_id written)) _ (lift-Steady _) λ generation.
        then-Steady _ _ (finalize_arm_result-Steady arm_id cycle stimulus generation) λ result.
          then-Steady _ _ (finalize_all-Steady cycle stimulus written arms) λ results. pure-Steady _

  open-Steady :
      (cycle : ℕ)
      → Steady (
          modify λ (engine : PilotEngine S). record engine {
            budget = open_cycle cycle false engine.budget;
          })
  open-Steady cycle = record { unmoved = λ engine. (refl, refl, refl) }

  stage_cycle-Steady : (cycle : ℕ) → Steady (stage_cycle gateway clock cycle)
  unfolding stage_cycle prepare_cycle validate_staged_cycle
  stage_cycle-Steady cycle =
      search (steady_rules, ensure-Steady, open-Steady, generations-Steady, finalize_all-Steady)
        depth 30 fits 4000

  -- Every arm of the run moves on by one cycle, with the snapshots and the memories of the cycle that the staging
  -- returned; or the staging raises, and no arm has moved.
  pub data Together (cycle : ℕ) (before : PilotEngine S)
      (out : Result (List (ArmCycleSnapshot S)) × PilotEngine S) : Type 0 where
    advanced :
        (staged : StagedCycle S) (mid : PilotEngine S)
        → stage_cycle gateway clock cycle before ≡ (ok staged, mid)
        → out.0 ≡ ok (map (λ result. result.snapshot) staged.results)
        → staged.cycle ≡ before.current_cycle + 1
        → out.1.current_cycle ≡ staged.cycle
        → out.1.states ≡ map (λ result. (result.arm_id, result.state)) staged.results
        → map (λ result. result.arm_id) staged.results ≡ before.configuration.arms
        → all (is_consistent before.configuration.memory_budget_tokens staged) staged.results ≡ true
        → All IsRecorded staged.results
        → Together cycle before out
    halted :
        (e : Error) (mid : PilotEngine S)
        → stage_cycle gateway clock cycle before ≡ (raise e, mid)
        → out.0 ≡ raise e
        → out.1.status ≡ failed
        → Unmoved out.1 before
        → Together cycle before out

  -- The checks of `complete_cycle_in_memory` hold of every cycle that was staged.
  complete_cycle_in_memory-Together :
      (cycle : ℕ) (staged : StagedCycle S) (before engine : PilotEngine S)
      → stage_cycle gateway clock cycle before ≡ (ok staged, engine)
      → Unmoved engine before
      → Together cycle before (complete_cycle_in_memory staged engine)
  unfolding complete_cycle_in_memory validate_staged_cycle
  complete_cycle_in_memory-Together cycle staged before engine returned
        (same_states, same_cycle, same_run) =
      let (following, same, sound) =
        stage_cycle-Sound gateway clock cycle before engine staged returned in
      let next : (staged.cycle == engine.current_cycle + 1) ≡ true =
        rw (same, same_cycle) following in
      rw (next, sound)
        (advanced staged engine returned refl (ground (arith, same, following)) refl refl
          ((list_beq_iff arm_eq _ _).0 (rw (← same_run) (ground (arith, sound))))
          (rw (← same_run) (ground (arith, sound)))
          ((stage_cycle-Recorded gateway clock cycle).returned before staged engine returned))

  -- `run_cycle` once its staging has come to an end.
  concluded :
      (cycle : ℕ) (before : PilotEngine S) (out : Result (StagedCycle S) × PilotEngine S)
      → stage_cycle gateway clock cycle before ≡ out
      → Unmoved out.1 before
      → Together cycle before (then_do complete_cycle_in_memory (failing out))
  concluded cycle before (raise e, engine) returned moved = halted e engine returned refl refl moved
  concluded cycle before (ok staged, engine) returned moved =
      complete_cycle_in_memory-Together cycle staged before engine returned moved

  -- Whatever the models answer, `run_cycle` raises only what `stage_cycle` raises, and then marks the
  -- run failed and leaves every arm's memory, the cycle reached and the configuration as they were;
  -- otherwise it returns the snapshots of the cycle after the one reached: its arms are the configured
  -- ones in their order, every snapshot is of that cycle and its one stimulus, within the budget and
  -- under its own digest, and the snapshots and each arm's memory are those of the cycle that
  -- `stage_cycle` returned, where each snapshot tells the active memories, the cost and the digest of
  -- the memory that its arm goes on with.
  pub run_cycle-Together :
      (cycle : ℕ) (engine : PilotEngine S)
      → Together cycle engine (run_cycle gateway clock cycle engine)
  unfolding run_cycle
  run_cycle-Together cycle engine =
      concluded cycle engine (stage_cycle gateway clock cycle engine) refl
        ((stage_cycle-Steady cycle).unmoved engine)
