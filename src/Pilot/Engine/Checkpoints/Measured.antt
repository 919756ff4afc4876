-- ===== src/Pilot/Engine/Checkpoints/Measured.antt =====
-- packages/pilot/attention_sink/pilot/engine.py: a checkpoint measures the arms, and changes none of them.
use attention_sink.Prelude.{
  length, nat_eq, ◌==◌, Bool-cases, inl, inr, ℕ, ◌≡◌, refl, Option, List, [], ◌∷◌, map, true, arith,
}
use attention_sink.Domain.Enums.{ArmId}
use attention_sink.Domain.Errors.{Error, Result, ok, raise, sequence_error}
use attention_sink.Pilot.Spending.{open_cycle}
use attention_sink.Pilot.Engine.Rebalancing.Spending.{then_do-eq-ok}
use attention_sink.Gateway.Observability.{interviewer}
use attention_sink.Pilot.Engine.State.{PilotEngine, Gateway, state_of, spend_on, record_on}
use attention_sink.Pilot.Engine.Cycle.Steady.{
  Unmoved, Steady, steady_rules, then-Steady, Unmoved-trans, still,
}
use attention_sink.Pilot.Engine.Checkpoints.{
  CheckpointRecord, asked_arms, interview_arm, interview_all, run_checkpoint, is_checkpoint,
  active_memories,
}

module _ {S : Type 0} where
  -- Every arm asked has answered, in turn, or the call raises; and no arm is changed.
  pub data Measured (asked : List ArmId) (before : PilotEngine S)
      (out : Result (List CheckpointRecord) × PilotEngine S) : Type 0 where
    answered :
        (records : List CheckpointRecord)
        → out.0 ≡ ok records
        → map (λ (r : CheckpointRecord). r.arm_id) records ≡ asked
        → Unmoved out.1 before
        → Measured asked before out
    refused : (e : Error) → out.0 ≡ raise e → Unmoved out.1 before → Measured asked before out

module _ {S : Type 0} (gateway : Gateway S) (clock : ℕ → ℕ) where
  interview_arm-Steady :
      (cycle : ℕ) (arm_id : ArmId) → Steady (interview_arm gateway clock cycle arm_id)
  unfolding interview_arm
  interview_arm-Steady cycle arm_id = search steady_rules depth 14 fits 3000

  interview_all-Steady :
      (cycle : ℕ) (arms : List ArmId) → Steady (interview_all gateway clock cycle arms)
  unfolding interview_all
  interview_all-Steady cycle [] = search steady_rules
  interview_all-Steady cycle (arm_id ∷ arms) =
      then-Steady _ _ (interview_arm-Steady cycle arm_id)
        λ answered. then-Steady _ _ (interview_all-Steady cycle arms) λ others. search steady_rules

  -- An interview is of the arm that was asked.
  interview_arm-arm :
      (cycle : ℕ) (arm_id : ArmId) (engine : PilotEngine S) (r : CheckpointRecord)
      → (interview_arm gateway clock cycle arm_id engine).0 ≡ ok r
      → r.arm_id ≡ arm_id
  unfolding interview_arm record_on
  interview_arm-arm cycle arm_id engine r h =
      let (state, held, same) = then_do-eq-ok _ (state_of arm_id engine) h in
      let h1 = rw (same) at h in
      let (done, spent, same1) = then_do-eq-ok _ (spend_on interviewer arm_id _) h1 in
      let h2 = rw (same1) at h1 in
      let engine1 = (spend_on interviewer arm_id (state_of arm_id engine).1).1 in
      let reply =
        gateway.interview (length engine1.budget.ledger) engine1.questions
          (active_memories state) in
      let (result, called, same2) = then_do-eq-ok _ (reply, engine1) h2 in
      let h3 = rw (same2) at h2 in cc h3

  interview_all-arms :
      (cycle : ℕ) (arms : List ArmId) (engine : PilotEngine S) (records : List CheckpointRecord)
      → (interview_all gateway clock cycle arms engine).0 ≡ ok records
      → map (λ (r : CheckpointRecord). r.arm_id) records ≡ arms
  unfolding interview_all
  interview_all-arms cycle [] engine records h = ground arith
  interview_all-arms cycle (arm_id ∷ arms) engine records h =
      let (r, given, same) = then_do-eq-ok _ (interview_arm gateway clock cycle arm_id engine) h in
      let h1 = rw (same) at h in
      let (rs, others, same1) = then_do-eq-ok _ (interview_all gateway clock cycle arms _) h1 in
      let h2 = rw (same1) at h1 in
      let whole : r ∷ rs ≡ records = cc h2 in
      rw (← whole) (
        cc (
          interview_arm-arm cycle arm_id engine r given,
          interview_all-arms cycle arms _ rs others,
        ))

  asked_of :
      (cycle : ℕ) (arms : List ArmId) (before opened : PilotEngine S)
      → Unmoved opened before
      → (out : Result (List CheckpointRecord))
      → (interview_all gateway clock cycle arms opened).0 ≡ out
      → Measured arms before (interview_all gateway clock cycle arms opened)
  asked_of cycle arms before opened moved out h =
      let last = (interview_all gateway clock cycle arms opened).1 in
      let unmoved =
        Unmoved-trans last opened before ((interview_all-Steady cycle arms).unmoved opened) moved in
      elim out
          as (λ out.
            (interview_all gateway clock cycle arms opened).0 ≡ out
            → Measured arms before (interview_all gateway clock cycle arms opened)) [
              | raise e ↦ λ h. refused e h unmoved
              | ok records ↦
                  λ h. answered records h (interview_all-arms cycle arms opened records h) unmoved
            ]
        h

  -- Whatever the models answer, `run_checkpoint` either raises, or has one record for each arm that was
  -- asked, in that order; and in both cases every arm's memory, the cycle reached and the configuration
  -- are as they were.
  pub run_checkpoint-Measured :
      (cycle : ℕ) (arms : Option (List ArmId)) (engine : PilotEngine S)
      → Measured
          (asked_arms engine.configuration.arms arms)
          engine
          (run_checkpoint gateway clock cycle arms engine)
  unfolding run_checkpoint
  run_checkpoint-Measured cycle arms engine =
      elim (Bool-cases (is_checkpoint engine.configuration cycle)) [
        | inr other ↦ rw (other) (refused sequence_error refl (still engine))
        | inl due ↦ elim (Bool-cases (cycle == engine.current_cycle)) [
          | inr early ↦ rw (due, early) (refused sequence_error refl (still engine))
          | inl now ↦
              rw (due, now)
                (asked_of cycle _ engine
                  (record engine { budget = open_cycle cycle true engine.budget })
                  (refl, refl, refl) _ refl)
        ]
      ]
