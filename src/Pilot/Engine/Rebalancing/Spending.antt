-- ===== src/Pilot/Engine/Rebalancing/Spending.antt =====
-- packages/pilot/attention_sink/pilot/engine.py: what a rebalance spends, and why its loop ends.
use attention_sink.Prelude.{
  ℕ, zero, suc, ◌+◌, ◌<◌, ◌≡◌, refl, none, some, arith, Option-cases, inl, inr,
}
use attention_sink.Domain.Enums.{ArmId, arm_value}
use attention_sink.Domain.Errors.{Result, ok, raise}
use attention_sink.Domain.Actions.{Action, lift, asks, then_do, ◌>>=◌}
use attention_sink.Domain.Runtime.{Host, Float}
use attention_sink.Domain.Cycle.{CycleContext}
use attention_sink.Domain.Decision.{CompressionPlan, PolicyDecision}
use attention_sink.Domain.State.{MemoryState, apply}
use attention_sink.Policies.Summarization.{finalize_compression}
use attention_sink.Pilot.Configuration.{budget_of, policies_of}
use attention_sink.Policies.Registry.{MemoryPolicy, policies_for, rebalance}
use attention_sink.Gateway.Observability.{CallMetadata, summarizer}
use attention_sink.Pilot.Spending.{ModelCallBudget, remaining, record_call}
use attention_sink.Pilot.Spending.Granted.{Claimed, spend-Claimed, granted, no_slot, no_call}
use attention_sink.Pilot.Engine.State.{PilotEngine, Gateway, charged, spend_on, record_on}
use attention_sink.Pilot.Engine.Rebalancing.{
  RebalanceOutcome, write_summary, compression_round, compression_rounds, rebalance_arm_memory,
  compressing, add_round,
}

module _ {S : Type 0} where
  -- The summary calls that the engine has left.
  abbrev pub slots : PilotEngine S → ℕ
  slots engine = remaining engine.budget summarizer

  -- When a call returns, it has spent so many summary calls.
  abbrev pub Spends : {A : Type 0} → ℕ → Action (PilotEngine S) A → Type 0
  Spends {A} n action =
      (engine : PilotEngine S) (a : A)
      → (action engine).0 ≡ ok a
      → slots (action engine).1 + n ≡ slots engine

  pub then_do-eq-ok :
      {A B : Type 0} {b : B} (rest : A → Action (PilotEngine S) B) (out : Result A × PilotEngine S)
      → (then_do rest out).0 ≡ ok b
      → (a : A) × (out.0 ≡ ok a) × (then_do rest out ≡ rest a out.1)
  then_do-eq-ok rest (raise e, engine) h = cc
  then_do-eq-ok rest (ok a, engine) h = (a, refl, refl)

  then-Spends :
      {A B : Type 0} (m n : ℕ) (first : Action (PilotEngine S) A)
      (rest : A → Action (PilotEngine S) B)
      → Spends m first
      → ((a : A) → Spends n (rest a))
      → Spends (m + n) (first >>= rest)
  then-Spends m n first rest one more engine b h =
      let (a, returned, same) = then_do-eq-ok rest (first engine) h in
      let spent = one engine a returned in
      let left = more a (first engine).1 b (cc (h, same)) in rw (same) (omega (arith, spent, left))

  lift-Spends : {A : Type 0} (r : Result A) → Spends 0 (lift r)
  lift-Spends r engine a h = omega arith

  asks-Spends : {A : Type 0} (f : PilotEngine S → Result A) → Spends 0 (asks f)
  asks-Spends f engine a h = omega arith

  record_on-Spends : (metadata : CallMetadata) → Spends 0 (record_on metadata)
  unfolding record_on record_call remaining
  record_on-Spends metadata engine a h = omega arith

  charged-slots :
      (engine : PilotEngine S) (out : Result ModelCallBudget) (done : Unit {0})
      → Claimed summarizer engine.budget out
      → (charged engine out).0 ≡ ok done
      → slots (charged engine out).1 + 1 ≡ slots engine
  charged-slots engine (raise e) done claimed h = cc
  charged-slots engine (ok budget) done claimed h = elim claimed [
    | granted room below c same left total ↦
        let changed : budget ≡ c = cc same in rw (changed) (left summarizer)
    | no_slot none_left same ↦ cc
    | no_call room full same ↦ cc
  ]

  spend_on-Spends : (arm_id : ArmId) → Spends 1 (spend_on summarizer arm_id)
  unfolding spend_on
  spend_on-Spends arm_id engine done =
      charged-slots engine _ done (spend-Claimed summarizer (some (arm_value arm_id)) engine.budget)

module _ {S : Type 0} ⦃host : Host⦄ ⦃float : Float S⦄ (gateway : Gateway S) where
  write_summary-Spends :
      (state : MemoryState S) (plan : CompressionPlan) (cycle : ℕ) (arm_id : ArmId)
      → Spends 1 (write_summary gateway state plan cycle arm_id)
  unfolding write_summary
  write_summary-Spends state plan cycle arm_id = then-Spends 0 1 _ _ (lift-Spends _) λ sources.
      then-Spends 1 0 _ _ (spend_on-Spends arm_id) λ done.
        then-Spends 0 0 _ _ (asks-Spends _) λ result.
          then-Spends 0 0 _ _ (record_on-Spends _) λ done.
            then-Spends 0 0 _ _ (lift-Spends _)
              λ written. lift-Spends (ok (written, result.metadata))

  compression_round-Spends :
      (policy : MemoryPolicy) (arm_id : ArmId) (context : CycleContext)
      (so_far : RebalanceOutcome S) (decision : PolicyDecision S) (plan : CompressionPlan)
      → Spends 1 (compression_round gateway policy arm_id context so_far decision plan)
  unfolding compression_round
  compression_round-Spends policy arm_id context so_far decision plan =
      then-Spends 0 1 (lift (compressing policy)) _ (lift-Spends _) λ config.
        then-Spends 0 1 (lift (apply so_far.state decision)) _ (lift-Spends _) λ state.
          then-Spends 1 0 (write_summary gateway state plan context.cycle arm_id) _
            (write_summary-Spends state plan context.cycle arm_id)
            λ (created, call).
              let added = add_round so_far state plan created call in
              then-Spends 0 0
                (asks λ engine.
                  finalize_compression config state (budget_of engine.configuration) context plan
                    created)
                (λ next. lift (ok (added next, next))) (asks-Spends _)
                λ next. lift-Spends (ok (added next, next))

  -- With more tests than summary calls, the loop reaches its end or raises.
  pub compression_rounds-ends :
      (fuel : ℕ) (policy : MemoryPolicy) (arm_id : ArmId) (context : CycleContext)
      (so_far : RebalanceOutcome S) (decision : PolicyDecision S) (engine : PilotEngine S)
      → slots engine < fuel
      → ¬ (
          (compression_rounds gateway fuel policy arm_id context so_far decision engine).0
          ≡ ok none)
  unfolding compression_rounds
  compression_rounds-ends zero policy arm_id context so_far decision engine room h =
      omega (arith, room)
  compression_rounds-ends (suc fuel) policy arm_id context so_far decision engine room h =
      elim (Option-cases decision.compression_plan) [
        | inl done ↦
            let (state, applied, same) =
              then_do-eq-ok _ (lift (apply so_far.state decision) engine)
                (rw (done, compression_rounds) at h) in
            let bad = (rw (same) at (rw (done, compression_rounds) at h)) in cc bad
        | inr (plan, asked) ↦
            let round = compression_round gateway policy arm_id context so_far decision plan in
            let ((outcome, next), returned, same) =
              then_do-eq-ok _ (round engine) (rw (asked, compression_rounds) at h) in
            compression_rounds-ends fuel policy arm_id context outcome next (round engine).1
              (omega (
                arith,
                room,
                compression_round-Spends policy arm_id context so_far decision plan engine
                    (outcome, next) returned,
              ))
              (rw (same) at (rw (asked, compression_rounds) at h))
      ]

  -- However often a mechanism asks for a summary, and whatever the models answer, the loop of
  -- `rebalance_arm_memory` comes to its end or raises: one test of its condition more than there are
  -- summary calls left is enough.
  pub rebalance_arm_memory-ends :
      (arm_id : ArmId) (state : MemoryState S) (context : CycleContext) (engine : PilotEngine S)
      → ¬ ((rebalance_arm_memory gateway arm_id state context engine).0 ≡ ok none)
  unfolding rebalance_arm_memory
  rebalance_arm_memory-ends arm_id state context engine h =
      let policy = policies_for (policies_of engine.configuration) arm_id in
      let (decision, decided, same) =
        then_do-eq-ok _
          (lift (rebalance policy state (budget_of engine.configuration) context) engine) h in
      compression_rounds-ends _ policy arm_id context _ decision engine (omega arith)
        (rw (same) at h)
