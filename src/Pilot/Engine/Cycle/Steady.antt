-- ===== src/Pilot/Engine/Cycle/Steady.antt =====
-- packages/pilot/attention_sink/pilot/engine.py: what the calls of a cycle leave as it is.
use attention_sink.Prelude.{ℕ, zero, suc, ◌≡◌, refl, ◌∙◌, suc, Option-cases, inl, inr, Bool}
use attention_sink.Domain.Enums.{ArmId}
use attention_sink.Domain.Errors.{Result, ok, raise, Error}
use attention_sink.Domain.Actions.{Action, lift, asks, then_do, ◌>>=◌, gets, pure, ensure}
use attention_sink.Domain.Runtime.{Host, Float}
use attention_sink.Domain.Cycle.{CycleContext}
use attention_sink.Domain.Decision.{CompressionPlan, PolicyDecision}
use attention_sink.Domain.State.{MemoryState}
use attention_sink.Policies.Registry.{MemoryPolicy}
use attention_sink.Gateway.Observability.{ModelRole, CallMetadata}
use attention_sink.Pilot.Spending.{ModelCallBudget}
use attention_sink.Pilot.Engine.State.{PilotEngine, Gateway, charged, spend_on, record_on, state_of}
use attention_sink.Pilot.Engine.Rebalancing.{
  RebalanceOutcome, write_summary, compression_round, compression_rounds, rebalance_arm_memory,
}

module _ {S : Type 0} where
  -- The memory of every arm, the cycle reached, and the definition of the run.
  abbrev pub Unmoved : PilotEngine S → PilotEngine S → Type 0
  Unmoved after before =
      (after.states ≡ before.states)
      × (after.current_cycle ≡ before.current_cycle)
      × (after.configuration ≡ before.configuration)

  pub still : (engine : PilotEngine S) → Unmoved engine engine
  still engine = (refl, refl, refl)

  -- A call that leaves them as they are, whether it returns or raises.
  pub record Steady {A : Type 0} (action : Action (PilotEngine S) A) : Type 0 where
    pub unmoved : (engine : PilotEngine S) → Unmoved (action engine).1 engine

  pub Unmoved-trans :
      (last next engine : PilotEngine S)
      → Unmoved last next
      → Unmoved next engine
      → Unmoved last engine
  Unmoved-trans last next engine (t, d, q) (s, c, r) = (t ∙ s, d ∙ c, q ∙ r)

  then_do-Unmoved :
      {A B : Type 0} (rest : A → Action (PilotEngine S) B) (out : Result A × PilotEngine S)
      (engine : PilotEngine S)
      → Unmoved out.1 engine
      → ((a : A) → Steady (rest a))
      → Unmoved (then_do rest out).1 engine
  then_do-Unmoved rest (raise e, next) engine moved more = moved
  then_do-Unmoved rest (ok a, next) engine moved more =
      Unmoved-trans (rest a next).1 next engine ((more a).unmoved next) moved

  pub then-Steady :
      {A B : Type 0} (first : Action (PilotEngine S) A) (rest : A → Action (PilotEngine S) B)
      → Steady first
      → ((a : A) → Steady (rest a))
      → Steady (first >>= rest)
  then-Steady first rest one more = record {
    unmoved = λ engine. then_do-Unmoved rest (first engine) engine (one.unmoved engine) more;
  }

  pub lift-Steady : {A : Type 0} (r : Result A) → Steady (lift r)
  lift-Steady r = record { unmoved = still }

  pub asks-Steady : {A : Type 0} (f : PilotEngine S → Result A) → Steady (asks f)
  asks-Steady f = record { unmoved = still }

  pub ensure-Steady : (test : PilotEngine S → Bool) (e : Error) → Steady (ensure test e)
  ensure-Steady test e = record { unmoved = still }

  pub gets-Steady : {A : Type 0} (f : PilotEngine S → A) → Steady (gets f)
  gets-Steady f = record { unmoved = still }

  pub pure-Steady : {A : Type 0} (a : A) → Steady (pure a)
  pure-Steady a = record { unmoved = still }

  pub state_of-Steady : (arm_id : ArmId) → Steady (state_of arm_id)
  unfolding state_of
  state_of-Steady arm_id = record { unmoved = still }

  pub record_on-Steady : (metadata : CallMetadata) → Steady (record_on metadata)
  unfolding record_on
  record_on-Steady metadata = record { unmoved = λ engine. (refl, refl, refl) }

  charged-Unmoved :
      (engine : PilotEngine S) (out : Result ModelCallBudget)
      → Unmoved (charged engine out).1 engine
  charged-Unmoved engine (raise e) = still engine
  charged-Unmoved engine (ok budget) = (refl, refl, refl)

  pub spend_on-Steady : (role : ModelRole) (arm_id : ArmId) → Steady (spend_on role arm_id)
  unfolding spend_on
  spend_on-Steady role arm_id = record { unmoved = λ engine. charged-Unmoved engine _ }

pub ruleset steady_rules = (
  then-Steady, lift-Steady, asks-Steady, gets-Steady, pure-Steady, state_of-Steady,
  record_on-Steady, spend_on-Steady,
)

module _ {S : Type 0} ⦃host : Host⦄ ⦃float : Float S⦄ (gateway : Gateway S) where
  write_summary-Steady :
      (state : MemoryState S) (plan : CompressionPlan) (cycle : ℕ) (arm_id : ArmId)
      → Steady (write_summary gateway state plan cycle arm_id)
  unfolding write_summary
  write_summary-Steady state plan cycle arm_id = search steady_rules depth 12

  compression_round-Steady :
      (policy : MemoryPolicy) (arm_id : ArmId) (context : CycleContext)
      (so_far : RebalanceOutcome S) (decision : PolicyDecision S) (plan : CompressionPlan)
      → Steady (compression_round gateway policy arm_id context so_far decision plan)
  unfolding compression_round
  compression_round-Steady policy arm_id context so_far decision plan =
      search (steady_rules, write_summary-Steady)

  compression_rounds-Steady :
      (fuel : ℕ) (policy : MemoryPolicy) (arm_id : ArmId) (context : CycleContext)
      (so_far : RebalanceOutcome S) (decision : PolicyDecision S)
      → Steady (compression_rounds gateway fuel policy arm_id context so_far decision)
  unfolding compression_rounds
  compression_rounds-Steady zero policy arm_id context so_far decision = pure-Steady _
  compression_rounds-Steady (suc fuel) policy arm_id context so_far decision =
      elim (Option-cases decision.compression_plan) [
        | inl done ↦ rw (done, compression_rounds) (search steady_rules)
        | inr (plan, asked) ↦
            rw (asked, compression_rounds)
              (then-Steady _ _ (compression_round-Steady policy arm_id context so_far decision plan)
                (λ (outcome, next).
                  compression_rounds-Steady fuel policy arm_id context outcome next))
      ]

  pub rebalance_arm_memory-Steady :
      (arm_id : ArmId) (state : MemoryState S) (context : CycleContext)
      → Steady (rebalance_arm_memory gateway arm_id state context)
  unfolding rebalance_arm_memory
  rebalance_arm_memory-Steady arm_id state context =
      search (steady_rules, compression_rounds-Steady)
