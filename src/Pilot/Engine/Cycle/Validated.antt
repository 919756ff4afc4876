-- ===== src/Pilot/Engine/Cycle/Validated.antt =====
-- packages/pilot/attention_sink/pilot/engine.py: what `stage_cycle` has checked when it returns.
use mathlib.Core.Path.{subst}
use attention_sink.Prelude.{
  ◌∙◌, nat_eq, ℕ, ◌+◌, ◌≡◌, refl, true, false, not, List, map, all, ◌==◌, ◌&&◌, list_eq, is_empty,
}
use attention_sink.Domain.Enums.{arm_eq}
use attention_sink.Domain.Errors.{
  Result, ok, raise, value_error, sequence_error, require, require-eq-ok, Error,
}
use attention_sink.Domain.Actions.{Action, then_do, pure, ensure}
use attention_sink.Domain.Runtime.{Host, Float}
use attention_sink.Pilot.Spending.{open_cycle}
use attention_sink.Pilot.Snapshots.{StimulusRecord, ArmCycleSnapshot, Dump}
use attention_sink.Domain.State.Sound.{ok-injective}
use attention_sink.Pilot.Engine.State.{PilotEngine, Gateway, prepare_cycle}
use attention_sink.Pilot.Engine.Cycle.{
  StagedCycle, is_consistent, validate_staged_cycle, generations, finalize_all, stage_cycle, Bool,
  ArmResult,
}
use attention_sink.Pilot.Engine.Cycle.Recorded.{staged_of, validated}

module _ {D : Type 0} where
  -- A call that returns has returned from each of its parts.
  then_do-ok :
      {A B : Type 0} (rest : A → Action D B) (out : Result A × D) (b : B) (last : D)
      → then_do rest out ≡ (ok b, last)
      → (a : A) × (mid : D) × (out ≡ (ok a, mid)) × (rest a mid ≡ (ok b, last))
  then_do-ok rest (raise e, d) b last h = cc
  then_do-ok rest (ok a, d) b last h = (a, d, refl, h)

  same-state :
      {A : Type 0} (r : Result A) (a : A) (d next : D)
      → ◌≡◌ {A = Result A × D} (r, d) (ok a, next)
      → (r ≡ ok a) × (d ≡ next)
  same-state r a d next h = (cc, cc)

  ensure-ok :
      (test : D → Bool) (e : Error) (u : Unit {0}) (d next : D)
      → ensure test e d ≡ (ok u, next)
      → (test d ≡ true) × (d ≡ next)
  ensure-ok test e u d next h =
      let (tested, same) = same-state (require (test d) e) u d next h in
      (require-eq-ok (test d) e tested, same)

module _ {S : Type 0} ⦃host : Host⦄ ⦃dump : Dump (ArmCycleSnapshot S)⦄ where
  -- The test of `validate_staged_cycle`.
  abbrev pub is_sound : StagedCycle S → PilotEngine S → Bool
  is_sound staged engine =
      map (λ result. result.arm_id) staged.results == engine.configuration.arms
      && all (is_consistent engine.configuration.memory_budget_tokens staged) staged.results

  prepare_cycle-next :
      (cycle : ℕ) (stimulus : StimulusRecord) (engine after : PilotEngine S)
      → prepare_cycle cycle engine ≡ (ok stimulus, after)
      → (cycle == engine.current_cycle + 1) ≡ true
  unfolding prepare_cycle
  prepare_cycle-next cycle stimulus engine after h =
      let (seeded, e1, h1, more1) =
        then_do-ok _ (ensure (λ engine. not (is_empty engine.states)) sequence_error engine)
          stimulus after h in
      let (t1, s1) =
        ensure-ok (λ (engine : PilotEngine S). not (is_empty engine.states)) sequence_error seeded
          engine e1 h1 in
      let (next, e2, h2, more2) =
        then_do-ok _
          (ensure (λ (engine : PilotEngine S). cycle == engine.current_cycle + 1) sequence_error e1)
          stimulus after more1 in
      let (t2, s2) =
        ensure-ok (λ (engine : PilotEngine S). cycle == engine.current_cycle + 1) sequence_error
          next e1 e2 h2 in
      rw (← s1) at t2

  validated-Sound :
      (cycle : ℕ) (stimulus : StimulusRecord) (results : List (ArmResult S))
      (engine after : PilotEngine S) (staged : StagedCycle S)
      → validated cycle stimulus results engine ≡ (ok staged, after)
      → (staged.cycle ≡ cycle) × (is_sound staged after ≡ true)
  unfolding validate_staged_cycle
  validated-Sound cycle stimulus results engine after staged h =
      let (sound, mid, tested, rest) =
        then_do-ok (λ u. pure (staged_of cycle stimulus results))
          (ensure (is_sound (staged_of cycle stimulus results)) value_error engine) staged after
          h in
      let (t1, s1) =
        ensure-ok (is_sound (staged_of cycle stimulus results)) value_error sound engine mid
          tested in
      let (same, s2) = same-state (ok (staged_of cycle stimulus results)) staged mid after rest in
      subst (λ (r : StagedCycle S). (r.cycle ≡ cycle) × (is_sound r after ≡ true))
        (ok-injective same)
        (refl, subst (λ e. is_sound (staged_of cycle stimulus results) e ≡ true) (s1 ∙ s2) t1)

module _ {S : Type 0} ⦃host : Host⦄ ⦃float : Float S⦄ ⦃dump : Dump (ArmCycleSnapshot S)⦄
    (gateway : Gateway S) (clock : ℕ → ℕ) where
  -- A cycle that is staged is the next one, and has passed `validate_staged_cycle`.
  pub stage_cycle-Sound :
      (cycle : ℕ) (before after : PilotEngine S) (staged : StagedCycle S)
      → stage_cycle gateway clock cycle before ≡ (ok staged, after)
      → ((cycle == before.current_cycle + 1) ≡ true)
        × (staged.cycle ≡ cycle)
        × (is_sound staged after ≡ true)
  unfolding stage_cycle
  stage_cycle-Sound cycle before after staged h =
      let (stimulus, e1, h1, more1) = then_do-ok _ (prepare_cycle cycle before) staged after h in
      let opened = record e1 { budget = open_cycle cycle false e1.budget } in
      let (written, e2, h2, more2) =
        then_do-ok _ (generations gateway clock cycle stimulus opened.configuration.arms opened)
          staged after more1 in
      let (results, e3, h3, more3) =
        then_do-ok (validated cycle stimulus)
          (finalize_all gateway clock cycle stimulus written opened.configuration.arms e2) staged
          after more2 in
      let (same, sound) = validated-Sound cycle stimulus results e3 after staged more3 in
      (prepare_cycle-next cycle stimulus before e1 h1, same, sound)
