-- ===== src/Pilot/Engine/Starting.antt =====
-- packages/pilot/attention_sink/pilot/engine.py: the snapshot of a run, and its start at cycle 0.
use attention_sink.Prelude.{ℕ, map, length}
use attention_sink.Domain.Enums.{arm_value}
use attention_sink.Domain.Actions.{Action, pure, gets, modify, lift, asks, ◌>>=◌, ◌>>◌}
use attention_sink.Domain.Runtime.{Host, Float}
use attention_sink.Pilot.Spending.{usage_of}
use attention_sink.Pilot.Snapshots.{initialized, Dump}
use attention_sink.Pilot.RunSnapshots.{RunSnapshot, arms_check, seal_run}
use attention_sink.Pilot.Engine.State.{PilotEngine}
use attention_sink.Pilot.Engine.Seeds.{seeded_states}

module _ {S : Type 0} ⦃host : Host⦄ ⦃dump : Dump (RunSnapshot S)⦄ (clock : ℕ → ℕ) where
  -- `RunSnapshot(...)`, before its check and its seal
  abbrev unsealed : PilotEngine S → RunSnapshot S
  unsealed engine = record {
    configuration = engine.configuration;
    status = engine.status;
    current_cycle = engine.current_cycle;
    arm_states = map (λ (arm_id, state). (arm_value arm_id, state)) engine.states;
    usage = usage_of engine.budget;
    updated_at = clock (length engine.budget.ledger);
    snapshot_hash = "";
  }

  unfoldable pub run_snapshot : Action (PilotEngine S) (RunSnapshot S)
  run_snapshot = do snapshot ← gets unsealed; lift (arms_check snapshot); pure (seal_run snapshot)

  unfoldable pub initialize_pilot_run : ⦃float : Float S⦄ → Action (PilotEngine S) (RunSnapshot S)
  unfolding run_snapshot
  initialize_pilot_run = do
    states ← asks seeded_states
    modify λ engine. record engine { states = states; current_cycle = 0; status = initialized }
    run_snapshot
