-- ===== src/Pilot/RunSnapshots.antt =====
-- packages/pilot/attention_sink/pilot/snapshots.py: the record of a whole run, and what its constructor checks.
use attention_sink.Prelude.{ℕ, String, Bool, ◌&&◌, map, leb, ◌==◌, ◌!=◌, string_eq, same_set}
use attention_sink.Prelude.Dict.{Dict, keys}
use attention_sink.Domain.Enums.{arm_value}
use attention_sink.Domain.Errors.{Result, value_error, ◌>>◌, require}
use attention_sink.Domain.Runtime.{Host}
use attention_sink.Domain.State.{MemoryState}
use attention_sink.Pilot.Spending.{ModelUsage}
use attention_sink.Pilot.Configuration.{PilotRunConfiguration}
use attention_sink.Pilot.Snapshots.{RunStatus, Dump, canonical_digest}

pub record RunSnapshot (S : Type 0) : Type 0 where
  pub configuration : PilotRunConfiguration S
  pub status : RunStatus
  pub current_cycle : ℕ
  pub arm_states : Dict (MemoryState S)
  pub usage : ModelUsage
  pub updated_at : ℕ
  pub snapshot_hash : String

-- `_check_arms`
unfoldable pub arms_check : {S : Type 0} → RunSnapshot S → Result (Unit {0})
arms_check s = do
  require (same_set (map arm_value s.configuration.arms) (keys s.arm_states)) value_error
  require (leb s.current_cycle s.configuration.maximum_cycles) value_error

module _ {S : Type 0} ⦃host : Host⦄ ⦃dump : Dump (RunSnapshot S)⦄ where
  -- `canonical_digest(self.unhashed_payload)`
  unfoldable pub run_digest : RunSnapshot S → String
  unfolding canonical_digest
  run_digest s = canonical_digest (record s { snapshot_hash = "" })

  unfoldable pub seal_run : RunSnapshot S → RunSnapshot S
  unfolding run_digest
  seal_run s = record s { snapshot_hash = run_digest s }

  unfoldable pub verify_run_hash : RunSnapshot S → Bool
  unfolding run_digest
  verify_run_hash s = s.snapshot_hash != "" && s.snapshot_hash == run_digest s
