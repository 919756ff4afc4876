-- ===== src/Persistence/Store/Arms.antt =====
-- packages/persistence/attention_sink/persistence/sqlite.py: the arms' current states, and the reads of what was
-- committed.
use attention_sink.Prelude.{
  ℕ, String, ◌&&◌, Option, List, [], ◌∷◌, map, leb, ltb, ◌==◌, string_eq, nat_eq, filter, sorted,
  contains, if◌then◌else◌,
}
use attention_sink.Prelude.Text.{text_leb}
use attention_sink.Domain.Enums.{ArmId, arm_value}
use attention_sink.Domain.Errors.{persistence_error}
use attention_sink.Domain.Runtime.{Host}
use attention_sink.Domain.State.{MemoryState, hash_of_state}
use attention_sink.Pilot.Snapshots.{ArmCycleSnapshot}
use attention_sink.Persistence.Sql.{
  Action, modify, asks, ◌>>=◌, ◌>>◌, transaction, on_integrity_error, find_row, insert_row,
}
use attention_sink.Persistence.Database.{Database, SnapshotRow, StateRow}
use attention_sink.Persistence.Store.Runs.{references_run}
use attention_sink.Persistence.Store.Cycles.{is_snapshot_of, is_state_of}

module _ {S : Type 0} ⦃host : Host⦄ where
  unfoldable pub seed_arm_state : String → ArmId → MemoryState S → Action (Database S) (Unit {0})
  unfolding transaction
  seed_arm_state run_id arm_id state db = on_integrity_error persistence_error (
      transaction
        (do
          references_run run_id
          rows ← asks λ d.
              insert_row (is_state_of run_id (arm_value arm_id))
                (record {
                  run_id = run_id;
                  arm_id = arm_value arm_id;
                  cycle = 0;
                  state_hash = hash_of_state state;
                  payload = state;
                })
                d.arm_current_states
          modify λ d. record d { arm_current_states = rows })
        db)

-- `SELECT DISTINCT`
abbrev pub distinct_values : List ℕ → List ℕ
distinct_values [] = []
distinct_values (c ∷ cs) =
    let rest = distinct_values cs in if contains rest c then rest else c ∷ rest

module _ {S : Type 0} where
  abbrev pub get_current_arm_state : String → ArmId → Database S → Option (StateRow S)
  get_current_arm_state run_id arm_id db =
      find_row (is_state_of run_id (arm_value arm_id)) db.arm_current_states

  -- Keyed by the arm, in the order of the arms' names.
  unfoldable pub get_all_current_arm_states : String → Database S → List (String × MemoryState S)
  get_all_current_arm_states run_id db =
      map (λ row. (row.arm_id, row.payload))
        (sorted (λ a b. text_leb a.arm_id b.arm_id)
          (filter (λ row. row.run_id == run_id) db.arm_current_states))

  abbrev pub get_cycle_snapshot : String → String → ℕ → Database S → Option (SnapshotRow S)
  get_cycle_snapshot run_id arm_id cycle db =
      find_row (is_snapshot_of run_id arm_id cycle) db.cycle_snapshots

  unfoldable pub list_cycle_snapshots : String → ℕ → Database S → List (ArmCycleSnapshot S)
  list_cycle_snapshots run_id cycle db =
      map (λ row. row.payload)
        (sorted (λ a b. text_leb a.arm_id b.arm_id)
          (filter (λ row. row.run_id == run_id && row.cycle == cycle) db.cycle_snapshots))

  unfoldable pub list_arm_snapshots : String → ArmId → Database S → List (ArmCycleSnapshot S)
  list_arm_snapshots run_id arm_id db =
      map (λ row. row.payload)
        (sorted (λ a b. leb a.cycle b.cycle)
          (filter (λ row. row.run_id == run_id && row.arm_id == arm_value arm_id)
            db.cycle_snapshots))

  unfoldable pub list_all_snapshots : String → Database S → List (ArmCycleSnapshot S)
  list_all_snapshots run_id db =
      map (λ row. row.payload)
        (sorted
          (λ a b. if a.cycle == b.cycle then text_leb a.arm_id b.arm_id else ltb a.cycle b.cycle)
          (filter (λ row. row.run_id == run_id) db.cycle_snapshots))

  -- The cycles of a run's snapshots, row by row.
  abbrev pub snapshot_cycles : String → List (SnapshotRow S) → List ℕ
  snapshot_cycles run_id rows = map (λ row. row.cycle) (filter (λ row. row.run_id == run_id) rows)

  unfoldable pub list_completed_cycles : String → Database S → List ℕ
  list_completed_cycles run_id db =
      sorted leb (distinct_values (snapshot_cycles run_id db.cycle_snapshots))
