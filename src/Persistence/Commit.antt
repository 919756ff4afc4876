-- ===== src/Persistence/Commit.antt =====
-- packages/persistence/attention_sink/persistence/sqlite.py: the writes of a commit taken together, as one database.
pub mod Checked
pub mod Outcome
pub mod Atomic
pub mod Recorded
pub mod Locking
pub mod Done
pub mod Advanced
use attention_sink.Prelude.{
  ℕ, String, ◌≡◌, refl, Bool, true, not, ◌&&◌, List, [], ◌∷◌, ◌++◌, map, any, ◌==◌, nat_eq, sorted,
}
use attention_sink.Prelude.Text.{text_leb}
use attention_sink.Domain.Enums.{arm_value}
use attention_sink.Domain.Runtime.{Host}
use attention_sink.Domain.State.{MemoryState, hash_of_state}
use attention_sink.Pilot.Snapshots.{ArmCycleSnapshot}
use attention_sink.Pilot.Records.{PreparedCycle}
use attention_sink.Persistence.Sql.{update_rows, upsert_row}
use attention_sink.Persistence.Database.{Database, SnapshotRow, StateRow}
use attention_sink.Persistence.Store.Runs.{is_run}
use attention_sink.Persistence.Store.Locks.{drop_lock}
use attention_sink.Persistence.Store.Checks.{is_prepared}
use attention_sink.Persistence.Store.Cycles.{
  snapshot_row, is_snapshot_of, is_state_of, mark_committed, advance,
}

module _ {S : Type 0} where
  -- The snapshots' rows behind those that are there.
  abbrev pub with_snapshots : String → ℕ → List (ArmCycleSnapshot S) → Database S → Database S
  with_snapshots run_id cycle ss db = record db {
    cycle_snapshots = db.cycle_snapshots ++ map (snapshot_row run_id cycle) ss;
  }

  -- No snapshot's arm has a row at this cycle, nor do two of them share one.
  abbrev pub fits : String → ℕ → List (ArmCycleSnapshot S) → List (SnapshotRow S) → Bool
  fits run_id cycle [] rows = true
  fits run_id cycle (s ∷ ss) rows =
      not (any (is_snapshot_of run_id (arm_value s.arm_id) cycle) rows)
      && fits run_id cycle ss (rows ++ snapshot_row run_id cycle s ∷ [])

module _ {S : Type 0} ⦃host : Host⦄ where
  abbrev pub state_row : String → ℕ → String × MemoryState S → StateRow S
  state_row run_id cycle (arm_id, state) = record {
    run_id = run_id;
    arm_id = arm_id;
    cycle = cycle;
    state_hash = hash_of_state state;
    payload = state;
  }

  abbrev pub put_row : String → ℕ → String × MemoryState S → List (StateRow S) → List (StateRow S)
  put_row run_id cycle (arm_id, state) =
      upsert_row (is_state_of run_id arm_id)
        (λ row. record row { cycle = cycle; state_hash = hash_of_state state; payload = state })
        (state_row run_id cycle (arm_id, state))

  abbrev pub put_rows :
      String → ℕ → List (String × MemoryState S) → List (StateRow S) → List (StateRow S)
  put_rows run_id cycle [] rows = rows
  put_rows run_id cycle (s ∷ ss) rows = put_rows run_id cycle ss (put_row run_id cycle s rows)

  abbrev pub with_states : String → ℕ → List (String × MemoryState S) → Database S → Database S
  with_states run_id cycle ss db = record db {
    arm_current_states = put_rows run_id cycle ss db.arm_current_states;
  }

  -- Steps 7 to 11.
  abbrev pub finished : ℕ → String → ℕ → String → ℕ → PreparedCycle S → Database S → Database S
  finished now run_id cycle token version prepared db =
      drop_lock run_id token (record (mark_committed run_id cycle db) {
        runs =
            update_rows (λ run. is_run run_id run && run.version == version)
              (advance now cycle prepared) db.runs;
      })

  abbrev pub committed_database :
      ℕ → String → ℕ → String → ℕ → PreparedCycle S → Database S → Database S
  committed_database now run_id cycle token version prepared db =
      finished now run_id cycle token version prepared (
        with_states run_id cycle (sorted (λ (a, s) (b, t). text_leb a b) prepared.arm_states)
          (with_snapshots run_id cycle prepared.snapshots db))
