-- ===== src/Persistence/Store/Cycles.antt =====
-- packages/persistence/attention_sink/persistence/sqlite.py: staged cycles, and the commit that makes one part of the
-- run's history.
use attention_sink.Prelude.{
  ℕ, ◌+◌, String, Bool, true, false, ◌&&◌, Option, none, some, List, leb, ◌==◌, string_eq, nat_eq,
  sorted, if◌then◌else◌,
}
use attention_sink.Prelude.Text.{text_leb}
use attention_sink.Domain.Enums.{arm_value}
use attention_sink.Domain.Errors.{ok, raise, prepared_conflict}
use attention_sink.Domain.Runtime.{Host}
use attention_sink.Domain.State.{MemoryState, hash_of_state}
use attention_sink.Pilot.Snapshots.{completed, running, ArmCycleSnapshot, Dump}
use attention_sink.Pilot.Records.{RunRecord, PreparedCycle, seal_prepared, matches}
use attention_sink.Persistence.Sql.{
  Action, pure, modify, lift, asks, ◌>>=◌, ◌>>◌, for_rows, transaction, update_rows, upsert_row,
  insert_row,
}
use attention_sink.Persistence.Database.{Database, PreparedRow, SnapshotRow, StateRow}
use attention_sink.Persistence.Store.Runs.{references_run, is_run, change_run, reload}
use attention_sink.Persistence.Store.Locks.{drop_lock}
use attention_sink.Persistence.Store.Checks.{is_prepared, find_prepared, commit_checks}

module _ {S : Type 0} where
  abbrev pub is_snapshot_of : String → String → ℕ → SnapshotRow S → Bool
  is_snapshot_of run_id arm_id cycle row =
      row.run_id == run_id && row.arm_id == arm_id && row.cycle == cycle

  abbrev pub snapshot_row : String → ℕ → ArmCycleSnapshot S → SnapshotRow S
  snapshot_row run_id cycle s = record {
    run_id = run_id;
    arm_id = arm_value s.arm_id;
    cycle = cycle;
    snapshot_hash = s.snapshot_hash;
    payload = s;
  }

  abbrev pub set_snapshots : List (SnapshotRow S) → Action (Database S) (Unit {0})
  set_snapshots rows = modify λ db. record db { cycle_snapshots = rows }

  -- Step 5, one row.
  unfoldable pub insert_snapshot : String → ℕ → ArmCycleSnapshot S → Action (Database S) (Unit {0})
  insert_snapshot run_id cycle s = do
    references_run run_id
    rows ← asks λ db.
        insert_row (is_snapshot_of run_id (arm_value s.arm_id) cycle) (snapshot_row run_id cycle s)
          db.cycle_snapshots
    set_snapshots rows

  abbrev pub is_state_of : String → String → StateRow S → Bool
  is_state_of run_id arm_id row = row.run_id == run_id && row.arm_id == arm_id

  -- Step 7
  abbrev pub mark_committed : String → ℕ → Database S → Database S
  mark_committed run_id cycle db = record db {
    prepared_cycles =
        update_rows (is_prepared run_id cycle) (λ row. record row { committed = true })
          db.prepared_cycles;
  }

  -- Steps 8, 9 and 11
  abbrev pub advance : ℕ → ℕ → PreparedCycle S → RunRecord S → RunRecord S
  advance now cycle prepared run = record run {
    current_cycle = cycle;
    status = if leb run.configuration.maximum_cycles cycle then completed else running;
    usage = prepared.usage;
    version = run.version + 1;
    updated_at = now;
  }

module _ {S : Type 0} ⦃host : Host⦄ where
  -- Step 6, one row.
  unfoldable pub put_state : String → ℕ → String × MemoryState S → Action (Database S) (Unit {0})
  put_state run_id cycle (arm_id, state) = do
    references_run run_id
    modify λ db. record db {
      arm_current_states =
          upsert_row (is_state_of run_id arm_id)
            (λ row. record row { cycle = cycle; state_hash = hash_of_state state; payload = state })
            (record {
              run_id = run_id;
              arm_id = arm_id;
              cycle = cycle;
              state_hash = hash_of_state state;
              payload = state;
            })
            db.arm_current_states;
    }

  -- Steps 5 to 11, on the cycle that the checks found.
  unfoldable pub commit_writes :
      ℕ → String → ℕ → String → ℕ → PreparedCycle S → Action (Database S) (Unit {0})
  unfolding for_rows insert_snapshot put_state
  commit_writes now run_id cycle token version prepared = do
    for_rows (insert_snapshot run_id cycle) prepared.snapshots
    for_rows (put_state run_id cycle) (sorted (λ (a, s) (b, t). text_leb a b) prepared.arm_states)
    modify (mark_committed run_id cycle)
    change_run (λ run. is_run run_id run && run.version == version) (advance now cycle prepared)
    modify (drop_lock run_id token)

  unfoldable pub commit_cycle :
      ℕ → String → ℕ → String → String → ℕ → Action (Database S) (RunRecord S)
  unfolding transaction commit_checks commit_writes
  commit_cycle now run_id cycle token content_hash version = do
    transaction (do
      found ← asks (commit_checks run_id cycle token content_hash version)
      commit_writes now run_id cycle token version found.1.payload)
    reload run_id

module _ {S : Type 0} ⦃host : Host⦄ ⦃dump : Dump (PreparedCycle S)⦄ where
  abbrev pub prepared_row : PreparedCycle S → PreparedRow S
  prepared_row sealed = record {
    run_id = sealed.run_id;
    cycle = sealed.cycle;
    content_hash = sealed.content_hash;
    invocation_id = sealed.invocation_id;
    committed = false;
    payload = sealed;
  }

  -- What is stored, given what stands there already.
  abbrev pub store_found :
      PreparedCycle S → Option (PreparedRow S) → Action (Database S) (PreparedCycle S)
  store_found sealed (some existing) =
      lift
        (if matches existing.payload sealed then ok existing.payload else raise prepared_conflict)
  store_found sealed none = transaction (do
    references_run sealed.run_id
    rows ← asks λ db.
        insert_row (is_prepared sealed.run_id sealed.cycle) (prepared_row sealed) db.prepared_cycles
    modify λ db. record db { prepared_cycles = rows }
    pure sealed)

  -- `prepared if prepared.content_hash else prepared.sealed()`
  unfoldable pub sealed_of : PreparedCycle S → PreparedCycle S
  unfolding seal_prepared
  sealed_of prepared = if prepared.content_hash == "" then seal_prepared prepared else prepared

  unfoldable pub store_prepared_cycle : PreparedCycle S → Action (Database S) (PreparedCycle S)
  unfolding sealed_of matches transaction
  store_prepared_cycle prepared db =
      let sealed = sealed_of prepared in
      store_found sealed (find_prepared sealed.run_id sealed.cycle db) db
