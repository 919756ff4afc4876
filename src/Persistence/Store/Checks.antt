-- ===== src/Persistence/Store/Checks.antt =====
-- packages/persistence/attention_sink/persistence/sqlite.py: what a commit must find before it writes.
use attention_sink.Prelude.{
  ℕ, ◌+◌, String, Bool, false, ◌&&◌, Option, none, some, ◌==◌, string_eq, nat_eq,
}
use attention_sink.Domain.Errors.{
  Result, ok, persistence_error, concurrent_run_update, lock_not_held, prepared_conflict, require,
  ◌>>=◌, ◌>>◌,
}
use attention_sink.Pilot.Records.{RunRecord, CycleLock}
use attention_sink.Persistence.Sql.{find_row}
use attention_sink.Persistence.Database.{Database, PreparedRow}
use attention_sink.Persistence.Store.Runs.{or_raise, find_run}
use attention_sink.Persistence.Store.Locks.{get_cycle_lock}

-- The lock must still be the caller's.
abbrev pub is_held_by : String → Option CycleLock → Bool
is_held_by token none = false
is_held_by token (some lock) = lock.token == token

module _ {S : Type 0} where
  abbrev pub is_prepared : String → ℕ → PreparedRow S → Bool
  is_prepared run_id cycle row = row.run_id == run_id && row.cycle == cycle

  abbrev pub find_prepared : String → ℕ → Database S → Option (PreparedRow S)
  find_prepared run_id cycle db = find_row (is_prepared run_id cycle) db.prepared_cycles

  -- Steps 1 to 4.
  unfoldable pub commit_checks :
      String → ℕ → String → String → ℕ → Database S → Result (RunRecord S × PreparedRow S)
  commit_checks run_id cycle token content_hash version db = do
    run ← or_raise persistence_error (find_run run_id db)
    require (run.version == version) concurrent_run_update
    require (run.current_cycle + 1 == cycle) concurrent_run_update
    require (is_held_by token (get_cycle_lock run_id db)) lock_not_held
    row ← or_raise persistence_error (find_prepared run_id cycle db)
    require (row.content_hash == content_hash) prepared_conflict
    ok (run, row)
