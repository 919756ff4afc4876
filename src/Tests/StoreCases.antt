-- ===== src/Tests/StoreCases.antt =====
-- The theorems on the store at a run of one arm, whose first cycle is staged and committed.
use attention_sink.Prelude.{
  string_eq, ℕ, ◌≡◌, ◌≢◌, refl, String, some, [], ◌∷◌, map, distinct, true, range_from,
}
use attention_sink.Domain.Errors.{ok, raise, Error, integrity_error, concurrent_run_update}
use attention_sink.Domain.State.{MemoryState}
use attention_sink.Pilot.Records.{CycleLock, lock_check, RunRecord, prepared_check}
use attention_sink.Pilot.Snapshots.{running}
use attention_sink.Persistence.Database.{Database, PreparedRow, empty_database}
use attention_sink.Persistence.Sql.{transaction, for_rows}
use attention_sink.Persistence.Store.Runs.{create_run}
use attention_sink.Persistence.Store.Locks.{acquire_cycle_lock, put_lock}
use attention_sink.Persistence.Store.Checks.{find_prepared, commit_checks}
use attention_sink.Persistence.Store.Cycles.{
  snapshot_row, commit_cycle, commit_writes, insert_snapshot, put_state, store_prepared_cycle,
  sealed_of,
}
use attention_sink.Persistence.Store.Arms.{list_completed_cycles}
use attention_sink.Persistence.Commit.Checked.{Checked, commit_checks-Checked}
use attention_sink.Persistence.Commit.Advanced.{Advanced, commit_cycle-Advanced}
use attention_sink.Persistence.Commit.Atomic.{commit_cycle-atomic}
use attention_sink.Persistence.Commit.Locking.{commit-once, takeover-refused}
use attention_sink.Persistence.History.{Moves, reached}
use attention_sink.Persistence.History.Steps.{
  Reach, created, acquired, staged, commit, here, next, Step-Moves,
}
use attention_sink.Persistence.History.Completed.{list_completed_cycles-range}
use attention_sink.Persistence.History.Returning.{commit_cycle-returns}
use attention_sink.Tests.Fixtures.{host}
use attention_sink.Tests.PilotFixtures.{
  snapshot_text, prepared_text, interview_text, run, row, prepared, snapshot, lock, ready,
}

abbrev committed_store : Database ℕ
committed_store = (commit_cycle 5 "run-1" 1 "t" "c" 0 ready).1

abbrev advanced_run : RunRecord ℕ
advanced_run = record run { current_cycle = 1; version = 1; updated_at = 5; status = running }

committed_ready : commit_cycle 5 "run-1" 1 "t" "c" 0 ready ≡ (ok advanced_run, committed_store)
unfolding commit_cycle commit_checks commit_writes insert_snapshot put_state transaction for_rows
committed_ready = refl

distinct_arms :
    (r : PreparedRow ℕ)
    → find_prepared "run-1" 1 ready ≡ some r
    → distinct (map (λ (s : String × MemoryState ℕ). s.0) r.payload.arm_states) ≡ true
distinct_arms r h = let same : row ≡ r = cc h in rw (← same) refl

commit_cycle-Advanced_example :
    (before : RunRecord ℕ) × (r : PreparedRow ℕ) × Checked "run-1" 1 "t" "c" 0 ready before r
    × Advanced "run-1" "t" ready committed_store before r.payload advanced_run
commit_cycle-Advanced_example =
    commit_cycle-Advanced 5 "run-1" 1 "t" "c" 0 ready advanced_run committed_store distinct_arms
      committed_ready

-- A snapshot that is there already, whose insert fails after the checks have passed.
abbrev clashing : Database ℕ
clashing = record ready { cycle_snapshots = snapshot_row "run-1" 1 snapshot ∷ [] }

abbrev clashed_store : Database ℕ
clashed_store = (commit_cycle 5 "run-1" 1 "t" "c" 0 clashing).1

clashing_raises :
    commit_cycle 5 "run-1" 1 "t" "c" 0 clashing ≡ (raise integrity_error, clashed_store)
unfolding commit_cycle commit_checks commit_writes insert_snapshot put_state transaction for_rows
clashing_raises = refl

commit_cycle-atomic_example : clashed_store ≡ clashing
commit_cycle-atomic_example =
    commit_cycle-atomic 5 "run-1" 1 "t" "c" 0 clashing integrity_error clashed_store clashing_raises

commit-once_example :
    commit_cycle 6 "run-1" 2 "t2" "c2" 0 committed_store
    ≡ (raise concurrent_run_update, committed_store)
commit-once_example =
    commit-once 5 6 "run-1" 1 "t" "c" 0 2 "t2" "c2" ready committed_store advanced_run
      committed_ready

-- The lease of 300 seconds has run out when another invocation asks.
abbrev taken_over : Database ℕ
taken_over = (acquire_cycle_lock 300000000 "run-1" 1 "t2" "i2" 300 ready).1

abbrev second_lock : CycleLock
second_lock = record lock {
  token = "t2";
  invocation_id = "i2";
  acquired_at = 300000000;
  expires_at = 600000000;
}

takes_over :
    acquire_cycle_lock 300000000 "run-1" 1 "t2" "i2" 300 ready ≡ (ok second_lock, taken_over)
unfolding acquire_cycle_lock transaction lock_check put_lock
takes_over = refl

other_token : ◌≢◌ {A = String} "t2" "t"
other_token h = cc h

takeover-refused_example :
    (e : Error) × (commit_cycle 300000005 "run-1" 1 "t" "c" 0 taken_over ≡ (raise e, taken_over))
takeover-refused_example =
    takeover-refused 300000000 "run-1" 1 "t2" "i2" 300 ready taken_over second_lock "t" 300000005 1
      "c" 0 takes_over other_token

Step-Moves_example : Moves "run-1" ready committed_store
Step-Moves_example = Step-Moves "run-1" ((snapshot, [], refl), tt) (commit 5 "run-1" 1 "t" "c" 0)

abbrev pub with_run : Database ℕ
with_run = (create_run run empty_database).1

abbrev pub with_lock : Database ℕ
with_lock = (acquire_cycle_lock 0 "run-1" 1 "t" "i" 300 with_run).1

abbrev pub with_cycle : Database ℕ
with_cycle = (store_prepared_cycle prepared with_lock).1

prepared-checks : prepared_check prepared ≡ ok tt
unfolding prepared_check
prepared-checks = refl

pub to_ready : Reach empty_database with_cycle
to_ready =
    next (next (next here (created run refl)) (acquired 0 "run-1" 1 "t" "i" 300))
      (staged prepared prepared-checks)

is_ready : commit_checks "run-1" 1 "t" "c" 0 with_cycle ≡ ok (run, row)
unfolding commit_checks create_run acquire_cycle_lock store_prepared_cycle sealed_of transaction
    lock_check put_lock
is_ready = refl

commit_cycle-returns_example :
    (out : RunRecord ℕ) × (after : Database ℕ) × (commit_cycle 5 "run-1" 1 "t" "c" 0 with_cycle
      ≡ (ok out, after))
commit_cycle-returns_example =
    commit_cycle-returns 5 "run-1" 1 "t" "c" 0 with_cycle run row to_ready
      (commit_checks-Checked "run-1" 1 "t" "c" 0 with_cycle run row is_ready) refl

abbrev with_commit : Database ℕ
with_commit = (commit_cycle 5 "run-1" 1 "t" "c" 0 with_cycle).1

reached_one : reached "run-1" with_commit ≡ some 1
unfolding commit_cycle commit_checks commit_writes insert_snapshot put_state for_rows create_run
    acquire_cycle_lock store_prepared_cycle sealed_of transaction lock_check put_lock
reached_one = refl

list_completed_cycles-range_example : list_completed_cycles "run-1" with_commit ≡ range_from 1 1
list_completed_cycles-range_example =
    list_completed_cycles-range "run-1" 1 (next to_ready (commit 5 "run-1" 1 "t" "c" 0)) reached_one
