-- ===== src/Persistence/Commit/Checked.antt =====
-- packages/persistence/attention_sink/persistence/sqlite.py: what the checks of a commit establish when they pass.
use attention_sink.Prelude.{
  ℕ, ◌+◌, String, ◌≡◌, true, Option, none, some, ◌==◌, string_eq, nat_eq, arith,
}
use attention_sink.Domain.Errors.{Error, ok}
use attention_sink.Pilot.Records.{RunRecord}
use attention_sink.Persistence.Database.{Database, PreparedRow}
use attention_sink.Persistence.Store.Runs.{or_raise, find_run}
use attention_sink.Persistence.Store.Locks.{get_cycle_lock}
use attention_sink.Persistence.Store.Checks.{is_held_by, find_prepared, commit_checks}

-- The run is where the commit expects it, the lock is the caller's, and the cycle is the one that was staged.
pub record Checked {S : Type 0} (run_id : String) (cycle : ℕ) (token content_hash : String)
    (version : ℕ) (db : Database S) (run : RunRecord S) (row : PreparedRow S) : Type 0 where
  pub found : find_run run_id db ≡ some run
  pub at_version : run.version ≡ version
  pub is_next : run.current_cycle + 1 ≡ cycle
  pub held : is_held_by token (get_cycle_lock run_id db) ≡ true
  pub staged : find_prepared run_id cycle db ≡ some row
  pub same_content : (row.content_hash == content_hash) ≡ true

or_raise-eq-ok {ℓ} :
    {A : Type ℓ} {a : A} (e : Error) (o : Option A) → or_raise e o ≡ ok a → o ≡ some a
or_raise-eq-ok e none h = cc
or_raise-eq-ok e (some a) h = cc

module _ {S : Type 0} (run_id : String) (cycle : ℕ) (token content_hash : String) (version : ℕ)
    (db : Database S) where
  pub commit_checks-Checked :
      (run : RunRecord S) (row : PreparedRow S)
      → commit_checks run_id cycle token content_hash version db ≡ ok (run, row)
      → Checked run_id cycle token content_hash version db run row
  unfolding commit_checks
  commit_checks-Checked run row h = record {
    found = ground arith;
    at_version = ground arith;
    is_next = ground arith;
    held = ground arith;
    staged = ground arith;
    same_content = ground arith;
  }

  pub Checked-commit_checks :
      (run : RunRecord S) (row : PreparedRow S)
      → Checked run_id cycle token content_hash version db run row
      → commit_checks run_id cycle token content_hash version db ≡ ok (run, row)
  unfolding commit_checks
  Checked-commit_checks run row c =
      ground (arith, c.found, c.at_version, c.is_next, c.held, c.staged, c.same_content)
