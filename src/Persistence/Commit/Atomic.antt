-- ===== src/Persistence/Commit/Atomic.antt =====
-- packages/persistence/attention_sink/persistence/sqlite.py: a commit that raises leaves the database as it was, and
-- one that returns has made all of its writes.
use attention_sink.Prelude.{
  ℕ, String, ◌≡◌, refl, ap, ◌∙◌, true, false, ◌&&◌, ◌==◌, nat_eq, nat_beq_iff, string_eq, some,
  if◌then◌else◌, arith, Bool-cases, inl, inr,
}
use attention_sink.Domain.Errors.{Error, Result, ok, raise, integrity_error}
use attention_sink.Domain.Runtime.{Host}
use attention_sink.Pilot.Records.{RunRecord}
use attention_sink.Persistence.Sql.Laws.{
  option_map, find_row-update_rows, find_row-holds, any-find_row,
}
use attention_sink.Persistence.Database.{Database, PreparedRow}
use attention_sink.Persistence.Store.Runs.{is_run, find_run}
use attention_sink.Persistence.Store.Checks.{commit_checks}
use attention_sink.Persistence.Store.Cycles.{commit_cycle, advance}
use attention_sink.Persistence.Commit.{fits, committed_database}
use attention_sink.Persistence.Commit.Outcome.{commit_writes-fits, commit_writes-clash}
use attention_sink.Persistence.Commit.Checked.{Checked, commit_checks-Checked}

module _ {S : Type 0} ⦃host : Host⦄ (now : ℕ) (run_id : String) (cycle : ℕ)
    (token content_hash : String) (version : ℕ) (db : Database S) where
  -- The three ways in which a commit ends.
  pub data Ends (out : Result (RunRecord S) × Database S) : Type 0 where
    committed :
        (run : RunRecord S) (row : PreparedRow S)
        → Checked run_id cycle token content_hash version db run row
        → fits run_id cycle row.payload.snapshots db.cycle_snapshots ≡ true
        → out ≡ (
          ok (advance now cycle row.payload run),
          committed_database now run_id cycle token version row.payload db,
        )
        → Ends out
    refused :
        (e : Error)
        → commit_checks run_id cycle token content_hash version db ≡ raise e
        → out ≡ (raise e, db)
        → Ends out
    clashed :
        (run : RunRecord S) (row : PreparedRow S)
        → Checked run_id cycle token content_hash version db run row
        → fits run_id cycle row.payload.snapshots db.cycle_snapshots ≡ false
        → out ≡ (raise integrity_error, db)
        → Ends out

  chosen :
      (run : RunRecord S) (row : PreparedRow S)
      → Checked run_id cycle token content_hash version db run row
      → some (
          if is_run run_id run && run.version == version
          then advance now cycle row.payload run
          else run)
        ≡ some (advance now cycle row.payload run)
  chosen run row c =
      let named = find_row-holds (is_run run_id) db.runs c.found in
      let same = (nat_beq_iff run.version version).1 c.at_version in rw (named, same) refl

  -- The head behind a commit.
  pub reload-committed :
      (run : RunRecord S) (row : PreparedRow S)
      → Checked run_id cycle token content_hash version db run row
      → find_run run_id (committed_database now run_id cycle token version row.payload db)
        ≡ some (advance now cycle row.payload run)
  reload-committed run row c =
      find_row-update_rows (is_run run_id) (λ r. is_run run_id r && r.version == version)
        (advance now cycle row.payload) db.runs (λ r. refl)
      ∙ ap
          (option_map (λ r.
            if is_run run_id r && r.version == version then advance now cycle row.payload r else r))
          c.found
      ∙ chosen run row c

  pub commit-fits :
      (run : RunRecord S) (row : PreparedRow S)
      → Checked run_id cycle token content_hash version db run row
      → commit_checks run_id cycle token content_hash version db ≡ ok (run, row)
      → fits run_id cycle row.payload.snapshots db.cycle_snapshots ≡ true
      → commit_cycle now run_id cycle token content_hash version db ≡ (
        ok (advance now cycle row.payload run),
        committed_database now run_id cycle token version row.payload db,
      )
  unfolding commit_cycle
  commit-fits run row c checks fit =
      let known = any-find_row (is_run run_id) db.runs c.found in
      rw
        (
          checks,
          commit_writes-fits now run_id cycle token version row.payload db known fit,
          reload-committed run row c,
        )
        refl

  commit-clash :
      (run : RunRecord S) (row : PreparedRow S)
      → Checked run_id cycle token content_hash version db run row
      → commit_checks run_id cycle token content_hash version db ≡ ok (run, row)
      → fits run_id cycle row.payload.snapshots db.cycle_snapshots ≡ false
      → commit_cycle now run_id cycle token content_hash version db ≡ (raise integrity_error, db)
  unfolding commit_cycle
  commit-clash run row c checks clash =
      let known = any-find_row (is_run run_id) db.runs c.found in
      ground (
        arith,
        checks,
        commit_writes-clash now run_id cycle token version row.payload db known clash,
      )

  pub commit-refused :
      (e : Error)
      → commit_checks run_id cycle token content_hash version db ≡ raise e
      → commit_cycle now run_id cycle token content_hash version db ≡ (raise e, db)
  unfolding commit_cycle
  commit-refused e checks = rw checks refl

  ends_by :
      (checks : Result (RunRecord S × PreparedRow S))
      → commit_checks run_id cycle token content_hash version db ≡ checks
      → Ends (commit_cycle now run_id cycle token content_hash version db)
  ends_by (raise e) h = refused e h (commit-refused e h)
  ends_by (ok (run, row)) h =
      let c = commit_checks-Checked run_id cycle token content_hash version db run row h in
      elim (Bool-cases (fits run_id cycle row.payload.snapshots db.cycle_snapshots)) [
        | inl fit ↦ committed run row c fit (commit-fits run row c h fit)
        | inr clash ↦ clashed run row c clash (commit-clash run row c h clash)
      ]

  pub commit_cycle-Ends : Ends (commit_cycle now run_id cycle token content_hash version db)
  commit_cycle-Ends = ends_by (commit_checks run_id cycle token content_hash version db) refl

  -- If a commit raises, at whichever of its checks or writes, the database is as it was before.
  pub commit_cycle-atomic :
      (e : Error) (after : Database S)
      → commit_cycle now run_id cycle token content_hash version db ≡ (raise e, after)
      → after ≡ db
  commit_cycle-atomic e after h = by_end commit_cycle-Ends
    where
      by_end : Ends (commit_cycle now run_id cycle token content_hash version db) → after ≡ db
      by_end (committed run row c fit out) = cc
      by_end (refused e' checks out) = cc
      by_end (clashed run row c clash out) = cc
