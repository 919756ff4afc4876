-- ===== src/Persistence/Commit/Recorded.antt =====
-- packages/persistence/attention_sink/persistence/sqlite.py: which snapshots are read back behind a commit.
use attention_sink.Prelude.{
  ℕ, String, ◌≡◌, refl, ◌∙◌, true, false, ◌&&◌, List, [], ◌∷◌, ◌++◌, map, ◌==◌, nat_eq, ==_refl,
  string_eq, some, none, arith, All,
}
use mathlib.Core.Path.{subst}
use attention_sink.Domain.Enums.{arm_value}
use attention_sink.Domain.Runtime.{Host}
use attention_sink.Pilot.Snapshots.{ArmCycleSnapshot}
use attention_sink.Pilot.Records.{PreparedCycle}
use attention_sink.Persistence.Sql.{find_row}
use attention_sink.Persistence.Sql.Laws.{or_else, or_else-none, find_row-append, find_row-absent}
use attention_sink.Persistence.Database.{Database, SnapshotRow}
use attention_sink.Persistence.Store.Arms.{get_cycle_snapshot}
use attention_sink.Persistence.Store.Cycles.{snapshot_row, is_snapshot_of}
use attention_sink.Persistence.Commit.Outcome.{rows_behind}
use attention_sink.Persistence.Commit.{fits, committed_database}

module _ {S : Type 0} (run_id : String) (cycle : ℕ) where
  -- The new rows are of this run and this cycle.
  new_rows-other :
      (id : String) (c : ℕ) (arm_id : String) (ss : List (ArmCycleSnapshot S))
      → (run_id == id && cycle == c) ≡ false
      → find_row (is_snapshot_of id arm_id c) (map (snapshot_row run_id cycle) ss) ≡ none
  new_rows-other id c arm_id [] h = refl
  new_rows-other id c arm_id (s ∷ ss) h = ground (arith, new_rows-other id c arm_id ss h)

  -- A snapshot of a commit that fits is found under its arm.
  new_rows-first :
      (s : ArmCycleSnapshot S) (ss : List (ArmCycleSnapshot S)) (rows : List (SnapshotRow S))
      → fits run_id cycle (s ∷ ss) rows ≡ true
      → find_row
          (is_snapshot_of run_id (arm_value s.arm_id) cycle)
          (rows ++ map (snapshot_row run_id cycle) (s ∷ ss))
        ≡ some (snapshot_row run_id cycle s)
  new_rows-first s ss rows fit =
      find_row-append (is_snapshot_of run_id (arm_value s.arm_id) cycle) rows
        (map (snapshot_row run_id cycle) (s ∷ ss))
      ∙ ground (
        arith,
        find_row-absent (is_snapshot_of run_id (arm_value s.arm_id) cycle) rows (ground arith),
        ==_refl run_id,
        ==_refl (arm_value s.arm_id),
        ==_refl cycle,
      )

module _ {S : Type 0} (run_id : String) (cycle : ℕ) where
  -- Each snapshot of a commit that fits is found under its arm.
  pub fits-All :
      (ss : List (ArmCycleSnapshot S)) (rows : List (SnapshotRow S))
      → fits run_id cycle ss rows ≡ true
      → All
          (λ s.
            find_row
              (is_snapshot_of run_id (arm_value s.arm_id) cycle)
              (rows ++ map (snapshot_row run_id cycle) ss)
            ≡ some (snapshot_row run_id cycle s))
          ss
  fits-All [] rows fit = tt
  fits-All (s ∷ ss) rows fit = (
    new_rows-first run_id cycle s ss rows fit,
    subst
        (λ (all_rows : List (SnapshotRow S)).
          All
            (λ s.
              find_row (is_snapshot_of run_id (arm_value s.arm_id) cycle) all_rows
              ≡ some (snapshot_row run_id cycle s))
            ss)
        (rows_behind rows (snapshot_row run_id cycle s) (map (snapshot_row run_id cycle) ss))
        (fits-All ss (rows ++ snapshot_row run_id cycle s ∷ []) (ground arith)),
  )

-- What is read of the snapshots behind a commit.
module _ {S : Type 0} ⦃host : Host⦄ (now : ℕ) (run_id : String) (cycle : ℕ) (token : String)
    (version : ℕ) (prepared : PreparedCycle S) (db : Database S) where
  abbrev after : Database S
  after = committed_database now run_id cycle token version prepared db

  recorded-committed :
      (id arm_id : String) (c : ℕ)
      → get_cycle_snapshot id arm_id c after
        ≡ or_else (get_cycle_snapshot id arm_id c db) (
            find_row
              (is_snapshot_of id arm_id c)
              (map (snapshot_row run_id cycle) prepared.snapshots))
  recorded-committed id arm_id c =
      find_row-append (is_snapshot_of id arm_id c) db.cycle_snapshots
        (map (snapshot_row run_id cycle) prepared.snapshots)

  -- A snapshot that was there is there as it was.
  pub recorded-kept :
      (id arm_id : String) (c : ℕ) (row : SnapshotRow S)
      → get_cycle_snapshot id arm_id c db ≡ some row
      → get_cycle_snapshot id arm_id c after ≡ some row
  recorded-kept id arm_id c row h = recorded-committed id arm_id c ∙ ground (arith, h)

  -- Other runs and other cycles have the snapshots that they had.
  pub recorded-other :
      (id arm_id : String) (c : ℕ)
      → (run_id == id && cycle == c) ≡ false
      → get_cycle_snapshot id arm_id c after ≡ get_cycle_snapshot id arm_id c db
  recorded-other id arm_id c h =
      recorded-committed id arm_id c
      ∙ rw (new_rows-other run_id cycle id c arm_id prepared.snapshots h)
          (or_else-none (get_cycle_snapshot id arm_id c db))

  -- Every arm of the staged cycle has its snapshot.
  pub recorded-new :
      fits run_id cycle prepared.snapshots db.cycle_snapshots ≡ true
      → All
          (λ s.
            get_cycle_snapshot run_id (arm_value s.arm_id) cycle after
            ≡ some (snapshot_row run_id cycle s))
          prepared.snapshots
  recorded-new fit = fits-All run_id cycle prepared.snapshots db.cycle_snapshots fit
