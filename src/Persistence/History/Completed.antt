-- ===== src/Persistence/History/Completed.antt =====
-- packages/persistence/attention_sink/persistence/sqlite.py: `list_completed_cycles` of a history without gaps.
use attention_sink.Prelude.{
  ℕ, String, ◌≡◌, refl, sym, ◌∙◌, true, ◌&&◌, some, List, [], ◌∷◌, ◌==◌, nat_eq, nat_beq_iff,
  string_eq, ==_refl, contains, distinct, range_from, Bool-cases, inl, inr, arith,
}
use attention_sink.Prelude.Sorting.Ranges.{sorted-range}
use attention_sink.Domain.Runtime.{Host}
use attention_sink.Pilot.Snapshots.{Dump}
use attention_sink.Pilot.Records.{PreparedCycle, StoredInterview}
use attention_sink.Persistence.Sql.{find_row}
use attention_sink.Persistence.Database.{Database, SnapshotRow, empty_database}
use attention_sink.Persistence.Store.Cycles.{is_snapshot_of}
use attention_sink.Persistence.Store.Arms.{distinct_values, snapshot_cycles, list_completed_cycles}
use attention_sink.Persistence.History.{Gapless, reached}
use attention_sink.Persistence.History.Steps.{Reach}
use attention_sink.Persistence.History.Reached.{Reach-Gapless}

contains-distinct_values : (xs : List ℕ) (c : ℕ) → contains (distinct_values xs) c ≡ contains xs c
contains-distinct_values [] c = refl
contains-distinct_values (x ∷ xs) c =
    ground (arith, nat_beq_iff x c, contains-distinct_values xs x, contains-distinct_values xs c)

distinct-distinct_values : (xs : List ℕ) → distinct (distinct_values xs) ≡ true
distinct-distinct_values [] = refl
distinct-distinct_values (x ∷ xs) = ground (arith, distinct-distinct_values xs)

module _ {S : Type 0} (run_id : String) (c : ℕ) where
  -- A cycle among the rows is that of some arm's snapshot.
  listed-recorded :
      (rows : List (SnapshotRow S))
      → contains (snapshot_cycles run_id rows) c ≡ true
      → (arm_id : String) × (row : SnapshotRow S) × (find_row (is_snapshot_of run_id arm_id c) rows
          ≡ some row)
  listed-recorded [] h = cc
  listed-recorded (r ∷ rows) h = elim (Bool-cases (r.run_id == run_id && r.cycle == c)) [
    | inl this ↦ (r.arm_id, r, ground (arith, ==_refl r.arm_id))
    | inr other ↦
        let (arm_id, row, found) = listed-recorded rows (ground arith) in
        (arm_id, row, ground arith)
  ]

  recorded-listed :
      (rows : List (SnapshotRow S)) (arm_id : String) (row : SnapshotRow S)
      → find_row (is_snapshot_of run_id arm_id c) rows ≡ some row
      → contains (snapshot_cycles run_id rows) c ≡ true
  recorded-listed [] arm_id row h = cc
  recorded-listed (r ∷ rows) arm_id row h = ground (arith, recorded-listed rows arm_id row)

Gapless-completed :
    {S : Type 0} (run_id : String) (n : ℕ) (db : Database S)
    → Gapless run_id db
    → reached run_id db ≡ some n
    → list_completed_cycles run_id db ≡ range_from 1 n
unfolding list_completed_cycles
Gapless-completed run_id n db g head =
    let cycles = snapshot_cycles run_id db.cycle_snapshots in
    sorted-range 1 n (distinct_values cycles) (distinct-distinct_values cycles)
      (λ c m.
        let (arm_id, row, found) =
          listed-recorded run_id c db.cycle_snapshots
            (sym (contains-distinct_values cycles c) ∙ m) in
        let (low, high) = g.bounded n head c arm_id row found in (low, omega arith))
      (λ c low high.
        let (arm_id, row, found) = g.present n head c low (omega arith) in
        contains-distinct_values cycles c
        ∙ recorded-listed run_id c db.cycle_snapshots arm_id row found)

module _ {S : Type 0} ⦃host : Host⦄ ⦃dump : Dump (PreparedCycle S)⦄
    ⦃interviews : Dump StoredInterview⦄ where
  -- After any sequence of operations on an empty store, in which every run is created at cycle 0 and
  -- every cycle is staged as its constructor admits it, `list_completed_cycles` of a run at cycle n is 1
  -- to n, in order and without a gap.
  pub list_completed_cycles-range :
      (run_id : String) (n : ℕ) {db : Database S}
      → Reach empty_database db
      → reached run_id db ≡ some n
      → list_completed_cycles run_id db ≡ range_from 1 n
  list_completed_cycles-range run_id n {db} r head =
      Gapless-completed run_id n db (Reach-Gapless run_id r) head
