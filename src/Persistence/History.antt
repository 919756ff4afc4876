-- ===== src/Persistence/History.antt =====
-- packages/persistence/attention_sink/persistence/sqlite.py: a run's history as its readers see it, and the moves that
-- it may make.
pub mod Kept
pub mod Steady
pub mod Moved
pub mod Advanced
pub mod Staged
pub mod Steps
pub mod Reached
pub mod Completed
pub mod Returning
use attention_sink.Prelude.{ℕ, ◌+◌, ◌≤◌, String, ◌≡◌, ◌≢◌, Option, none, some, List, ◌∷◌, All}
use attention_sink.Pilot.Snapshots.{ArmCycleSnapshot}
use attention_sink.Pilot.Records.{RunRecord}
use attention_sink.Persistence.Sql.Laws.{option_map}
use attention_sink.Persistence.Database.{Database, SnapshotRow}
use attention_sink.Persistence.Store.Runs.{find_run}
use attention_sink.Persistence.Store.Arms.{get_cycle_snapshot}

module _ {S : Type 0} where
  -- The cycle that a run has reached, if there is such a run.
  abbrev pub reached : String → Database S → Option ℕ
  reached run_id db = option_map (λ run. run.current_cycle) (find_run run_id db)

  abbrev pub recorded : String → Database S → ℕ → String → Option (SnapshotRow S)
  recorded run_id db cycle arm_id = get_cycle_snapshot run_id arm_id cycle db

  -- A staged cycle holds at least one snapshot.
  abbrev pub HasSnapshot : List (ArmCycleSnapshot S) → Type 0
  HasSnapshot ss = (s : ArmCycleSnapshot S) × (rest : List (ArmCycleSnapshot S)) × (ss ≡ s ∷ rest)

  abbrev pub IsStaged : Database S → Type 0
  IsStaged db = All (λ row. HasSnapshot row.payload.snapshots) db.prepared_cycles

  -- What one operation may do to the history of one run.
  pub data Moves (run_id : String) (before after : Database S) : Type 0 where
    stays :
        reached run_id after ≡ reached run_id before
        → ((cycle : ℕ) (arm_id : String)
            → recorded run_id after cycle arm_id ≡ recorded run_id before cycle arm_id)
        → Moves run_id before after
    begins :
        reached run_id before ≡ none
        → reached run_id after ≡ some 0
        → ((cycle : ℕ) (arm_id : String)
            → recorded run_id after cycle arm_id ≡ recorded run_id before cycle arm_id)
        → Moves run_id before after
    advances :
        (n : ℕ)
        → reached run_id before ≡ some n
        → reached run_id after ≡ some (n + 1)
        → ((cycle : ℕ) (arm_id : String)
            → cycle ≢ n + 1
            → recorded run_id after cycle arm_id ≡ recorded run_id before cycle arm_id)
        → ((cycle : ℕ) (arm_id : String) (row : SnapshotRow S)
            → recorded run_id before cycle arm_id ≡ some row
            → recorded run_id after cycle arm_id ≡ some row)
        → (arm_id : String) (row : SnapshotRow S) → recorded run_id after (n + 1) arm_id ≡ some row
        → Moves run_id before after
    ends :
        reached run_id after ≡ none
        → ((cycle : ℕ) (arm_id : String) → recorded run_id after cycle arm_id ≡ none)
        → Moves run_id before after

  -- The cycles up to the one reached are recorded, and nothing else is.
  pub record Gapless (run_id : String) (db : Database S) : Type 0 where
    pub nothing :
        reached run_id db ≡ none
        → (cycle : ℕ) (arm_id : String) → recorded run_id db cycle arm_id ≡ none
    pub bounded :
        (n : ℕ)
        → reached run_id db ≡ some n
        → (cycle : ℕ) (arm_id : String) (row : SnapshotRow S)
        → recorded run_id db cycle arm_id ≡ some row
        → (1 ≤ cycle) × (cycle ≤ n)
    pub present :
        (n : ℕ)
        → reached run_id db ≡ some n
        → (cycle : ℕ) → 1 ≤ cycle
        → cycle ≤ n
        → (arm_id : String) × (row : SnapshotRow S) × (recorded run_id db cycle arm_id ≡ some row)
