-- ===== src/Persistence/History/Returning.antt =====
-- packages/persistence/attention_sink/persistence/sqlite.py: a commit whose checks pass meets no constraint of the tables.
use attention_sink.Prelude.{
  ℕ, ◌+◌, String, ◌≡◌, refl, ap, Bool, true, false, List, [], ◌∷◌, ◌++◌, map, any, nat_eq,
  string_eq, some, none, Option, arith, All, contains, distinct, ◌||◌,
}
use attention_sink.Domain.Enums.{arm_value}
use attention_sink.Domain.Errors.{ok}
use attention_sink.Domain.Runtime.{Host}
use attention_sink.Pilot.Snapshots.{ArmCycleSnapshot, Dump}
use attention_sink.Pilot.Records.{RunRecord, PreparedCycle, StoredInterview}
use attention_sink.Persistence.Sql.Laws.{option_map, absent-find_row}
use attention_sink.Persistence.Database.{Database, PreparedRow, SnapshotRow, empty_database}
use attention_sink.Persistence.Store.Cycles.{is_snapshot_of, snapshot_row, commit_cycle, advance}
use attention_sink.Persistence.Commit.{fits, committed_database}
use attention_sink.Persistence.Commit.Checked.{Checked, Checked-commit_checks}
use attention_sink.Persistence.Commit.Atomic.{commit-fits}
use attention_sink.Persistence.History.{Gapless, recorded, reached}
use attention_sink.Persistence.History.Steps.{Reach}
use attention_sink.Persistence.History.Reached.{Reach-Gapless}

any-append :
    {R : Type 0} (p : R → Bool) (xs ys : List R) → any p (xs ++ ys) ≡ (any p xs || any p ys)
any-append p [] ys = refl
any-append p (x ∷ xs) ys = ground (arith, any-append p xs ys)

module _ {S : Type 0} (run_id : String) (cycle : ℕ) where
  -- No arm of the snapshots has a row at the cycle.
  abbrev Free : List (ArmCycleSnapshot S) → List (SnapshotRow S) → Type 0
  Free ss rows = All (λ s. any (is_snapshot_of run_id (arm_value s.arm_id) cycle) rows ≡ false) ss

  Free-append :
      (s : ArmCycleSnapshot S) (ss : List (ArmCycleSnapshot S)) (rows : List (SnapshotRow S))
      → contains (map (λ (t : ArmCycleSnapshot S). arm_value t.arm_id) ss) (arm_value s.arm_id)
        ≡ false
      → Free ss rows
      → Free ss (rows ++ snapshot_row run_id cycle s ∷ [])
  Free-append s [] rows apart free = tt
  Free-append s (t ∷ ss) rows apart free = (
    ground (
      arith,
      any-append (is_snapshot_of run_id (arm_value t.arm_id) cycle) rows
          (snapshot_row run_id cycle s ∷ []),
      string_eq.eqb_iff (arm_value s.arm_id) (arm_value t.arm_id),
      string_eq.eqb_iff (arm_value t.arm_id) (arm_value s.arm_id),
    ),
    Free-append s ss rows (ground arith) free.1,
  )

  Free-fits :
      (ss : List (ArmCycleSnapshot S)) (rows : List (SnapshotRow S))
      → distinct (map (λ (t : ArmCycleSnapshot S). arm_value t.arm_id) ss) ≡ true
      → Free ss rows
      → fits run_id cycle ss rows ≡ true
  Free-fits [] rows d free = refl
  Free-fits (s ∷ ss) rows d free = ground (
    arith,
    free.0,
    Free-fits ss (rows ++ snapshot_row run_id cycle s ∷ []) (ground arith)
        (Free-append s ss rows (ground arith) free.1),
  )

module _ {S : Type 0} ⦃host : Host⦄ (now : ℕ) (run_id : String) (cycle : ℕ)
    (token content_hash : String) (version : ℕ) (db : Database S) where
  -- Nothing is recorded past the cycle that a run has reached.
  unrecorded :
      (n : ℕ) (arm_id : String) (found : Option (SnapshotRow S))
      → Gapless run_id db
      → reached run_id db ≡ some n
      → n + 1 ≡ cycle
      → recorded run_id db cycle arm_id ≡ found
      → found ≡ none
  unrecorded n arm_id none g head next_one h = refl
  unrecorded n arm_id (some row) g head next_one h =
      let (low, high) = g.bounded n head cycle arm_id row h in absurd (omega (arith, next_one))

  Gapless-Free :
      (run : RunRecord S) (row : PreparedRow S) (ss : List (ArmCycleSnapshot S))
      → Gapless run_id db
      → Checked run_id cycle token content_hash version db run row
      → Free run_id cycle ss db.cycle_snapshots
  Gapless-Free run row [] g c = tt
  Gapless-Free run row (s ∷ ss) g c = (
    absent-find_row (is_snapshot_of run_id (arm_value s.arm_id) cycle) db.cycle_snapshots (
        unrecorded run.current_cycle (arm_value s.arm_id)
          (recorded run_id db cycle (arm_value s.arm_id)) g
          (ap (option_map (λ (r : RunRecord S). r.current_cycle)) c.found) c.is_next refl),
    Gapless-Free run row ss g c,
  )

  -- In a store that operations reach from an empty one, every run being created at cycle 0 and every
  -- cycle staged as its constructor admits it, a commit whose checks hold, of a staged cycle with at
  -- most one snapshot for each arm, returns: no constraint of the tables stops it.
  pub commit_cycle-returns :
      ⦃dump : Dump (PreparedCycle S)⦄ ⦃interviews : Dump StoredInterview⦄ (run : RunRecord S)
      (row : PreparedRow S)
      → Reach empty_database db
      → Checked run_id cycle token content_hash version db run row
      → distinct (map (λ (t : ArmCycleSnapshot S). arm_value t.arm_id) row.payload.snapshots) ≡ true
      → (out : RunRecord S) × (after : Database S) × (commit_cycle now run_id cycle token
            content_hash version db
          ≡ (ok out, after))
  commit_cycle-returns run row r c arms = (
    advance now cycle row.payload run,
    committed_database now run_id cycle token version row.payload db,
    commit-fits now run_id cycle token content_hash version db run row c
        (Checked-commit_checks run_id cycle token content_hash version db run row c)
        (Free-fits run_id cycle row.payload.snapshots db.cycle_snapshots arms
          (Gapless-Free run row row.payload.snapshots (Reach-Gapless run_id r) c)),
  )
