-- ===== src/Persistence/Commit/Outcome.antt =====
-- packages/persistence/attention_sink/persistence/sqlite.py: a commit carries out all of its writes, or none.
use attention_sink.Prelude.{
  ℕ, String, ◌≡◌, refl, sym, ap, ◌∙◌, true, false, List, [], ◌∷◌, ◌++◌, map, any, nat_eq, string_eq,
  sorted, arith,
}
use mathlib.Core.List.{append-nil}
use attention_sink.Prelude.Text.{text_leb}
use attention_sink.Domain.Errors.{ok, raise, integrity_error}
use attention_sink.Domain.Runtime.{Host}
use attention_sink.Domain.State.{MemoryState}
use attention_sink.Pilot.Snapshots.{ArmCycleSnapshot}
use attention_sink.Pilot.Records.{PreparedCycle}
use attention_sink.Persistence.Sql.{for_rows}
use attention_sink.Persistence.Database.{Database, SnapshotRow}
use attention_sink.Persistence.Store.Runs.{is_run}
use attention_sink.Persistence.Store.Cycles.{
  insert_snapshot, put_state, snapshot_row, commit_writes,
}
use attention_sink.Persistence.Commit.{
  snapshot_row, with_snapshots, fits, put_row, with_states, committed_database,
}

pub rows_behind {ℓ} :
    {A : Type ℓ} (xs : List A) (y : A) (zs : List A) → (xs ++ y ∷ []) ++ zs ≡ xs ++ y ∷ zs
rows_behind [] y zs = refl
rows_behind (x ∷ xs) y zs = ap (◌∷◌ x) (rows_behind xs y zs)

module _ {S : Type 0} (run_id : String) (cycle : ℕ) where
  insert_snapshots-fits :
      (ss : List (ArmCycleSnapshot S)) (db : Database S)
      → any (is_run run_id) db.runs ≡ true
      → fits run_id cycle ss db.cycle_snapshots ≡ true
      → for_rows (insert_snapshot run_id cycle) ss db ≡ (ok tt, with_snapshots run_id cycle ss db)
  unfolding for_rows insert_snapshot
  insert_snapshots-fits [] db known fit =
      ap (λ (rows : List (SnapshotRow S)). (ok tt, record db { cycle_snapshots = rows }))
        (sym (append-nil db.cycle_snapshots))
  insert_snapshots-fits (s ∷ ss) db known fit =
      let row = snapshot_row run_id cycle s in
      let rest =
        insert_snapshots-fits ss (record db { cycle_snapshots = db.cycle_snapshots ++ row ∷ [] })
          known in
      ground (arith, rest)
      ∙ ap (λ (rows : List (SnapshotRow S)). (ok tt, record db { cycle_snapshots = rows }))
          (rows_behind db.cycle_snapshots row (map (snapshot_row run_id cycle) ss))

  insert_snapshots-clash :
      (ss : List (ArmCycleSnapshot S)) (db : Database S)
      → any (is_run run_id) db.runs ≡ true
      → fits run_id cycle ss db.cycle_snapshots ≡ false
      → (for_rows (insert_snapshot run_id cycle) ss db).0 ≡ raise integrity_error
  unfolding for_rows insert_snapshot
  insert_snapshots-clash [] db known clash = cc
  insert_snapshots-clash (s ∷ ss) db known clash = ground (
    arith,
    insert_snapshots-clash ss
        (record db { cycle_snapshots = db.cycle_snapshots ++ snapshot_row run_id cycle s ∷ [] })
        known,
  )

module _ {S : Type 0} ⦃host : Host⦄ (run_id : String) (cycle : ℕ) where
  put_states-lem :
      (ss : List (String × MemoryState S)) (db : Database S)
      → any (is_run run_id) db.runs ≡ true
      → for_rows (put_state run_id cycle) ss db ≡ (ok tt, with_states run_id cycle ss db)
  unfolding for_rows put_state
  put_states-lem [] db known = refl
  put_states-lem ((arm_id, state) ∷ ss) db known = ground (
    arith,
    put_states-lem ss
        (record db {
          arm_current_states = put_row run_id cycle (arm_id, state) db.arm_current_states;
        })
        known,
  )

module _ {S : Type 0} ⦃host : Host⦄ (now : ℕ) (run_id : String) (cycle : ℕ) (token : String)
    (version : ℕ) (prepared : PreparedCycle S) (db : Database S)
    (known : any (is_run run_id) db.runs ≡ true) where
  pub commit_writes-fits :
      fits run_id cycle prepared.snapshots db.cycle_snapshots ≡ true
      → commit_writes now run_id cycle token version prepared db
        ≡ (ok tt, committed_database now run_id cycle token version prepared db)
  unfolding commit_writes
  commit_writes-fits fit = rw (insert_snapshots-fits run_id cycle prepared.snapshots db known fit) (
      rw
        (put_states-lem run_id cycle (sorted (λ (a, s) (b, t). text_leb a b) prepared.arm_states)
          (with_snapshots run_id cycle prepared.snapshots db) known)
        refl)

  pub commit_writes-clash :
      fits run_id cycle prepared.snapshots db.cycle_snapshots ≡ false
      → (commit_writes now run_id cycle token version prepared db).0 ≡ raise integrity_error
  unfolding commit_writes
  commit_writes-clash clash =
      ground (arith, insert_snapshots-clash run_id cycle prepared.snapshots db known clash)
