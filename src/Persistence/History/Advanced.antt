-- ===== src/Persistence/History/Advanced.antt =====
-- packages/persistence/attention_sink/persistence/sqlite.py: a commit advances its own run's history by one cycle, and
-- no other.
use attention_sink.Prelude.{
  ℕ, String, ◌≡◌, refl, sym, ap, ◌∙◌, true, false, ◌&&◌, List, ◌∷◌, ◌==◌, nat_eq, string_eq, some,
  arith, Bool-cases, inl, inr, All,
}
use mathlib.Core.Path.{subst}
use attention_sink.Domain.Enums.{arm_value}
use attention_sink.Domain.Errors.{Result}
use attention_sink.Domain.Runtime.{Host}
use attention_sink.Pilot.Snapshots.{ArmCycleSnapshot}
use attention_sink.Pilot.Records.{RunRecord, PreparedCycle}
use attention_sink.Persistence.Sql.Laws.{option_map, find_row-update_rows_other}
use attention_sink.Persistence.Database.{Database, PreparedRow}
use attention_sink.Persistence.Store.Runs.{is_run}
use attention_sink.Persistence.Store.Checks.{find_prepared}
use attention_sink.Persistence.Store.Cycles.{snapshot_row, commit_cycle, advance}
use attention_sink.Persistence.Commit.{fits, committed_database}
use attention_sink.Persistence.Commit.Checked.{Checked}
use attention_sink.Persistence.Commit.Recorded.{recorded-kept, recorded-other, recorded-new}
use attention_sink.Persistence.Commit.Atomic.{
  Ends, committed, refused, clashed, commit_cycle-Ends, reload-committed,
}
use attention_sink.Persistence.History.{HasSnapshot, recorded, Moves, stays, advances}
use attention_sink.Persistence.History.Moved.{same-Moves}

named_apart :
    (id run_id other : String)
    → (run_id == other) ≡ false
    → (id == other) ≡ true
    → (id == run_id) ≡ false
named_apart id run_id other apart named =
    ground (
      arith,
      string_eq.eqb_iff id run_id,
      string_eq.eqb_iff id other,
      string_eq.eqb_iff run_id other,
    )

module _ {S : Type 0} ⦃host : Host⦄ (now : ℕ) (run_id : String) (cycle : ℕ)
    (token content_hash : String) (version : ℕ) (db : Database S) where
  first_recorded :
      (prepared : PreparedCycle S) (s : ArmCycleSnapshot S) (ss : List (ArmCycleSnapshot S))
      → prepared.snapshots ≡ s ∷ ss
      → fits run_id cycle prepared.snapshots db.cycle_snapshots ≡ true
      → recorded run_id
          (committed_database now run_id cycle token version prepared db)
          cycle
          (arm_value s.arm_id)
        ≡ some (snapshot_row run_id cycle s)
  first_recorded prepared s ss some_snapshot fit =
      let each = recorded-new now run_id cycle token version prepared db fit in
      (subst
        (All (λ (t : ArmCycleSnapshot S).
          recorded run_id (committed_database now run_id cycle token version prepared db) cycle
            (arm_value t.arm_id)
          ≡ some (snapshot_row run_id cycle t)))
        some_snapshot each).0

  -- The history of the run itself, behind a commit of a cycle with at least one snapshot.
  committed-own :
      (run : RunRecord S) (row : PreparedRow S) (s : ArmCycleSnapshot S)
      (ss : List (ArmCycleSnapshot S))
      → Checked run_id cycle token content_hash version db run row
      → row.payload.snapshots ≡ s ∷ ss
      → fits run_id cycle row.payload.snapshots db.cycle_snapshots ≡ true
      → Moves run_id db (committed_database now run_id cycle token version row.payload db)
  committed-own run row s ss c some_snapshot fit =
      advances run.current_cycle (ap (option_map (λ (r : RunRecord S). r.current_cycle)) c.found)
        (ap (option_map (λ (r : RunRecord S). r.current_cycle))
            (reload-committed now run_id cycle token content_hash version db run row c)
          ∙ ap some (sym c.is_next))
        (λ k arm_id apart.
          recorded-other now run_id cycle token version row.payload db run_id arm_id k
            (ground (arith, c.is_next)))
        (λ k arm_id found.
          recorded-kept now run_id cycle token version row.payload db run_id arm_id k found)
        (arm_value s.arm_id) (snapshot_row run_id cycle s)
        (ap
            (λ k.
              recorded run_id (committed_database now run_id cycle token version row.payload db) k
                (arm_value s.arm_id))
            c.is_next
          ∙ (first_recorded row.payload s ss some_snapshot fit))

  committed-other :
      (id : String) (run : RunRecord S) (row : PreparedRow S)
      → (run_id == id) ≡ false
      → Moves id db (committed_database now run_id cycle token version row.payload db)
  committed-other id run row other =
      stays
        (ap (option_map (λ (r : RunRecord S). r.current_cycle)) (
          find_row-update_rows_other (is_run id) (λ r. is_run run_id r && r.version == version)
            (advance now cycle row.payload) db.runs (λ r. refl)
            (λ r named. rw (named_apart r.run_id run_id id other named) refl)))
        (λ k arm_id.
          recorded-other now run_id cycle token version row.payload db id arm_id k (rw other refl))

  committed-Moves :
      (id : String) (run : RunRecord S) (row : PreparedRow S)
      → Checked run_id cycle token content_hash version db run row
      → HasSnapshot row.payload.snapshots
      → fits run_id cycle row.payload.snapshots db.cycle_snapshots ≡ true
      → Moves id db (committed_database now run_id cycle token version row.payload db)
  committed-Moves id run row c (s, ss, some_snapshot) fit = elim (Bool-cases (run_id == id)) [
    | inl same ↦
        subst (λ k. Moves k db (committed_database now run_id cycle token version row.payload db))
          ((string_eq.eqb_iff run_id id).0 same) (committed-own run row s ss c some_snapshot fit)
    | inr other ↦ committed-other id run row other
  ]

  ends-Moves :
      (id : String) (out : Result (RunRecord S) × Database S)
      → ((row : PreparedRow S)
          → find_prepared run_id cycle db ≡ some row
          → HasSnapshot row.payload.snapshots)
      → Ends now run_id cycle token content_hash version db out
      → Moves id db out.1
  ends-Moves id out full (committed run row c fit e) =
      rw e (committed-Moves id run row c (full row c.staged) fit)
  ends-Moves id out full (refused error checks e) = same-Moves id db out.1 (ap (λ o. o.1) e)
  ends-Moves id out full (clashed run row c clash e) = same-Moves id db out.1 (ap (λ o. o.1) e)

  pub commit_cycle-Moves :
      (id : String)
      → ((row : PreparedRow S)
          → find_prepared run_id cycle db ≡ some row
          → HasSnapshot row.payload.snapshots)
      → Moves id db (commit_cycle now run_id cycle token content_hash version db).1
  commit_cycle-Moves id full =
      ends-Moves id (commit_cycle now run_id cycle token content_hash version db) full
        (commit_cycle-Ends now run_id cycle token content_hash version db)
