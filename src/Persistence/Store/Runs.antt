-- ===== src/Persistence/Store/Runs.antt =====
-- packages/persistence/attention_sink/persistence/sqlite.py: the heads of the runs.
use attention_sink.Prelude.{
  ℕ, ◌+◌, String, Bool, ◌&&◌, Option, none, some, List, ltb, any, ◌==◌, ◌!=◌, string_eq, nat_eq,
  filter, sorted, if◌then◌else◌,
}
use attention_sink.Prelude.Text.{text_leb}
use attention_sink.Domain.Errors.{
  Error, Result, ok, raise, persistence_error, concurrent_run_update, integrity_error,
}
use attention_sink.Pilot.Spending.{ModelUsage, merge_usage}
use attention_sink.Pilot.Snapshots.{RunStatus}
use attention_sink.Pilot.Records.{RunRecord}
use attention_sink.Persistence.Sql.{
  Action, pure, modify, asks, ensure, ◌>>=◌, ◌>>◌, transaction, on_integrity_error, find_row,
  update_rows, insert_row,
}
use attention_sink.Persistence.Database.{Database}

-- `if row is None: raise`
abbrev pub or_raise {ℓ} : {A : Type ℓ} → Error → Option A → Result A
or_raise e none = raise e
or_raise e (some a) = ok a

module _ {S : Type 0} where
  abbrev pub is_run : String → RunRecord S → Bool
  is_run run_id run = run.run_id == run_id

  abbrev pub find_run : String → Database S → Option (RunRecord S)
  find_run run_id db = find_row (is_run run_id) db.runs

  -- A child's row needs its run: `REFERENCES runs(run_id)`.
  abbrev pub references_run : String → Action (Database S) (Unit {0})
  references_run run_id = ensure (λ db. any (is_run run_id) db.runs) integrity_error

  abbrev pub set_runs : List (RunRecord S) → Action (Database S) (Unit {0})
  set_runs runs = modify λ db. record db { runs = runs }

  -- `UPDATE runs SET ... WHERE`
  abbrev pub change_run :
      (RunRecord S → Bool) → (RunRecord S → RunRecord S) → Action (Database S) (Unit {0})
  change_run p change = modify λ db. record db { runs = update_rows p change db.runs }

  -- Such an update, which raises unless it found its row.
  abbrev pub update_run :
      Error → (RunRecord S → Bool) → (RunRecord S → RunRecord S) → Action (Database S) (Unit {0})
  update_run e p change = ensure (λ db. any p db.runs) e >> change_run p change

  -- `get_run` behind an update, which raises where the run is gone.
  abbrev pub reload : String → Action (Database S) (RunRecord S)
  reload run_id = asks λ db. or_raise persistence_error (find_run run_id db)

  unfoldable pub create_run : RunRecord S → Action (Database S) (RunRecord S)
  unfolding transaction
  create_run run db = on_integrity_error persistence_error (
      transaction
        (do runs ← asks λ d. insert_row (is_run run.run_id) run d.runs; set_runs runs; pure run) db)

  -- Newest first, and then in the order of their identifiers.
  unfoldable pub list_runs : Database S → List (RunRecord S)
  list_runs db =
      sorted
        (λ a b.
          if a.created_at == b.created_at
          then text_leb a.run_id b.run_id
          else ltb b.created_at a.created_at)
        db.runs

  unfoldable pub update_run_status : ℕ → String → RunStatus → ℕ → Action (Database S) (RunRecord S)
  unfolding transaction
  update_run_status now run_id status version = do
    transaction (
        update_run concurrent_run_update (λ run. is_run run_id run && run.version == version)
          λ run. record run { status = status; version = run.version + 1; updated_at = now })
    reload run_id

  unfoldable pub set_paused : ℕ → String → Bool → Action (Database S) (RunRecord S)
  unfolding transaction
  set_paused now run_id paused = do
    transaction (
        update_run persistence_error (is_run run_id)
          λ run. record run { paused = paused; version = run.version + 1; updated_at = now })
    reload run_id

  -- `ON DELETE CASCADE` on every table but the token counts.
  abbrev pub cascade : String → Database S → Database S
  cascade run_id db = record db {
    runs = filter (λ r. r.run_id != run_id) db.runs;
    cycle_locks = filter (λ r. r.run_id != run_id) db.cycle_locks;
    prepared_cycles = filter (λ r. r.run_id != run_id) db.prepared_cycles;
    cycle_snapshots = filter (λ r. r.run_id != run_id) db.cycle_snapshots;
    arm_current_states = filter (λ r. r.run_id != run_id) db.arm_current_states;
    interviews = filter (λ r. r.run_id != run_id) db.interviews;
    metrics = filter (λ r. r.run_id != run_id) db.metrics;
    embeddings = filter (λ r. r.run_id != run_id) db.embeddings;
    analysis_status = filter (λ r. r.run_id != run_id) db.analysis_status;
    analysis_artifacts = filter (λ r. r.run_id != run_id) db.analysis_artifacts;
    export_manifests = filter (λ r. r.run_id != run_id) db.export_manifests;
  }

  unfoldable pub delete_run : String → Action (Database S) (Unit {0})
  unfolding transaction
  delete_run run_id = do run ← reload run_id; transaction (modify (cascade run_id))

  unfoldable pub add_usage : ℕ → String → ModelUsage → Action (Database S) (RunRecord S)
  unfolding transaction
  add_usage now run_id usage = do
    transaction (do
      run ← reload run_id
      change_run (is_run run_id)
          λ r. record r { usage = merge_usage run.usage usage; updated_at = now })
    reload run_id
