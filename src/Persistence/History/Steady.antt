-- ===== src/Persistence/History/Steady.antt =====
-- packages/persistence/attention_sink/persistence/sqlite.py: the operations that leave every run's history as it is.
use attention_sink.Prelude.{
  ℕ, ◌+◌, String, ◌≡◌, refl, ap, Bool, Option, none, some, ◌==◌, ◌&&◌, string_eq, nat_eq, arith,
}
use attention_sink.Domain.Enums.{ArmId}
use attention_sink.Domain.Ledger.{MetricEvidence}
use attention_sink.Domain.Runtime.{Host}
use attention_sink.Domain.State.{MemoryState}
use attention_sink.Pilot.Spending.{ModelUsage, merge_usage}
use attention_sink.Pilot.Snapshots.{RunStatus, Dump}
use attention_sink.Pilot.Records.{
  RunRecord, PreparedCycle, StoredInterview, AnalysisStatus, ExportManifestRecord,
}
use attention_sink.Persistence.Sql.{Action, modify, find_row}
use attention_sink.Persistence.Sql.Laws.{option_map, find_row-update_rows_map}
use attention_sink.Persistence.Database.{Database}
use attention_sink.Persistence.Store.Runs.{
  is_run, find_run, change_run, update_run_status, set_paused, add_usage,
}
use attention_sink.Persistence.Store.Locks.{acquire_cycle_lock, release_cycle_lock}
use attention_sink.Persistence.Store.Cycles.{store_prepared_cycle}
use attention_sink.Persistence.Store.Arms.{seed_arm_state}
use attention_sink.Persistence.Store.Measurements
use attention_sink.Persistence.History.{reached}

module _ {S : Type 0} where
  -- No run is created, removed or advanced, and no snapshot is written.
  abbrev pub Steady : Database S → Database S → Type 0
  Steady before after =
      ((run_id : String) → reached run_id after ≡ reached run_id before)
      × (after.cycle_snapshots ≡ before.cycle_snapshots)

  Steady-refl : (db : Database S) → Steady db db
  Steady-refl db = (λ run_id. refl, refl)

  -- An action that is steady whether it returns or raises.
  abbrev pub IsSteady : {A : Type 0} → Action (Database S) A → Type 0
  IsSteady m = (db : Database S) → Steady db (m db).1

  -- A change of other tables.
  pub same-IsSteady :
      (f : Database S → Database S)
      → ((db : Database S) → (f db).runs ≡ db.runs)
      → ((db : Database S) → (f db).cycle_snapshots ≡ db.cycle_snapshots)
      → IsSteady (modify f)
  same-IsSteady f runs snapshots db = (
    λ run_id.
        ap (λ rs. option_map (λ run. run.current_cycle) (find_row (is_run run_id) rs)) (runs db),
    snapshots db,
  )

  -- A change of the heads that moves no run and no cycle.
  change_run-IsSteady :
      (p : RunRecord S → Bool) (f : RunRecord S → RunRecord S)
      → ((r : RunRecord S) → (f r).run_id ≡ r.run_id)
      → ((r : RunRecord S) → (f r).current_cycle ≡ r.current_cycle)
      → IsSteady (change_run p f)
  change_run-IsSteady p f ids cycles db = (
    λ run_id.
        find_row-update_rows_map (is_run run_id) p f (λ run. run.current_cycle) db.runs
          (λ r. ap (λ id. id == run_id) (ids r)) cycles,
    refl,
  )

  pub update_run_status-IsSteady :
      (now : ℕ) (run_id : String) (status : RunStatus) (version : ℕ)
      → IsSteady (update_run_status now run_id status version)
  unfolding update_run_status
  update_run_status-IsSteady now run_id status version db =
      let moved =
        change_run-IsSteady (λ run. is_run run_id run && run.version == version)
          (λ run. record run { status = status; version = run.version + 1; updated_at = now })
          (λ r. refl) (λ r. refl) db in
      (λ id. ground (arith, moved.0 id), ground arith)

  pub set_paused-IsSteady :
      (now : ℕ) (run_id : String) (paused : Bool) → IsSteady (set_paused now run_id paused)
  unfolding set_paused
  set_paused-IsSteady now run_id paused db =
      let moved =
        change_run-IsSteady (is_run run_id)
          (λ run. record run { paused = paused; version = run.version + 1; updated_at = now })
          (λ r. refl) (λ r. refl) db in
      (λ id. ground (arith, moved.0 id), ground arith)

  -- The usage that was read, behind the change of a head that is there.
  add_usage-found :
      (now : ℕ) (run_id : String) (usage : ModelUsage) (db : Database S)
      (found : Option (RunRecord S))
      → find_run run_id db ≡ found
      → Steady db (add_usage now run_id usage db).1
  unfolding add_usage
  add_usage-found now run_id usage db none h = (λ id. ground arith, ground arith)
  add_usage-found now run_id usage db (some run) h =
      let moved =
        change_run-IsSteady (is_run run_id)
          (λ r. record r { usage = merge_usage run.usage usage; updated_at = now }) (λ r. refl)
          (λ r. refl) db in
      (λ id. ground (arith, moved.0 id), ground arith)

  pub add_usage-IsSteady :
      (now : ℕ) (run_id : String) (usage : ModelUsage) → IsSteady (add_usage now run_id usage)
  add_usage-IsSteady now run_id usage db =
      add_usage-found now run_id usage db (find_run run_id db) refl

  pub acquire_cycle_lock-IsSteady :
      (now : ℕ) (run_id : String) (cycle : ℕ) (token invocation_id : String) (ttl : ℕ)
      → IsSteady (acquire_cycle_lock now run_id cycle token invocation_id ttl)
  unfolding acquire_cycle_lock
  acquire_cycle_lock-IsSteady now run_id cycle token invocation_id ttl db =
      (λ id. ground arith, ground arith)

  pub release_cycle_lock-IsSteady :
      (run_id token : String) → IsSteady (release_cycle_lock run_id token)
  unfolding release_cycle_lock
  release_cycle_lock-IsSteady run_id token db = (λ id. ground arith, ground arith)

  pub store_metric-IsSteady :
      (metric : MetricEvidence S) → IsSteady (Measurements.store_metric metric)
  unfolding Measurements.store_metric
  store_metric-IsSteady metric db = (λ id. ground arith, ground arith)

  pub store_embedding-IsSteady :
      (run_id key payload : String) → IsSteady (Measurements.store_embedding run_id key payload)
  unfolding Measurements.store_embedding
  store_embedding-IsSteady run_id key payload db = (λ id. ground arith, ground arith)

  pub store_token_count-IsSteady :
      (version text_hash : String) (tokens : ℕ)
      → IsSteady (Measurements.store_token_count version text_hash tokens)
  unfolding Measurements.store_token_count
  store_token_count-IsSteady version text_hash tokens db = (λ id. ground arith, ground arith)

  pub store_analysis_status-IsSteady :
      (now : ℕ) (status : AnalysisStatus) → IsSteady (Measurements.store_analysis_status now status)
  unfolding Measurements.store_analysis_status
  store_analysis_status-IsSteady now status db = (λ id. ground arith, ground arith)

  pub store_analysis_artifact-IsSteady :
      (run_id name payload : String)
      → IsSteady (Measurements.store_analysis_artifact run_id name payload)
  unfolding Measurements.store_analysis_artifact
  store_analysis_artifact-IsSteady run_id name payload db = (λ id. ground arith, ground arith)

  pub store_export_manifest-IsSteady :
      (manifest : ExportManifestRecord) → IsSteady (Measurements.store_export_manifest manifest)
  unfolding Measurements.store_export_manifest
  store_export_manifest-IsSteady manifest db = (λ id. ground arith, ground arith)

  pub store_interview-IsSteady :
      ⦃host : Host⦄ ⦃dump : Dump StoredInterview⦄ (interview : StoredInterview)
      → IsSteady (Measurements.store_interview interview)
  unfolding Measurements.store_interview
  store_interview-IsSteady interview db = (λ id. ground arith, ground arith)

  pub store_prepared_cycle-IsSteady :
      ⦃host : Host⦄ ⦃dump : Dump (PreparedCycle S)⦄ (prepared : PreparedCycle S)
      → IsSteady (store_prepared_cycle prepared)
  unfolding store_prepared_cycle
  store_prepared_cycle-IsSteady prepared db = (λ id. ground arith, ground arith)

  pub seed_arm_state-IsSteady :
      ⦃host : Host⦄ (run_id : String) (arm_id : ArmId) (state : MemoryState S)
      → IsSteady (seed_arm_state run_id arm_id state)
  unfolding seed_arm_state
  seed_arm_state-IsSteady run_id arm_id state db = (λ id. ground arith, ground arith)
