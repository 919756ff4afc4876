-- ===== src/Persistence/History/Steps.antt =====
-- packages/persistence/attention_sink/persistence/sqlite.py: any sequence of operations, each of which returns or
-- raises.
use attention_sink.Prelude.{ℕ, String, ◌≡◌, sym, Bool, true}
use mathlib.Core.Path.{subst}
use attention_sink.Domain.Enums.{ArmId}
use attention_sink.Domain.Errors.{ok, Result}
use attention_sink.Domain.Ledger.{MetricEvidence}
use attention_sink.Domain.Runtime.{Host}
use attention_sink.Domain.State.{MemoryState}
use attention_sink.Pilot.Spending.{ModelUsage}
use attention_sink.Pilot.Snapshots.{RunStatus, Dump}
use attention_sink.Pilot.Records.{
  RunRecord, PreparedCycle, prepared_check, StoredInterview, AnalysisStatus, ExportManifestRecord,
}
use attention_sink.Persistence.Database.{Database, PreparedRow}
use attention_sink.Persistence.Store.Runs
use attention_sink.Persistence.Store.Locks
use attention_sink.Persistence.Store.Checks.{is_prepared}
use attention_sink.Persistence.Store.Cycles
use attention_sink.Persistence.Store.Arms
use attention_sink.Persistence.Store.Measurements
use attention_sink.Persistence.Commit.Atomic.{Ends, committed, refused, clashed, commit_cycle-Ends}
use attention_sink.Persistence.History.{HasSnapshot, IsStaged, Moves}
use attention_sink.Persistence.History.Steady
use attention_sink.Persistence.History.Moved.{Steady-Moves, create_run-Moves, delete_run-Moves}
use attention_sink.Persistence.History.Advanced.{commit_cycle-Moves}
use attention_sink.Persistence.History.Staged.{
  find_row-All, update_rows-All, KeepsStaged-IsStaged, store_prepared_cycle-IsStaged,
  delete_run-IsStaged,
}
use attention_sink.Persistence.History.Staged

module _ {S : Type 0} ⦃host : Host⦄ ⦃dump : Dump (PreparedCycle S)⦄
    ⦃interviews : Dump StoredInterview⦄ where
  -- One operation. A run is created at cycle 0, as the service creates it, and a staged cycle is one that its
  -- constructor accepted.
  pub data Step (db : Database S) : Database S → Type 0 where
    created : (run : RunRecord S) → run.current_cycle ≡ 0 → Step db (Runs.create_run run db).1
    status_updated :
        (now : ℕ) (run_id : String) (status : RunStatus) (version : ℕ)
        → Step db (Runs.update_run_status now run_id status version db).1
    paused :
        (now : ℕ) (run_id : String) (is_paused : Bool)
        → Step db (Runs.set_paused now run_id is_paused db).1
    deleted : (run_id : String) → Step db (Runs.delete_run run_id db).1
    usage_added :
        (now : ℕ) (run_id : String) (usage : ModelUsage)
        → Step db (Runs.add_usage now run_id usage db).1
    acquired :
        (now : ℕ) (run_id : String) (cycle : ℕ) (token invocation_id : String) (ttl : ℕ)
        → Step db (Locks.acquire_cycle_lock now run_id cycle token invocation_id ttl db).1
    released : (run_id token : String) → Step db (Locks.release_cycle_lock run_id token db).1
    staged :
        (prepared : PreparedCycle S)
        → prepared_check prepared ≡ ok tt
        → Step db (Cycles.store_prepared_cycle prepared db).1
    commit :
        (now : ℕ) (run_id : String) (cycle : ℕ) (token content_hash : String) (version : ℕ)
        → Step db (Cycles.commit_cycle now run_id cycle token content_hash version db).1
    seeded :
        (run_id : String) (arm_id : ArmId) (state : MemoryState S)
        → Step db (Arms.seed_arm_state run_id arm_id state db).1
    interviewed :
        (interview : StoredInterview) → Step db (Measurements.store_interview interview db).1
    measured : (metric : MetricEvidence S) → Step db (Measurements.store_metric metric db).1
    embedded :
        (run_id key payload : String)
        → Step db (Measurements.store_embedding run_id key payload db).1
    token_counted :
        (version text_hash : String) (tokens : ℕ)
        → Step db (Measurements.store_token_count version text_hash tokens db).1
    analysed :
        (now : ℕ) (status : AnalysisStatus)
        → Step db (Measurements.store_analysis_status now status db).1
    documented :
        (run_id name payload : String)
        → Step db (Measurements.store_analysis_artifact run_id name payload db).1
    exported :
        (manifest : ExportManifestRecord)
        → Step db (Measurements.store_export_manifest manifest db).1

  pub data Reach (db : Database S) : Database S → Type 0 where
    here : Reach db db
    next : {mid after : Database S} → Reach db mid → Step mid after → Reach db after

  committed-IsStaged :
      (now : ℕ) (run_id : String) (cycle : ℕ) (token content_hash : String) (version : ℕ)
      (db : Database S) (out : Result (RunRecord S) × Database S)
      → IsStaged db
      → Ends now run_id cycle token content_hash version db out
      → IsStaged out.1
  committed-IsStaged now run_id cycle token content_hash version db out all_staged
        (committed run row c fit e) =
      subst (λ (o : Result (RunRecord S) × Database S). IsStaged o.1) (sym e)
        (update_rows-All (λ (r : PreparedRow S). HasSnapshot r.payload.snapshots)
          (is_prepared run_id cycle) (λ r. record r { committed = true }) db.prepared_cycles
          (λ r h. h) all_staged)
  committed-IsStaged now run_id cycle token content_hash version db out all_staged
        (refused error checks e) =
      subst (λ (o : Result (RunRecord S) × Database S). IsStaged o.1) (sym e) all_staged
  committed-IsStaged now run_id cycle token content_hash version db out all_staged
        (clashed run row c clash e) =
      subst (λ (o : Result (RunRecord S) × Database S). IsStaged o.1) (sym e) all_staged

  pub Step-IsStaged :
      {before after : Database S} → Step before after → IsStaged before → IsStaged after
  Step-IsStaged {before} (created run start) h =
      KeepsStaged-IsStaged (Runs.create_run run) before (Staged.create_run-KeepsStaged run) h
  Step-IsStaged {before} (status_updated now run_id status version) h =
      KeepsStaged-IsStaged (Runs.update_run_status now run_id status version) before
        (Staged.update_run_status-KeepsStaged now run_id status version) h
  Step-IsStaged {before} (paused now run_id is_paused) h =
      KeepsStaged-IsStaged (Runs.set_paused now run_id is_paused) before
        (Staged.set_paused-KeepsStaged now run_id is_paused) h
  Step-IsStaged {before} (deleted run_id) h = delete_run-IsStaged run_id before h
  Step-IsStaged {before} (usage_added now run_id usage) h =
      KeepsStaged-IsStaged (Runs.add_usage now run_id usage) before
        (Staged.add_usage-KeepsStaged now run_id usage) h
  Step-IsStaged {before} (acquired now run_id cycle token invocation_id ttl) h =
      KeepsStaged-IsStaged (Locks.acquire_cycle_lock now run_id cycle token invocation_id ttl)
        before (Staged.acquire_cycle_lock-KeepsStaged now run_id cycle token invocation_id ttl) h
  Step-IsStaged {before} (released run_id token) h =
      KeepsStaged-IsStaged (Locks.release_cycle_lock run_id token) before
        (Staged.release_cycle_lock-KeepsStaged run_id token) h
  Step-IsStaged {before} (staged prepared checked) h =
      store_prepared_cycle-IsStaged prepared before checked h
  Step-IsStaged {before} (commit now run_id cycle token content_hash version) h =
      committed-IsStaged now run_id cycle token content_hash version before
        (Cycles.commit_cycle now run_id cycle token content_hash version before) h
        (commit_cycle-Ends now run_id cycle token content_hash version before)
  Step-IsStaged {before} (seeded run_id arm_id state) h =
      KeepsStaged-IsStaged (Arms.seed_arm_state run_id arm_id state) before
        (Staged.seed_arm_state-KeepsStaged run_id arm_id state) h
  Step-IsStaged {before} (interviewed interview) h =
      KeepsStaged-IsStaged (Measurements.store_interview interview) before
        (Staged.store_interview-KeepsStaged interview) h
  Step-IsStaged {before} (measured metric) h =
      KeepsStaged-IsStaged (Measurements.store_metric metric) before
        (Staged.store_metric-KeepsStaged metric) h
  Step-IsStaged {before} (embedded run_id key payload) h =
      KeepsStaged-IsStaged (Measurements.store_embedding run_id key payload) before
        (Staged.store_embedding-KeepsStaged run_id key payload) h
  Step-IsStaged {before} (token_counted version text_hash tokens) h =
      KeepsStaged-IsStaged (Measurements.store_token_count version text_hash tokens) before
        (Staged.store_token_count-KeepsStaged version text_hash tokens) h
  Step-IsStaged {before} (analysed now status) h =
      KeepsStaged-IsStaged (Measurements.store_analysis_status now status) before
        (Staged.store_analysis_status-KeepsStaged now status) h
  Step-IsStaged {before} (documented run_id name payload) h =
      KeepsStaged-IsStaged (Measurements.store_analysis_artifact run_id name payload) before
        (Staged.store_analysis_artifact-KeepsStaged run_id name payload) h
  Step-IsStaged {before} (exported manifest) h =
      KeepsStaged-IsStaged (Measurements.store_export_manifest manifest) before
        (Staged.store_export_manifest-KeepsStaged manifest) h

  -- In a store whose staged cycles each hold a snapshot, every operation, whether it returns or raises,
  -- where a run is created at cycle 0 and what is staged passed its constructor, does one of four things
  -- to the history of a run: it leaves the cycle reached and all snapshots alone; it begins the run at
  -- cycle 0; it advances the run by one cycle, with snapshots of that cycle and no change to those that
  -- are there; or it ends the run and all its snapshots.
  pub Step-Moves :
      {before after : Database S} (run_id : String)
      → IsStaged before
      → Step before after
      → Moves run_id before after
  Step-Moves {before} id h (created run start) = create_run-Moves run before id start
  Step-Moves {before} id h (status_updated now run_id status version) =
      Steady-Moves id before _ (Steady.update_run_status-IsSteady now run_id status version before)
  Step-Moves {before} id h (paused now run_id is_paused) =
      Steady-Moves id before _ (Steady.set_paused-IsSteady now run_id is_paused before)
  Step-Moves {before} id h (deleted run_id) = delete_run-Moves run_id before id
  Step-Moves {before} id h (usage_added now run_id usage) =
      Steady-Moves id before _ (Steady.add_usage-IsSteady now run_id usage before)
  Step-Moves {before} id h (acquired now run_id cycle token invocation_id ttl) =
      Steady-Moves id before _
        (Steady.acquire_cycle_lock-IsSteady now run_id cycle token invocation_id ttl before)
  Step-Moves {before} id h (released run_id token) =
      Steady-Moves id before _ (Steady.release_cycle_lock-IsSteady run_id token before)
  Step-Moves {before} id h (staged prepared checked) =
      Steady-Moves id before _ (Steady.store_prepared_cycle-IsSteady prepared before)
  Step-Moves {before} id h (commit now run_id cycle token content_hash version) =
      commit_cycle-Moves now run_id cycle token content_hash version before id (λ row found.
        find_row-All (λ (r : PreparedRow S). HasSnapshot r.payload.snapshots)
          (is_prepared run_id cycle) before.prepared_cycles row h found)
  Step-Moves {before} id h (seeded run_id arm_id state) =
      Steady-Moves id before _ (Steady.seed_arm_state-IsSteady run_id arm_id state before)
  Step-Moves {before} id h (interviewed interview) =
      Steady-Moves id before _ (Steady.store_interview-IsSteady interview before)
  Step-Moves {before} id h (measured metric) =
      Steady-Moves id before _ (Steady.store_metric-IsSteady metric before)
  Step-Moves {before} id h (embedded run_id key payload) =
      Steady-Moves id before _ (Steady.store_embedding-IsSteady run_id key payload before)
  Step-Moves {before} id h (token_counted version text_hash tokens) =
      Steady-Moves id before _ (Steady.store_token_count-IsSteady version text_hash tokens before)
  Step-Moves {before} id h (analysed now status) =
      Steady-Moves id before _ (Steady.store_analysis_status-IsSteady now status before)
  Step-Moves {before} id h (documented run_id name payload) =
      Steady-Moves id before _ (Steady.store_analysis_artifact-IsSteady run_id name payload before)
  Step-Moves {before} id h (exported manifest) =
      Steady-Moves id before _ (Steady.store_export_manifest-IsSteady manifest before)
