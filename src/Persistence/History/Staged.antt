-- ===== src/Persistence/History/Staged.antt =====
-- packages/persistence/attention_sink/persistence/sqlite.py: every staged cycle in the store holds a snapshot.
use attention_sink.Prelude.{
  ℕ, String, ◌≡◌, refl, sym, Bool, List, [], ◌∷◌, ◌++◌, nat_eq, string_eq, some, none, Option, All,
  All-append, All-filter, any, Bool-cases, Option-cases, ◌!=◌, inl, inr, ◌⊎◌, arith,
}
use mathlib.Core.Path.{subst}
use attention_sink.Domain.Enums.{ArmId}
use attention_sink.Domain.Errors.{ok}
use attention_sink.Domain.Ledger.{MetricEvidence}
use attention_sink.Domain.Runtime.{Host}
use attention_sink.Domain.State.{MemoryState}
use attention_sink.Pilot.Spending.{ModelUsage}
use attention_sink.Pilot.Snapshots.{ArmCycleSnapshot, RunStatus, Dump}
use attention_sink.Pilot.Records.{
  RunRecord, PreparedCycle, prepared_check, StoredInterview, AnalysisStatus, ExportManifestRecord,
}
use attention_sink.Persistence.Sql.{Action, find_row, update_rows, transaction}
use attention_sink.Persistence.Database.{Database, PreparedRow}
use attention_sink.Persistence.Store.Runs.{
  is_run, find_run, create_run, delete_run, update_run_status, set_paused, add_usage,
}
use attention_sink.Persistence.Store.Locks.{acquire_cycle_lock, release_cycle_lock}
use attention_sink.Persistence.Store.Cycles.{
  store_prepared_cycle, prepared_row, sealed_of, store_found,
}
use attention_sink.Persistence.Store.Arms.{seed_arm_state}
use attention_sink.Persistence.Store.Measurements
use attention_sink.Persistence.Store.Checks.{is_prepared, find_prepared}
use attention_sink.Persistence.History.{HasSnapshot, IsStaged}

pub find_row-All :
    {R : Type 0} (P : R → Type 0) (q : R → Bool) (rows : List R) (r : R)
    → All P rows
    → find_row q rows ≡ some r
    → P r
find_row-All P q [] r all h = cc
find_row-All P q (x ∷ rows) r all h = ground (arith, find_row-All P q rows r all.1)

pub update_rows-All :
    {R : Type 0} (P : R → Type 0) (q : R → Bool) (f : R → R) (rows : List R)
    → ((r : R) → P r → P (f r))
    → All P rows
    → All P (update_rows q f rows)
update_rows-All P q f [] keep all = tt
update_rows-All P q f (r ∷ rows) keep all =
    ground (arith, keep r all.0, update_rows-All P q f rows keep all.1)

module _ {S : Type 0} where
  -- The action leaves the staged cycles alone.
  abbrev pub KeepsStaged : {A : Type 0} → Action (Database S) A → Type 0
  KeepsStaged m = (db : Database S) → (m db).1.prepared_cycles ≡ db.prepared_cycles

  pub create_run-KeepsStaged : (run : RunRecord S) → KeepsStaged (create_run run)
  unfolding create_run
  create_run-KeepsStaged run db = ground arith

  pub update_run_status-KeepsStaged :
      (now : ℕ) (run_id : String) (status : RunStatus) (version : ℕ)
      → KeepsStaged (update_run_status now run_id status version)
  unfolding update_run_status
  update_run_status-KeepsStaged now run_id status version db = ground arith

  pub set_paused-KeepsStaged :
      (now : ℕ) (run_id : String) (paused : Bool) → KeepsStaged (set_paused now run_id paused)
  unfolding set_paused
  set_paused-KeepsStaged now run_id paused db = ground arith

  pub add_usage-KeepsStaged :
      (now : ℕ) (run_id : String) (usage : ModelUsage) → KeepsStaged (add_usage now run_id usage)
  unfolding add_usage
  add_usage-KeepsStaged now run_id usage db = ground arith

  pub acquire_cycle_lock-KeepsStaged :
      (now : ℕ) (run_id : String) (cycle : ℕ) (token invocation_id : String) (ttl : ℕ)
      → KeepsStaged (acquire_cycle_lock now run_id cycle token invocation_id ttl)
  unfolding acquire_cycle_lock
  acquire_cycle_lock-KeepsStaged now run_id cycle token invocation_id ttl db = ground arith

  pub release_cycle_lock-KeepsStaged :
      (run_id token : String) → KeepsStaged (release_cycle_lock run_id token)
  unfolding release_cycle_lock
  release_cycle_lock-KeepsStaged run_id token db = ground arith

  pub seed_arm_state-KeepsStaged :
      ⦃host : Host⦄ (run_id : String) (arm_id : ArmId) (state : MemoryState S)
      → KeepsStaged (seed_arm_state run_id arm_id state)
  unfolding seed_arm_state
  seed_arm_state-KeepsStaged run_id arm_id state db = ground arith

  pub store_interview-KeepsStaged :
      ⦃host : Host⦄ ⦃dump : Dump StoredInterview⦄ (interview : StoredInterview)
      → KeepsStaged (Measurements.store_interview interview)
  unfolding Measurements.store_interview
  store_interview-KeepsStaged interview db = ground arith

  pub store_metric-KeepsStaged :
      (metric : MetricEvidence S) → KeepsStaged (Measurements.store_metric metric)
  unfolding Measurements.store_metric
  store_metric-KeepsStaged metric db = ground arith

  pub store_embedding-KeepsStaged :
      (run_id key payload : String) → KeepsStaged (Measurements.store_embedding run_id key payload)
  unfolding Measurements.store_embedding
  store_embedding-KeepsStaged run_id key payload db = ground arith

  pub store_token_count-KeepsStaged :
      (version text_hash : String) (tokens : ℕ)
      → KeepsStaged (Measurements.store_token_count version text_hash tokens)
  unfolding Measurements.store_token_count
  store_token_count-KeepsStaged version text_hash tokens db = ground arith

  pub store_analysis_status-KeepsStaged :
      (now : ℕ) (status : AnalysisStatus)
      → KeepsStaged (Measurements.store_analysis_status now status)
  unfolding Measurements.store_analysis_status
  store_analysis_status-KeepsStaged now status db = ground arith

  pub store_analysis_artifact-KeepsStaged :
      (run_id name payload : String)
      → KeepsStaged (Measurements.store_analysis_artifact run_id name payload)
  unfolding Measurements.store_analysis_artifact
  store_analysis_artifact-KeepsStaged run_id name payload db = ground arith

  pub store_export_manifest-KeepsStaged :
      (manifest : ExportManifestRecord) → KeepsStaged (Measurements.store_export_manifest manifest)
  unfolding Measurements.store_export_manifest
  store_export_manifest-KeepsStaged manifest db = ground arith

  pub KeepsStaged-IsStaged :
      {A : Type 0} (m : Action (Database S) A) (db : Database S)
      → KeepsStaged m
      → IsStaged db
      → IsStaged (m db).1
  KeepsStaged-IsStaged m db keeps staged =
      subst (All (λ (row : PreparedRow S). HasSnapshot row.payload.snapshots)) (sym (keeps db))
        staged

  checked-HasSnapshot :
      (p : PreparedCycle S) (ss : List (ArmCycleSnapshot S))
      → p.snapshots ≡ ss
      → prepared_check p ≡ ok tt
      → HasSnapshot ss
  unfolding prepared_check
  checked-HasSnapshot p [] e h = absurd (ground (arith, e))
  checked-HasSnapshot p (s ∷ ss) e h = (s, ss, refl)

  module _ ⦃host : Host⦄ ⦃dump : Dump (PreparedCycle S)⦄ where
    sealed_of-snapshots : (p : PreparedCycle S) → (sealed_of p).snapshots ≡ p.snapshots
    unfolding sealed_of
    sealed_of-snapshots p = ground arith

    -- Nothing is stored, or the sealed cycle is.
    store_found-rows :
        (sealed : PreparedCycle S) (found : Option (PreparedRow S)) (db : Database S)
        → ((store_found sealed found db).1.prepared_cycles ≡ db.prepared_cycles)
          ⊎ ((store_found sealed found db).1.prepared_cycles
              ≡ db.prepared_cycles ++ prepared_row sealed ∷ [])
    unfolding transaction
    store_found-rows sealed (some existing) db = inl refl
    store_found-rows sealed none db = elim (Bool-cases (any (is_run sealed.run_id) db.runs)) [
      | inr unknown ↦ inl (rw unknown refl)
      | inl known ↦
          elim (Bool-cases (any (is_prepared sealed.run_id sealed.cycle) db.prepared_cycles)) [
            | inl taken ↦ inl (rw (known, taken) refl)
            | inr free ↦ inr (rw (known, free) refl)
          ]
    ]

    -- What is stored has the snapshots that were given.
    store_prepared_cycle-rows :
        (prepared : PreparedCycle S) (db : Database S)
        → ((store_prepared_cycle prepared db).1.prepared_cycles ≡ db.prepared_cycles)
          ⊎ ((store_prepared_cycle prepared db).1.prepared_cycles
              ≡ db.prepared_cycles ++ prepared_row (sealed_of prepared) ∷ [])
    unfolding store_prepared_cycle
    store_prepared_cycle-rows prepared db =
        let sealed = sealed_of prepared in
        store_found-rows sealed (find_prepared sealed.run_id sealed.cycle db) db

    pub store_prepared_cycle-IsStaged :
        (prepared : PreparedCycle S) (db : Database S)
        → prepared_check prepared ≡ ok tt
        → IsStaged db
        → IsStaged (store_prepared_cycle prepared db).1
    store_prepared_cycle-IsStaged prepared db checked staged =
        elim (store_prepared_cycle-rows prepared db) [
          | inl same ↦
              subst (All (λ (row : PreparedRow S). HasSnapshot row.payload.snapshots)) (sym same)
                staged
          | inr grown ↦
              subst (All (λ (r : PreparedRow S). HasSnapshot r.payload.snapshots)) (sym grown) (
                All-append (λ (r : PreparedRow S). HasSnapshot r.payload.snapshots)
                  db.prepared_cycles (prepared_row (sealed_of prepared) ∷ []) staged
                  (
                    checked-HasSnapshot prepared (sealed_of prepared).snapshots
                        (sym (sealed_of-snapshots prepared)) checked,
                    tt,
                  ))
        ]

  pub delete_run-IsStaged :
      (run_id : String) (db : Database S) → IsStaged db → IsStaged (delete_run run_id db).1
  unfolding delete_run
  delete_run-IsStaged run_id db staged = elim (Option-cases (find_run run_id db)) [
    | inl missing ↦ rw missing staged
    | inr (run, found) ↦ rw found (
        All-filter (λ (r : PreparedRow S). HasSnapshot r.payload.snapshots)
          (λ r. r.run_id != run_id) db.prepared_cycles staged)
  ]
