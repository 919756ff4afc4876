-- ===== src/Persistence/Database.antt =====
-- packages/persistence/attention_sink/persistence/migrations.py: the tables. A payload is the record itself, since
-- reading back what was dumped gives it again; the columns of times that nothing reads back are left out.
use attention_sink.Prelude.{ℕ, String, Bool, List, []}
use attention_sink.Domain.State.{MemoryState}
use attention_sink.Domain.Ledger.{MetricEvidence}
use attention_sink.Pilot.Snapshots.{ArmCycleSnapshot}
use attention_sink.Pilot.Records.{
  RunRecord, CycleLock, PreparedCycle, StoredInterview, AnalysisStatus, ExportManifestRecord,
}

pub record PreparedRow (S : Type 0) : Type 0 where
  pub run_id : String
  pub cycle : ℕ
  pub content_hash : String
  pub invocation_id : String
  pub committed : Bool
  pub payload : PreparedCycle S

pub record SnapshotRow (S : Type 0) : Type 0 where
  pub run_id : String
  pub arm_id : String
  pub cycle : ℕ
  pub snapshot_hash : String
  pub payload : ArmCycleSnapshot S

pub record StateRow (S : Type 0) : Type 0 where
  pub run_id : String
  pub arm_id : String
  pub cycle : ℕ
  pub state_hash : String
  pub payload : MemoryState S

pub record InterviewRow : Type 0 where
  pub run_id : String
  pub arm_id : String
  pub cycle : ℕ
  pub record_hash : String
  pub payload : StoredInterview

pub record MetricRow (S : Type 0) : Type 0 where
  pub run_id : String
  pub metric_name : String
  pub arm_id : String
  pub cycle : ℕ
  pub value : S
  pub payload : MetricEvidence S

-- An embedding or an artifact, under a key of its run, as JSON text.
pub record DocumentRow : Type 0 where
  pub run_id : String
  pub key : String
  pub payload : String

pub record TokenCountRow : Type 0 where
  pub counter_version : String
  pub text_hash : String
  pub tokens : ℕ

pub record ManifestRow : Type 0 where
  pub run_id : String
  pub export_id : String
  pub directory : String
  pub created_at : ℕ
  pub payload : ExportManifestRecord

pub record Database (S : Type 0) : Type 0 where
  pub runs : List (RunRecord S)
  pub cycle_locks : List CycleLock
  pub prepared_cycles : List (PreparedRow S)
  pub cycle_snapshots : List (SnapshotRow S)
  pub arm_current_states : List (StateRow S)
  pub interviews : List InterviewRow
  pub metrics : List (MetricRow S)
  pub embeddings : List DocumentRow
  pub token_counts : List TokenCountRow
  pub analysis_status : List AnalysisStatus
  pub analysis_artifacts : List DocumentRow
  pub export_manifests : List ManifestRow

abbrev pub empty_database : {S : Type 0} → Database S
empty_database = record {
  runs = [];
  cycle_locks = [];
  prepared_cycles = [];
  cycle_snapshots = [];
  arm_current_states = [];
  interviews = [];
  metrics = [];
  embeddings = [];
  token_counts = [];
  analysis_status = [];
  analysis_artifacts = [];
  export_manifests = [];
}
