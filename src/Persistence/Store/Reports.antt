-- ===== src/Persistence/Store/Reports.antt =====
-- packages/persistence/attention_sink/persistence/sqlite.py: the reads of metrics, analyses and exports.
use attention_sink.Prelude.{
  ℕ, String, Bool, ◌&&◌, Option, List, map, ltb, ◌==◌, string_eq, nat_eq, filter, sorted,
  if◌then◌else◌,
}
use attention_sink.Prelude.Text.{text_leb}
use attention_sink.Domain.Ledger.{MetricEvidence}
use attention_sink.Pilot.Records.{AnalysisStatus}
use attention_sink.Persistence.Sql.{find_row}
use attention_sink.Persistence.Database.{Database, MetricRow, DocumentRow, ManifestRow}
use attention_sink.Persistence.Store.Measurements.{matches_text, matches_number}

module _ {S : Type 0} where
  -- `ORDER BY metric_name, cycle, arm_id`
  abbrev metric_leb : MetricRow S → MetricRow S → Bool
  metric_leb a b =
      if a.metric_name == b.metric_name
      then (if a.cycle == b.cycle then text_leb a.arm_id b.arm_id else ltb a.cycle b.cycle)
      else text_leb a.metric_name b.metric_name

  unfoldable pub get_metrics :
      String → Option String → Option String → Option ℕ → Database S → List (MetricEvidence S)
  get_metrics run_id metric_name arm_id cycle db =
      map (λ row. row.payload)
        (sorted metric_leb (
          filter
            (λ row.
              row.run_id == run_id
              && matches_text metric_name row.metric_name
              && matches_text arm_id row.arm_id
              && matches_number cycle row.cycle)
            db.metrics))

  abbrev pub get_analysis_status : String → String → Database S → Option AnalysisStatus
  get_analysis_status run_id analysis_name db =
      find_row (λ row. row.run_id == run_id && row.analysis_name == analysis_name)
        db.analysis_status

  abbrev pub get_analysis_artifact : String → String → Database S → Option DocumentRow
  get_analysis_artifact run_id name db =
      find_row (λ row. row.run_id == run_id && row.key == name) db.analysis_artifacts

  abbrev pub get_export_manifest : String → String → Database S → Option ManifestRow
  get_export_manifest run_id export_id db =
      find_row (λ row. row.run_id == run_id && row.export_id == export_id) db.export_manifests
