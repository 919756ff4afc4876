-- ===== src/Persistence/Store/Measurements.antt =====
-- packages/persistence/attention_sink/persistence/sqlite.py: interviews, metrics, documents, token counts and the
-- records of analyses and exports.
use attention_sink.Prelude.{
  ℕ, String, Bool, true, ◌&&◌, Option, none, some, List, [], ◌∷◌, ◌++◌, map, not, ltb, any, ◌==◌,
  ◌!=◌, string_eq, nat_eq, filter, sorted, if◌then◌else◌,
}
use attention_sink.Prelude.Text.{text_leb}
use attention_sink.Domain.Enums.{arm_value}
use attention_sink.Domain.Errors.{ok, raise, persistence_error}
use attention_sink.Domain.Ledger.{MetricEvidence}
use attention_sink.Domain.Runtime.{Host}
use attention_sink.Pilot.Snapshots.{Dump}
use attention_sink.Pilot.Records.{
  StoredInterview, seal_interview, AnalysisStatus, ExportManifestRecord,
}
use attention_sink.Persistence.Sql.{
  Action, pure, modify, lift, asks, ◌>>=◌, ◌>>◌, transaction, find_row, insert_row, upsert_row,
}
use attention_sink.Persistence.Database.{Database, InterviewRow, DocumentRow, TokenCountRow}
use attention_sink.Persistence.Store.Runs.{references_run}

abbrev pub is_interview : String → String → ℕ → InterviewRow → Bool
is_interview run_id arm_id cycle row =
    row.run_id == run_id && row.arm_id == arm_id && row.cycle == cycle

-- A row passes a filter that is not given.
abbrev pub matches_text : Option String → String → Bool
matches_text none value = true
matches_text (some wanted) value = value == wanted

abbrev pub matches_number : Option ℕ → ℕ → Bool
matches_number none value = true
matches_number (some wanted) value = value == wanted

abbrev interview_row : StoredInterview → InterviewRow
interview_row sealed = record {
  run_id = sealed.run_id;
  arm_id = arm_value sealed.arm_id;
  cycle = sealed.cycle;
  record_hash = sealed.record_hash;
  payload = sealed;
}

abbrev pub is_token_count : String → String → TokenCountRow → Bool
is_token_count counter_version text_hash row =
    row.counter_version == counter_version && row.text_hash == text_hash

module _ {S : Type 0} where
  -- `_interview`
  abbrev pub find_interview : String → String → ℕ → Database S → Option InterviewRow
  find_interview run_id arm_id cycle db = find_row (is_interview run_id arm_id cycle) db.interviews

  -- What is stored, given what stands there already.
  abbrev interview_found :
      StoredInterview → Option InterviewRow → Action (Database S) StoredInterview
  interview_found sealed (some existing) = lift (
      if existing.payload.record_hash != sealed.record_hash
      then raise persistence_error
      else ok existing.payload)
  interview_found sealed none = transaction (do
    references_run sealed.run_id
    rows ← asks λ db.
        insert_row (is_interview sealed.run_id (arm_value sealed.arm_id) sealed.cycle)
          (interview_row sealed) db.interviews
    modify λ db. record db { interviews = rows }
    pure sealed)

  unfoldable pub store_interview :
      ⦃host : Host⦄ ⦃dump : Dump StoredInterview⦄
      → StoredInterview
      → Action (Database S) StoredInterview
  unfolding transaction seal_interview
  store_interview interview db =
      let sealed = if interview.record_hash == "" then seal_interview interview else interview in
      interview_found sealed
        (find_interview sealed.run_id (arm_value sealed.arm_id) sealed.cycle db) db

  unfoldable pub get_interviews :
      String → Option ℕ → Option String → Database S → List StoredInterview
  get_interviews run_id cycle arm_id db =
      map (λ row. row.payload)
        (sorted
          (λ a b. if a.cycle == b.cycle then text_leb a.arm_id b.arm_id else ltb a.cycle b.cycle)
          (filter
            (λ row.
              row.run_id == run_id
              && matches_number cycle row.cycle
              && matches_text arm_id row.arm_id)
            db.interviews))

  unfoldable pub store_metric : MetricEvidence S → Action (Database S) (MetricEvidence S)
  unfolding transaction
  store_metric metric = do
    transaction (do
      references_run metric.run_id
      modify λ db. record db {
        metrics =
            upsert_row
              (λ row.
                row.run_id == metric.run_id
                && row.metric_name == metric.metric_name
                && row.arm_id == arm_value metric.arm_id
                && row.cycle == metric.cycle)
              (λ row. record row { value = metric.value; payload = metric })
              (record {
                run_id = metric.run_id;
                metric_name = metric.metric_name;
                arm_id = arm_value metric.arm_id;
                cycle = metric.cycle;
                value = metric.value;
                payload = metric;
              })
              db.metrics;
      })
    pure metric

  unfoldable pub store_embedding : String → String → String → Action (Database S) (Unit {0})
  unfolding transaction
  store_embedding run_id key payload = transaction (do
    references_run run_id
    modify λ db. record db {
      embeddings =
          upsert_row (λ row. row.run_id == run_id && row.key == key)
            (λ row. record row { payload = payload })
            (record { run_id = run_id; key = key; payload = payload }) db.embeddings;
    })

  abbrev pub get_embedding : String → String → Database S → Option DocumentRow
  get_embedding run_id key db =
      find_row (λ row. row.run_id == run_id && row.key == key) db.embeddings

  -- `ON CONFLICT DO NOTHING`
  unfoldable pub store_token_count : String → String → ℕ → Action (Database S) (Unit {0})
  unfolding transaction
  store_token_count counter_version text_hash tokens = transaction (
      modify λ db. record db {
        token_counts =
            if any (is_token_count counter_version text_hash) db.token_counts
            then db.token_counts
            else db.token_counts
              ++ record {
                counter_version = counter_version;
                text_hash = text_hash;
                tokens = tokens;
              }
                ∷ [];
      })

  abbrev pub get_token_count : String → String → Database S → Option TokenCountRow
  get_token_count counter_version text_hash db =
      find_row (is_token_count counter_version text_hash) db.token_counts

  unfoldable pub store_analysis_status : ℕ → AnalysisStatus → Action (Database S) AnalysisStatus
  unfolding transaction
  store_analysis_status now status = do
    transaction (do
      references_run status.run_id
      modify λ db. record db {
        analysis_status =
            upsert_row
              (λ row. row.run_id == status.run_id && row.analysis_name == status.analysis_name)
              (λ row. record row {
                metric_version = status.metric_version;
                completed_cycles = status.completed_cycles;
                updated_at = now;
              })
              (record status { updated_at = now }) db.analysis_status;
      })
    pure status

  unfoldable pub store_analysis_artifact : String → String → String → Action (Database S) (Unit {0})
  unfolding transaction
  store_analysis_artifact run_id name payload = transaction (do
    references_run run_id
    modify λ db. record db {
      analysis_artifacts =
          upsert_row (λ row. row.run_id == run_id && row.key == name)
            (λ row. record row { payload = payload })
            (record { run_id = run_id; key = name; payload = payload }) db.analysis_artifacts;
    })

  unfoldable pub store_export_manifest :
      ExportManifestRecord → Action (Database S) ExportManifestRecord
  unfolding transaction
  store_export_manifest manifest = do
    transaction (do
      references_run manifest.run_id
      modify λ db. record db {
        export_manifests =
            upsert_row (λ row. row.run_id == manifest.run_id && row.export_id == manifest.export_id)
              (λ row. record row { directory = manifest.directory; payload = manifest })
              (record {
                run_id = manifest.run_id;
                export_id = manifest.export_id;
                directory = manifest.directory;
                created_at = manifest.created_at;
                payload = manifest;
              })
              db.export_manifests;
      })
    pure manifest

  -- Newest first
  unfoldable pub list_export_manifests : String → Database S → List ExportManifestRecord
  list_export_manifests run_id db =
      map (λ row. row.payload)
        (sorted (λ a b. not (ltb a.created_at b.created_at))
          (filter (λ row. row.run_id == run_id) db.export_manifests))
