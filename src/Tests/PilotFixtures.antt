-- ===== src/Tests/PilotFixtures.antt =====
-- A run of one arm for the tests: its configuration, models that always answer, and a store that holds a staged cycle.
use attention_sink.Prelude.{ℕ, false, true, none, some, [], ◌∷◌}
use attention_sink.Domain.Enums.{arm_fifo, arm_value}
use attention_sink.Domain.Errors.{ok}
use attention_sink.Gateway.Observability.{writer, success, CallMetadata}
use attention_sink.Pilot.Spending.{ModelCallLimits, ModelUsage, fresh_budget}
use attention_sink.Pilot.Configuration.{
  PilotRunConfiguration, local_fixture, claimed_validated, ModelSpec,
}
use attention_sink.Pilot.Snapshots.{ArmCycleSnapshot, StimulusRecord, Dump, initialized}
use attention_sink.Pilot.RunSnapshots.{RunSnapshot}
use attention_sink.Pilot.Records.{RunRecord, CycleLock, PreparedCycle, StoredInterview}
use attention_sink.Pilot.Engine.State.{Gateway, PilotEngine}
use attention_sink.Persistence.Database.{Database, PreparedRow, empty_database}
use attention_sink.Tests.Fixtures.{three}

instance abbrev pub snapshot_text : Dump (ArmCycleSnapshot ℕ)
snapshot_text = record { canonical_json = λ s. s.journal_entry }

instance abbrev pub run_text : Dump (RunSnapshot ℕ)
run_text = record { canonical_json = λ s. s.configuration.run_id }

instance abbrev pub prepared_text : Dump (PreparedCycle ℕ)
prepared_text = record { canonical_json = λ p. p.run_id }

instance abbrev pub interview_text : Dump StoredInterview
interview_text = record { canonical_json = λ i. i.run_id }

abbrev pub limits : ModelCallLimits
limits = record {
  writer_calls_per_cycle = 6;
  summary_calls_per_cycle = 2;
  token_count_calls_per_cycle = 6;
  evaluator_calls_per_cycle = 0;
  interview_calls_per_cycle = 0;
  interview_calls_per_checkpoint = 6;
  max_model_calls_per_run = 100;
}

abbrev pub no_usage : ModelUsage
no_usage = record {
  calls_by_role = [];
  ledger = [];
  total_calls = 0;
  failed_calls = 0;
  simulated_calls = 0;
  input_tokens = 0;
  output_tokens = 0;
  retries = 0;
}

abbrev fixture_model : ModelSpec
fixture_model = record { model_id = "fixture"; simulated = true }

abbrev pub configuration : PilotRunConfiguration ℕ
configuration = record {
  run_id = "run-1";
  run_kind = local_fixture;
  protocol_version = "p1";
  interview_version = "i1";
  maximum_cycles = 30;
  checkpoint_cycles = 10 ∷ [];
  arms = arm_fifo ∷ [];
  memory_budget_tokens = 60;
  counter_version = "heuristic-v1";
  token_count_source = "heuristic";
  writer_model = fixture_model;
  embedding_model = fixture_model;
  writer_prompt_version = "w1";
  summary_prompt_version = "s1";
  heavy_hitter_citation_decay = 1;
  heavy_hitter_recency_reserve = 1;
  pinned_origin_memory_id = "sink-m0000";
  random_seed = "seed-0001";
  dreamer_target_summary_tokens = 20;
  dreamer_safety_margin_tokens = 0;
  dreamer_min_sources = 2;
  dreamer_fallback_rule = "fifo";
  citation_mode = claimed_validated;
  model_call_limits = limits;
  max_parallel_model_calls = 1;
}

abbrev pub metadata : CallMetadata
metadata = record {
  role = writer;
  outcome = success;
  retry_count = 0;
  simulated = true;
  input_tokens = some 10;
  output_tokens = some 5;
  error_code = none;
  prompt_hash = none;
}

-- Each model answers the same, and cites nothing.
abbrev pub models : Gateway ℕ
models = record {
  write = λ call cycle text memories. ok (record {
    journal_entry = "an entry";
    candidate_memory = "a memory";
    journal_spans = [];
    cited_memory_ids = [];
    metadata = metadata;
  });
  summarize = λ call plan sources.
      ok (record { summary_text = "a summary"; summary_tokens = 10; metadata = metadata });
  count_detailed = λ call text. ok (record { tokens = 10; metadata = metadata });
  interview = λ call questions memories.
      ok (record { answers = "an answer" ∷ []; cited_memory_ids = []; metadata = metadata });
  simulated = true;
  prompt_hashes = [];
}

abbrev pub stimulus : ℕ → StimulusRecord
stimulus cycle = record {
  stimulus_id = "s";
  cycle = cycle;
  phase = "drift";
  reliability = "reliable";
  text = "a text";
}

abbrev pub pilot : PilotEngine ℕ
pilot = record {
  configuration = configuration;
  seeds = [];
  deck = stimulus 3 ∷ [];
  questions = record { question_id = "q1"; text = "a question" } ∷ [];
  budget = fresh_budget limits "run-1" 0;
  status = initialized;
  current_cycle = 2;
  states = (arm_fifo, three arm_fifo) ∷ [];
}

abbrev pub snapshot : ArmCycleSnapshot ℕ
snapshot = record {
  run_id = "run-1";
  run_kind = local_fixture;
  arm_id = arm_fifo;
  cycle = 1;
  stimulus = stimulus 1;
  active_memory_ids_before = [];
  memory_statistics_before_rebalance = [];
  tokens_before = 0;
  journal_entry = "an entry";
  candidate_memory = "a memory";
  candidate_memory_id = "fifo-m0000";
  claimed_citations = [];
  validated_citations = [];
  rejected_claims = [];
  policy_decisions = [];
  created_summary = none;
  summary_source_memory_ids = [];
  retired_memories = [];
  compressed_memory_ids = [];
  active_memory_ids_after = [];
  tokens_after = 0;
  budget_tokens = 60;
  state_hash = "h";
  model_metadata = [];
  policy_version = "fifo-v1";
  prompt_versions = [];
  prompt_hashes = [];
  simulated = true;
  completed_at = 0;
  snapshot_hash = "d";
}

abbrev pub run : RunRecord ℕ
run = record {
  run_id = "run-1";
  run_kind = local_fixture;
  status = initialized;
  current_cycle = 0;
  version = 0;
  configuration = configuration;
  usage = no_usage;
  paused = false;
  created_at = 0;
  updated_at = 0;
}

abbrev pub lock : CycleLock
lock = record {
  run_id = "run-1";
  cycle = 1;
  token = "t";
  invocation_id = "i";
  acquired_at = 0;
  expires_at = 300000000;
}

abbrev pub prepared : PreparedCycle ℕ
prepared = record {
  run_id = "run-1";
  cycle = 1;
  invocation_id = "i";
  snapshots = snapshot ∷ [];
  arm_states = (arm_value arm_fifo, three arm_fifo) ∷ [];
  usage = no_usage;
  committed = false;
  content_hash = "c";
  created_at = 0;
}

abbrev pub row : PreparedRow ℕ
row = record {
  run_id = "run-1";
  cycle = 1;
  content_hash = "c";
  invocation_id = "i";
  committed = false;
  payload = prepared;
}

-- The cycle is staged, and its invocation holds the lock.
abbrev pub ready : Database ℕ
ready = record empty_database {
  runs = run ∷ [];
  cycle_locks = lock ∷ [];
  prepared_cycles = row ∷ [];
}
