-- ===== src/Service.antt =====
-- packages/pilot/attention_sink/pilot/service.py: a persisted run is created, advanced by one cycle and interviewed. The
-- store is that of packages/persistence, each of whose methods is one action, so that other invocations may come between
-- any two of them; here one invocation runs by itself.
pub mod Advancing
use attention_sink.Prelude.{
  ℕ, ◌+◌, String, Bool, true, false, not, Option, none, some, List, [], ◌∷◌, ◌++◌, map, filter, ltb,
  leb, ◌==◌, string_eq, contains, all, length, is_empty, if◌then◌else◌,
}
use attention_sink.Prelude.Dict.{Dict, keys}
use attention_sink.Domain.Enums.{ArmId, arm_value, arm_eq, canonical_arms, reference_arms}
use attention_sink.Domain.Errors.{
  Result, ok, raise, value_error, persistence_error, run_not_found, service_error, run_paused,
  traverse, require,
}
use attention_sink.Domain.Actions.{Action, pure, gets, lift, asks, ensure, ◌>>=◌, ◌>>◌}
use attention_sink.Domain.Runtime.{Host, Float}
use attention_sink.Domain.State.{MemoryState, hash_of_state}
use attention_sink.Pilot.Spending.{ModelUsage, fresh_budget, cycle_calls, usage_of, merge_usage}
use attention_sink.Pilot.Configuration.{
  PilotRunConfiguration, is_checkpoint, require_run_kind_consistent,
}
use attention_sink.Pilot.Snapshots.{ArmCycleSnapshot, StimulusRecord, Dump, initialized}
use attention_sink.Pilot.RunSnapshots.{RunSnapshot}
use attention_sink.Pilot.Records.{
  RunRecord, PreparedCycle, StoredInterview, is_complete, next_cycle, prepared_check, seal_prepared,
  seal_interview,
}
use attention_sink.Pilot.Engine.State.{
  PilotEngine, Gateway, SeedMemorySpec, InterviewQuestion, restore, state_of,
}
use attention_sink.Pilot.Engine.Starting.{initialize_pilot_run}
use attention_sink.Pilot.Engine.Checkpoints.{CheckpointRecord}
use attention_sink.Pilot.Engine.Checkpoints
use attention_sink.Persistence.Sql.{for_rows}
use attention_sink.Persistence.Store.Measurements.{store_interview, get_interviews}
use attention_sink.Pilot.Engine.Cycle.{StagedCycle, stage_cycle}
use attention_sink.Persistence.Database.{Database, PreparedRow}
use attention_sink.Persistence.Store.Runs.{create_run, find_run, add_usage}
use attention_sink.Persistence.Store.Locks.{acquire_cycle_lock, release_cycle_lock}
use attention_sink.Persistence.Store.Checks.{find_prepared}
use attention_sink.Persistence.Store.Cycles.{store_prepared_cycle, commit_cycle}
use attention_sink.Persistence.Store.Arms.{seed_arm_state, get_all_current_arm_states}

-- What the service reads of the protocol's bundle.
pub record ProtocolBundle : Type 0 where
  pub seeds : List SeedMemorySpec
  pub deck : List StimulusRecord
  pub questions : List InterviewQuestion

-- `try: body finally: last`: an error of the last step takes the place of the body's outcome.
abbrev pub concluding : {D A : Type 0} → Result A → Result (Unit {0}) × D → Result A × D
concluding result (ok done, d) = (result, d)
concluding result (raise e, d) = (raise e, d)

abbrev pub finally_do : {D A : Type 0} → Action D A → Action D (Unit {0}) → Action D A
finally_do body last d = let (result, after) = body d in concluding result (last after)

-- `ArmId(name)`
abbrev named : List ArmId → String → Result ArmId
named [] name = raise value_error
named (arm_id ∷ arms) name = if arm_value arm_id == name then ok arm_id else named arms name

abbrev pub arm_named : String → Result ArmId
arm_named = named (canonical_arms ++ reference_arms)

-- A state under its arm's name, taken to its arm.
abbrev rekeyed : {S : Type 0} → Result ArmId → MemoryState S → Result (ArmId × MemoryState S)
rekeyed (ok arm_id) state = ok (arm_id, state)
rekeyed (raise e) state = raise e

abbrev pub no_spend : ModelUsage
no_spend = record {
  calls_by_role = [];
  ledger = [];
  total_calls = 0;
  failed_calls = 0;
  simulated_calls = 0;
  input_tokens = 0;
  output_tokens = 0;
  retries = 0;
}

-- What one call of an engine leaves.
abbrev pub outcome_of : {E A : Type 0} → Result A × E → Result (A × E)
outcome_of (ok a, engine) = ok (a, engine)
outcome_of (raise e, engine) = raise e

pub record CycleOutcome (S : Type 0) : Type 0 where
  pub run : RunRecord S
  pub cycle : ℕ
  pub snapshots : List (ArmCycleSnapshot S)
  pub checkpoints : List CheckpointRecord
  pub reused_prepared_cycle : Bool

-- `prompt_hash or "unrecorded"`
abbrev hash_or : Option String → String
hash_or none = "unrecorded"
hash_or (some hash) = if hash == "" then "unrecorded" else hash

module _ {S : Type 0} where
  -- `_fresh_engine`, with what the run has spent before
  unfoldable pub fresh_engine :
      ProtocolBundle → PilotRunConfiguration S → ℕ → Result (PilotEngine S)
  fresh_engine bundle configuration spent =
      outcome (require_run_kind_consistent configuration) (record {
        configuration = configuration;
        seeds = bundle.seeds;
        deck = bundle.deck;
        questions = bundle.questions;
        budget = fresh_budget configuration.model_call_limits configuration.run_id spent;
        status = initialized;
        current_cycle = 0;
        states = [];
      })
    where
      outcome : Result (Unit {0}) → PilotEngine S → Result (PilotEngine S)
      outcome (ok done) engine = ok engine
      outcome (raise e) engine = raise e

  abbrev or_not_found : Option (RunRecord S) → Result (RunRecord S)
  or_not_found none = raise run_not_found
  or_not_found (some run) = ok run

  -- `get_run` of the service
  unfoldable pub load_run : String → Action (Database S) (RunRecord S)
  load_run run_id = asks λ db. or_not_found (find_run run_id db)

  abbrev new_run : ℕ → String → PilotRunConfiguration S → RunRecord S
  new_run now run_id configuration = record {
    run_id = run_id;
    run_kind = configuration.run_kind;
    status = initialized;
    current_cycle = 0;
    version = 0;
    configuration = configuration;
    usage = no_spend;
    paused = false;
    created_at = now;
    updated_at = now;
  }

-- The service clock reads `now` throughout a call, and an engine's clock `clock n` after n calls of models. `token` and
-- `invocation_id` are what the call draws.
module _ {S : Type 0} ⦃host : Host⦄ ⦃float : Float S⦄ ⦃snapshots : Dump (ArmCycleSnapshot S)⦄
    ⦃prepared_cycles : Dump (PreparedCycle S)⦄ ⦃runs : Dump (RunSnapshot S)⦄
    ⦃interviews : Dump StoredInterview⦄ (gateway : Gateway S) (bundle : ProtocolBundle)
    (clock : ℕ → ℕ) (now : ℕ) where
  -- `create_run`
  unfoldable pub begin_run : String → PilotRunConfiguration S → Action (Database S) (RunRecord S)
  begin_run run_id configuration = do
    run ← create_run (new_run now run_id configuration)
    engine ← lift (fresh_engine bundle configuration 0)
    (snapshot, started) ← lift (outcome_of (initialize_pilot_run clock engine))
    for_rows (λ arm_id. lift (state_of arm_id started).0 >>= seed_arm_state run_id arm_id)
        configuration.arms
    pure run

  -- `_engine_at`
  unfoldable pub engine_at : RunRecord S → Action (Database S) (PilotEngine S)
  engine_at run = do
    fresh ← lift (fresh_engine bundle run.configuration (cycle_calls run.usage))
    (snapshot, started) ← lift (outcome_of (initialize_pilot_run clock fresh))
    states ← gets (get_all_current_arm_states run.run_id)
    ensure (λ db. all (λ arm_id. contains (keys states) (arm_value arm_id)) run.configuration.arms)
        persistence_error
    held ← lift (traverse (λ (name, state). rekeyed (arm_named name) state) states)
    (done, engine) ← lift (outcome_of (restore held run.current_cycle run.status started))
    pure engine

  -- `_prepare`, where nothing is staged
  unfoldable pub prepare_new : RunRecord S → ℕ → String → Action (Database S) (PreparedCycle S)
  unfolding engine_at
  prepare_new run cycle invocation_id = do
    engine ← engine_at run
    (staged, last) ← lift (outcome_of (stage_cycle gateway clock cycle engine))
    let prepared : PreparedCycle S = record {
      run_id = run.run_id;
      cycle = cycle;
      invocation_id = invocation_id;
      snapshots = map (λ result. result.snapshot) staged.results;
      arm_states = map (λ result. (arm_value result.arm_id, result.state)) staged.results;
      usage = merge_usage run.usage (usage_of last.budget);
      committed = false;
      content_hash = "";
      created_at = now;
    }
    lift (prepared_check prepared)
    store_prepared_cycle (seal_prepared prepared)

  unfoldable pub prepare_from :
      RunRecord S
      → ℕ
      → String
      → Option (PreparedRow S)
      → Action (Database S) (PreparedCycle S × Bool)
  unfolding prepare_new
  prepare_from run cycle invocation_id (some row) = pure (row.payload, true)
  prepare_from run cycle invocation_id none =
      prepare_new run cycle invocation_id >>= λ prepared. pure (prepared, false)

  unfoldable pub prepare : RunRecord S → ℕ → String → Action (Database S) (PreparedCycle S × Bool)
  unfolding prepare_from
  prepare run cycle invocation_id db =
      prepare_from run cycle invocation_id (find_prepared run.run_id cycle db) db

  -- `_stored_interview`
  unfoldable pub stored_interview :
      RunRecord S → PilotEngine S → CheckpointRecord → Result StoredInterview
  stored_interview run engine r = with_state r (state_of r.arm_id engine).0
    where
      with_state : CheckpointRecord → Result (MemoryState S) → Result StoredInterview
      with_state r (raise e) = raise e
      with_state r (ok state) = ok (
          seal_interview (record {
            run_id = run.run_id;
            arm_id = r.arm_id;
            cycle = r.cycle;
            interview_version = r.interview_version;
            question_set_version = run.configuration.interview_version;
            answers = r.result.answers;
            reported_memory_ids = r.result.cited_memory_ids;
            prompt_hash = hash_or r.result.metadata.prompt_hash;
            input_state_hash = hash_of_state state;
            record_hash = "";
            completed_at = r.completed_at;
          }))

  -- The arms that are still to be asked are asked, and their answers and their cost are kept.
  unfoldable pub ask_outstanding :
      RunRecord S → ℕ → List ArmId → Action (Database S) (List CheckpointRecord)
  unfolding engine_at stored_interview for_rows
  ask_outstanding run cycle outstanding = do
    engine ← engine_at run
    (records, last) ←
        lift (outcome_of (Checkpoints.run_checkpoint gateway clock cycle (some outstanding) engine))
    for_rows
        (λ r. lift (stored_interview run last r) >>= λ interview.
          store_interview interview >>= λ stored. pure tt)
        records
    updated ← add_usage now run.run_id (usage_of last.budget)
    pure records

  unfoldable pub interview_run : ℕ → RunRecord S → Action (Database S) (List CheckpointRecord)
  unfolding ask_outstanding
  interview_run cycle run = do
    ensure (λ db. is_checkpoint run.configuration cycle) service_error
    ensure (λ db. leb cycle run.current_cycle) service_error
    stored ← gets λ db. map (λ i. i.arm_id) (get_interviews run.run_id (some cycle) none db)
    let outstanding = filter (λ arm_id. not (contains stored arm_id)) run.configuration.arms
    elim (is_empty outstanding) [ true ↦ pure [] | false ↦ ask_outstanding run cycle outstanding ]

  -- `run_checkpoint` of the service
  unfoldable pub checkpoint_run : String → ℕ → Action (Database S) (List CheckpointRecord)
  unfolding interview_run
  checkpoint_run run_id cycle = load_run run_id >>= interview_run cycle

  -- What is done under the lock.
  unfoldable pub commit_next :
      RunRecord S → ℕ → String → String → Action (Database S) (PreparedCycle S × Bool × RunRecord S)
  unfolding prepare
  commit_next run cycle token invocation_id = do
    (prepared, reused) ← prepare run cycle invocation_id
    committed ← commit_cycle now run.run_id cycle token prepared.content_hash run.version
    pure (prepared, reused, committed)

  unfoldable pub run_next_cycle :
      String → String → String → ℕ → Action (Database S) (CycleOutcome S)
  unfolding load_run commit_next checkpoint_run
  run_next_cycle run_id token invocation_id lock_ttl_seconds = do
    run ← load_run run_id
    ensure (λ db. not run.paused) run_paused
    ensure (λ db. not (is_complete run)) service_error
    lock ← acquire_cycle_lock now run_id (next_cycle run) token invocation_id lock_ttl_seconds
    (prepared, reused, committed) ←
        finally_do (commit_next run (next_cycle run) token invocation_id)
          (release_cycle_lock run_id token)
    checkpoints ← elim (is_checkpoint committed.configuration (next_cycle run)) [
      | true ↦ checkpoint_run run_id (next_cycle run)
      | false ↦ pure []
    ]
    current ← load_run run_id
    pure (record {
      run = current;
      cycle = next_cycle run;
      snapshots = prepared.snapshots;
      checkpoints = checkpoints;
      reused_prepared_cycle = reused;
    })
