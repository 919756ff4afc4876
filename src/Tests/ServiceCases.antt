-- ===== src/Tests/ServiceCases.antt =====
-- The theorems on the service at a run whose first cycle was staged by an invocation that died.
use attention_sink.Prelude.{ℕ, ◌≡◌, refl, true, some, [], arith}
use attention_sink.Domain.Errors.{ok}
use attention_sink.Pilot.Records.{RunRecord, lock_check}
use attention_sink.Persistence.Database.{Database}
use attention_sink.Persistence.Sql.{transaction}
use attention_sink.Persistence.Store.Runs.{create_run, find_run}
use attention_sink.Persistence.Store.Locks.{acquire_cycle_lock, put_lock, get_cycle_lock, is_free}
use attention_sink.Persistence.Store.Checks.{find_prepared}
use attention_sink.Persistence.Store.Cycles.{store_prepared_cycle, sealed_of}
use attention_sink.Persistence.Commit.Advanced.{Advanced}
use attention_sink.Service.{ProtocolBundle, run_next_cycle}
use attention_sink.Service.Advancing.{resumed, run_next_cycle-resumes}
use attention_sink.Tests.Fixtures.{host, whole}
use attention_sink.Tests.PilotFixtures.{
  snapshot_text, prepared_text, run_text, interview_text, run, row, models,
}
use attention_sink.Tests.StoreCases.{with_cycle, to_ready}

abbrev bundle : ProtocolBundle
bundle = record { seeds = []; deck = []; questions = [] }

abbrev clock : ℕ → ℕ
clock calls = calls

run_found : find_run "run-1" with_cycle ≡ some run
unfolding create_run acquire_cycle_lock store_prepared_cycle sealed_of transaction lock_check
    put_lock
run_found = refl

lock_free : is_free 300000000 (get_cycle_lock "run-1" with_cycle) ≡ true
unfolding create_run acquire_cycle_lock store_prepared_cycle sealed_of transaction lock_check
    put_lock
lock_free = refl

cycle_found : find_prepared "run-1" 1 with_cycle ≡ some row
unfolding create_run acquire_cycle_lock store_prepared_cycle sealed_of transaction lock_check
    put_lock
cycle_found = refl

run_next_cycle-resumes_example :
    (out : RunRecord ℕ) × (after : Database ℕ) × (run_next_cycle models bundle clock 300000000
        "run-1" "t2" "i2" 300 with_cycle
      ≡ (ok (resumed run out row), after))
    × Advanced "run-1" "t2" with_cycle after run row.payload out
run_next_cycle-resumes_example =
    run_next_cycle-resumes models bundle clock 300000000 "t2" "i2" 300 run row with_cycle to_ready
      run_found refl refl refl lock_free (omega arith) cycle_found refl refl refl
