-- ===== src/Service/Advancing.antt =====
-- packages/pilot/attention_sink/pilot/service.py: `run_next_cycle` of a cycle that was staged before an
-- invocation died.
use mathlib.Core.Path.{subst}
use attention_sink.Prelude.{
  [], nat_eq, string_eq, ℕ, ◌+◌, ◌<◌, String, ◌≡◌, refl, ap, true, false, some, map, distinct,
  ==_refl, [],
}
use attention_sink.Domain.Enums.{arm_value}
use attention_sink.Domain.Errors.{Result, ok}
use attention_sink.Domain.Runtime.{Host, Float}
use attention_sink.Domain.State.{MemoryState}
use attention_sink.Pilot.Configuration.{is_checkpoint}
use attention_sink.Pilot.Snapshots.{ArmCycleSnapshot, Dump}
use attention_sink.Pilot.RunSnapshots.{RunSnapshot}
use attention_sink.Pilot.Records.{
  RunRecord, PreparedCycle, StoredInterview, is_complete, next_cycle, CycleLock,
}
use attention_sink.Pilot.Engine.State.{Gateway}
use attention_sink.Persistence.Sql.{transaction}
use attention_sink.Persistence.Database.{Database, PreparedRow, empty_database}
use attention_sink.Persistence.Store.Runs.{is_run, find_run}
use attention_sink.Persistence.Store.Locks.{
  is_free, get_cycle_lock, put_lock, drop_lock, acquire_cycle_lock, release_cycle_lock,
}
use attention_sink.Persistence.Store.Checks.{find_prepared}
use attention_sink.Persistence.Store.Cycles.{commit_cycle}
use attention_sink.Persistence.Sql.Laws.{any-find_row}
use attention_sink.Persistence.Commit.Checked.{Checked}
use attention_sink.Persistence.Commit.Locking.{
  new_lock, put_lock-reads, acquire-free, commit-returned,
}
use attention_sink.Persistence.Commit.Advanced.{
  Advanced, Advanced-released, commit_cycle-Advanced_known,
}
use attention_sink.Persistence.History.Steps.{Reach, next, acquired}
use attention_sink.Persistence.History.Returning.{commit_cycle-returns}
use attention_sink.Service.{
  ProtocolBundle, CycleOutcome, load_run, prepare, prepare_from, commit_next, run_next_cycle,
}

-- The outcome of a call that found its cycle staged.
abbrev pub resumed : {S : Type 0} → RunRecord S → RunRecord S → PreparedRow S → CycleOutcome S
resumed run out row = record {
  run = out;
  cycle = next_cycle run;
  snapshots = row.payload.snapshots;
  checkpoints = [];
  reused_prepared_cycle = true;
}

module _ {S : Type 0} ⦃host : Host⦄ ⦃float : Float S⦄ ⦃snapshots : Dump (ArmCycleSnapshot S)⦄
    ⦃prepared_cycles : Dump (PreparedCycle S)⦄ ⦃runs : Dump (RunSnapshot S)⦄
    ⦃interviews : Dump StoredInterview⦄ (gateway : Gateway S) (bundle : ProtocolBundle)
    (clock : ℕ → ℕ) (now : ℕ) where
  -- What is staged is committed as it is.
  commit_next-staged :
      (run out : RunRecord S) (cycle : ℕ) (token invocation_id : String) (row : PreparedRow S)
      (db after : Database S)
      → find_prepared run.run_id cycle db ≡ some row
      → commit_cycle now run.run_id cycle token row.payload.content_hash run.version db
        ≡ (ok out, after)
      → commit_next gateway bundle clock now run cycle token invocation_id db
        ≡ (ok (row.payload, true, out), after)
  unfolding commit_next prepare prepare_from
  commit_next-staged run out cycle token invocation_id row db after staged done =
      rw (staged, done) refl

  -- Nothing but the lock is changed when it is taken.
  locked-Checked :
      (run : RunRecord S) (row : PreparedRow S) (cycle : ℕ) (token invocation_id : String) (ttl : ℕ)
      (db : Database S)
      → find_run run.run_id db ≡ some run
      → run.current_cycle + 1 ≡ cycle
      → find_prepared run.run_id cycle db ≡ some row
      → row.content_hash ≡ row.payload.content_hash
      → Checked run.run_id cycle token row.payload.content_hash run.version
          (put_lock (new_lock now run.run_id cycle token invocation_id ttl) db)
          run
          row
  unfolding put_lock
  locked-Checked run row cycle token invocation_id ttl db found following staged same = record {
    found = found;
    at_version = refl;
    is_next = following;
    held =
        rw (put_lock-reads (new_lock now run.run_id cycle token invocation_id ttl) db)
          (==_refl token);
    staged = staged;
    same_content = rw (same) (==_refl row.payload.content_hash);
  }

  after_commit :
      (run out : RunRecord S) (cycle : ℕ) (token invocation_id : String) (ttl : ℕ)
      (row : PreparedRow S) (db after : Database S)
      → find_run run.run_id db ≡ some run
      → run.paused ≡ false
      → is_complete run ≡ false
      → next_cycle run ≡ cycle
      → acquire_cycle_lock now run.run_id (next_cycle run) token invocation_id ttl db ≡ (
        ok (new_lock now run.run_id cycle token invocation_id ttl),
        put_lock (new_lock now run.run_id cycle token invocation_id ttl) db,
      )
      → commit_next gateway bundle clock now run cycle token invocation_id
          (put_lock (new_lock now run.run_id cycle token invocation_id ttl) db)
        ≡ (ok (row.payload, true, out), after)
      → is_checkpoint out.configuration cycle ≡ false
      → find_run run.run_id after ≡ some out
      → run_next_cycle gateway bundle clock now run.run_id token invocation_id ttl db ≡ (
        ok (record {
          run = out;
          cycle = next_cycle run;
          snapshots = row.payload.snapshots;
          checkpoints = [];
          reused_prepared_cycle = true;
        }),
        drop_lock run.run_id token after,
      )
  unfolding run_next_cycle load_run release_cycle_lock transaction
  after_commit run out cycle token invocation_id ttl row db after found awake going following locked
        done ordinary read =
      rw (found, awake, going, locked, following, done, ordinary, read) refl

  -- In a store that operations reach from an empty one, every run being created at cycle 0 and every
  -- cycle staged as its constructor admits it, if a run is neither paused nor complete, its next cycle
  -- is no checkpoint and is staged, under the digest of its content and with at most one snapshot and
  -- one state for each arm, and nobody holds the lock, then `run_next_cycle` with a lease of some length
  -- returns, whatever the models would answer: it has committed the staged cycle without generating it
  -- again, so that in the store it leaves the run is one cycle and one version further with the staged
  -- usage, snapshots and states, and the lock is given back; the other runs, with their states and
  -- snapshots, are as they were.
  pub run_next_cycle-resumes :
      (token invocation_id : String) (ttl : ℕ) (run : RunRecord S) (row : PreparedRow S)
      (db : Database S)
      → Reach empty_database db
      → find_run run.run_id db ≡ some run
      → run.paused ≡ false
      → is_complete run ≡ false
      → is_checkpoint run.configuration (next_cycle run) ≡ false
      → is_free now (get_cycle_lock run.run_id db) ≡ true
      → 0 < ttl
      → find_prepared run.run_id (next_cycle run) db ≡ some row
      → row.content_hash ≡ row.payload.content_hash
      → distinct (map (λ (t : ArmCycleSnapshot S). arm_value t.arm_id) row.payload.snapshots) ≡ true
      → distinct (map (λ (s : String × MemoryState S). s.0) row.payload.arm_states) ≡ true
      → (out : RunRecord S) × (after : Database S) × (run_next_cycle gateway bundle clock now
            run.run_id token invocation_id ttl db
          ≡ (ok (resumed run out row), after))
        × Advanced run.run_id token db after run row.payload out
  run_next_cycle-resumes token invocation_id ttl run row db r found awake going ordinary free
        some_time staged same arms states =
      let cycle = next_cycle run in
      let lock = new_lock now run.run_id cycle token invocation_id ttl in
      let locked =
        acquire-free now run.run_id cycle token invocation_id ttl db free some_time
          (any-find_row (is_run run.run_id) db.runs found) in
      let checked =
        locked-Checked run row cycle token invocation_id ttl db found refl staged same in
      let reach =
        subst (Reach empty_database) (ap (λ (o : Result CycleLock × Database S). o.1) locked)
          (next r (acquired now run.run_id cycle token invocation_id ttl)) in
      let (out, after, done) =
        commit_cycle-returns now run.run_id cycle token row.payload.content_hash run.version
          (put_lock lock db) run row reach checked arms in
      let (configured, reached, read) =
        commit-returned now run.run_id cycle token row.payload.content_hash run.version
          (put_lock lock db) after run out checked.found done in
      let step =
        commit_next-staged run out cycle token invocation_id row (put_lock lock db) after
          checked.staged done in
      (
        out,
        drop_lock run.run_id token after,
        after_commit run out cycle token invocation_id ttl row db after found awake going refl
            locked step (rw (configured) ordinary) read,
        Advanced-released run.run_id token lock db after run row.payload out (
            commit_cycle-Advanced_known now run.run_id cycle token row.payload.content_hash
              run.version (put_lock lock db) run out row after checked states done),
      )
