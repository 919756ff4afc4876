-- ===== src/Persistence/Commit/Advanced.antt =====
-- packages/persistence/attention_sink/persistence/sqlite.py: what is read behind a commit that returned, of its run and
-- of the others.
use mathlib.Core.Path.{subst}
use attention_sink.Prelude.{
  [], ◌∷◌, ℕ, ◌+◌, ◌≤◌, String, ◌≡◌, refl, sym, ap, ◌∙◌, true, false, ◌&&◌, List, map, ◌==◌, nat_eq,
  string_eq, some, arith, sorted, All, distinct, ◌<◌, filter,
}
use attention_sink.Prelude.Text.{text_leb}
use attention_sink.Prelude.Sorting.Laws.{All-unsorted, distinct-sorted}
use attention_sink.Domain.Enums.{arm_value}
use attention_sink.Domain.Errors.{Result, ok}
use attention_sink.Domain.Runtime.{Host}
use attention_sink.Domain.State.{MemoryState}
use attention_sink.Pilot.Snapshots.{completed, running}
use attention_sink.Pilot.Records.{RunRecord, CycleLock, PreparedCycle}
use attention_sink.Persistence.Sql.{find_row}
use attention_sink.Persistence.Sql.Laws.{option_map, find_row-update_rows_other}
use attention_sink.Persistence.Database.{Database, PreparedRow, StateRow}
use attention_sink.Persistence.Store.Runs.{is_run, find_run}
use attention_sink.Persistence.Store.Locks.{get_cycle_lock, put_lock}
use attention_sink.Persistence.Store.Checks.{is_held_by, find_prepared}
use attention_sink.Persistence.Store.Cycles.{snapshot_row, advance, commit_cycle}
use attention_sink.Persistence.Store.Arms.{get_cycle_snapshot}
use attention_sink.Persistence.Commit.{fits, committed_database, not, ◌∷◌, drop_lock}
use attention_sink.Persistence.Commit.Checked.{Checked}
use attention_sink.Persistence.Commit.Recorded.{recorded-other, recorded-new}
use attention_sink.Persistence.Commit.Done.{state_at, put_rows-other, put_rows-reads}
use attention_sink.Persistence.Commit.Atomic.{
  Ends, committed, refused, clashed, commit_cycle-Ends, reload-committed,
}

-- The run is one cycle further, with the staged usage and states and a snapshot of every arm; the lock is gone; and
-- nothing is changed for the other runs.
pub record Advanced {S : Type 0} (run_id token : String) (db after : Database S) (run : RunRecord S)
    (prepared : PreparedCycle S) (out : RunRecord S) : Type 0 where
  pub one_more : out.current_cycle ≡ run.current_cycle + 1
  pub next_version : out.version ≡ run.version + 1
  pub spent : out.usage ≡ prepared.usage
  pub ended : run.configuration.maximum_cycles ≤ out.current_cycle → out.status ≡ completed
  pub goes_on : out.current_cycle < run.configuration.maximum_cycles → out.status ≡ running
  pub head : find_run run_id after ≡ some out
  pub unlocked : is_held_by token (get_cycle_lock run_id after) ≡ false
  pub snapshots :
      All
        (λ s.
          get_cycle_snapshot run_id (arm_value s.arm_id) out.current_cycle after
          ≡ some (snapshot_row run_id out.current_cycle s))
        prepared.snapshots
  pub states : All (λ s. state_at run_id s.0 after ≡ some s.1) prepared.arm_states
  pub others :
      (id : String)
      → (run_id == id) ≡ false
      → (find_run id after ≡ find_run id db)
        × ((arm_id : String) → state_at id arm_id after ≡ state_at id arm_id db)
        × ((arm_id : String) (cycle : ℕ)
            → get_cycle_snapshot id arm_id cycle after ≡ get_cycle_snapshot id arm_id cycle db)

drop_lock-unheld :
    (run_id token : String) (locks : List CycleLock)
    → is_held_by token (
        find_row
          (λ lock. lock.run_id == run_id)
          (filter (λ lock. not (lock.run_id == run_id && lock.token == token)) locks))
      ≡ false
drop_lock-unheld run_id token [] = refl
drop_lock-unheld run_id token (lock ∷ locks) = ground (arith, drop_lock-unheld run_id token locks)

named_apart :
    (id run_id other : String)
    → (run_id == other) ≡ false
    → (id == other) ≡ true
    → (id == run_id) ≡ false
named_apart id run_id other apart named =
    ground (
      arith,
      string_eq.eqb_iff id run_id,
      string_eq.eqb_iff id other,
      string_eq.eqb_iff run_id other,
    )

-- The lock is taken before the commit and given back behind it, which changes nothing else.
pub Advanced-released :
    {S : Type 0} (run_id token : String) (lock : CycleLock) (db after : Database S)
    (run : RunRecord S) (prepared : PreparedCycle S) (out : RunRecord S)
    → Advanced run_id token (put_lock lock db) after run prepared out
    → Advanced run_id token db (drop_lock run_id token after) run prepared out
unfolding put_lock
Advanced-released run_id token lock db after run prepared out a = record {
  one_more = a.one_more;
  next_version = a.next_version;
  spent = a.spent;
  ended = a.ended;
  goes_on = a.goes_on;
  head = a.head;
  unlocked = drop_lock-unheld run_id token after.cycle_locks;
  snapshots = a.snapshots;
  states = a.states;
  others = a.others;
}

some_inj : {A : Type 0} (a b : A) → some a ≡ some b → a ≡ b
some_inj a b h = cc

ok_inj :
    {A D : Type 0} (a b : A) (d e : D)
    → ◌≡◌ {A = Result A × D} (ok a, d) (ok b, e)
    → ◌≡◌ {A = A × D} (a, d) (b, e)
ok_inj a b d e h = cc

module _ {S : Type 0} ⦃host : Host⦄ (now : ℕ) (run_id : String) (cycle : ℕ)
    (token content_hash : String) (version : ℕ) (db : Database S) where
  committed-Advanced :
      (run : RunRecord S) (row : PreparedRow S)
      → Checked run_id cycle token content_hash version db run row
      → fits run_id cycle row.payload.snapshots db.cycle_snapshots ≡ true
      → distinct (map (λ (s : String × MemoryState S). s.0) row.payload.arm_states) ≡ true
      → Advanced run_id token db
          (committed_database now run_id cycle token version row.payload db)
          run
          row.payload
          (advance now cycle row.payload run)
  committed-Advanced run row c fit arms = record {
    one_more = sym c.is_next;
    next_version = refl;
    spent = refl;
    ended = λ h. ground arith;
    goes_on = λ h. ground arith;
    head = reload-committed now run_id cycle token content_hash version db run row c;
    unlocked = drop_lock-unheld run_id token db.cycle_locks;
    snapshots = recorded-new now run_id cycle token version row.payload db fit;
    states =
        All-unsorted (λ (a, s) (b, t). text_leb a b)
          (λ s.
            state_at run_id s.0 (committed_database now run_id cycle token version row.payload db)
            ≡ some s.1)
          row.payload.arm_states
          (put_rows-reads run_id cycle
            (sorted (λ (a, s) (b, t). text_leb a b) row.payload.arm_states) db.arm_current_states
            (distinct-sorted (λ (a, s) (b, t). text_leb a b) (λ (s : String × MemoryState S). s.0)
              row.payload.arm_states arms));
    others = λ id other. (
      find_row-update_rows_other (is_run id) (λ r. is_run run_id r && r.version == version)
          (advance now cycle row.payload) db.runs (λ r. refl)
          (λ r named. rw (named_apart r.run_id run_id id other named) refl),
      λ arm_id. ap (option_map (λ (r : StateRow S). r.payload)) (
          put_rows-other run_id cycle
            (sorted (λ (a, s) (b, t). text_leb a b) row.payload.arm_states) id arm_id
            db.arm_current_states (rw other refl)),
      λ arm_id k.
          recorded-other now run_id cycle token version row.payload db id arm_id k (rw other refl),
    );
  }

  moved_to :
      (run : RunRecord S) (row : PreparedRow S) (pair : RunRecord S × Database S)
      → (
        advance now cycle row.payload run,
        committed_database now run_id cycle token version row.payload db,
      )
        ≡ pair
      → Advanced run_id token db
          (committed_database now run_id cycle token version row.payload db)
          run
          row.payload
          (advance now cycle row.payload run)
      → Advanced run_id token db pair.1 run row.payload pair.0
  moved_to run row pair e a =
      subst (λ (p : RunRecord S × Database S). Advanced run_id token db p.1 run row.payload p.0) e a

  ended_by :
      (out : RunRecord S) (after : Database S)
      → ((row : PreparedRow S)
          → find_prepared run_id cycle db ≡ some row
          → distinct (map (λ (s : String × MemoryState S). s.0) row.payload.arm_states) ≡ true)
      → (result : Result (RunRecord S) × Database S) → result ≡ (ok out, after)
      → Ends now run_id cycle token content_hash version db result
      → (run : RunRecord S) × (row : PreparedRow S) × Checked run_id cycle token content_hash
          version db run row
        × Advanced run_id token db after run row.payload out
  ended_by out after arms result h (committed run row c fit e) = (
    run,
    row,
    c,
    moved_to run row (out, after)
        (ok_inj (advance now cycle row.payload run) out
          (committed_database now run_id cycle token version row.payload db) after (sym e ∙ h))
        (committed-Advanced run row c fit (arms row c.staged)),
  )
  ended_by out after arms result h (refused e checks r) = cc
  ended_by out after arms result h (clashed run row c clash r) = cc

  -- If a commit returns, and the staged cycle has one state for each arm, then its checks held, and the
  -- run is one cycle and one version further with the staged usage, is completed just if that cycle
  -- reaches its configured length, has the staged snapshots and states in the store and no longer the
  -- caller's lock; the other runs, with their states and snapshots, are as they were.
  pub commit_cycle-Advanced :
      (out : RunRecord S) (after : Database S)
      → ((row : PreparedRow S)
          → find_prepared run_id cycle db ≡ some row
          → distinct (map (λ (s : String × MemoryState S). s.0) row.payload.arm_states) ≡ true)
      → commit_cycle now run_id cycle token content_hash version db ≡ (ok out, after)
      → (run : RunRecord S) × (row : PreparedRow S) × Checked run_id cycle token content_hash
          version db run row
        × Advanced run_id token db after run row.payload out
  commit_cycle-Advanced out after arms h =
      ended_by out after arms (commit_cycle now run_id cycle token content_hash version db) h
        (commit_cycle-Ends now run_id cycle token content_hash version db)

  -- The commit of a run and a staged cycle that are known.
  pub commit_cycle-Advanced_known :
      (run out : RunRecord S) (row : PreparedRow S) (after : Database S)
      → Checked run_id cycle token content_hash version db run row
      → distinct (map (λ (s : String × MemoryState S). s.0) row.payload.arm_states) ≡ true
      → commit_cycle now run_id cycle token content_hash version db ≡ (ok out, after)
      → Advanced run_id token db after run row.payload out
  commit_cycle-Advanced_known run out row after checked arms h =
      let (run', row', c, a) =
        commit_cycle-Advanced out after
          (λ other staged.
            subst
              (λ (r : PreparedRow S).
                distinct (map (λ (s : String × MemoryState S). s.0) r.payload.arm_states) ≡ true)
              (some_inj row other (sym checked.staged ∙ staged)) arms)
          h in
      subst (λ (r : PreparedRow S). Advanced run_id token db after run r.payload out)
        (some_inj row' row (sym c.staged ∙ checked.staged))
        (subst (λ (r : RunRecord S). Advanced run_id token db after r row'.payload out)
          (some_inj run' run (sym c.found ∙ checked.found)) a)
