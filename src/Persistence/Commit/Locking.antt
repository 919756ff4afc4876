-- ===== src/Persistence/Commit/Locking.antt =====
-- packages/persistence/attention_sink/persistence/sqlite.py: the cycle lock keeps a second invocation out.
use attention_sink.Prelude.{
  ℕ, ◌+◌, ◌<◌, String, ◌≡◌, ◌≢◌, refl, sym, ap, ◌∙◌, true, false, List, [], ◌∷◌, any, ◌==◌, nat_eq,
  string_eq, some, arith, Bool-cases, inl, inr, ==_refl,
}
use attention_sink.Domain.Errors.{
  Error, Result, ok, raise, lock_not_held, concurrent_run_update, integrity_error,
}
use attention_sink.Domain.Runtime.{Host}
use attention_sink.Pilot.Records.{RunRecord, CycleLock}
use attention_sink.Persistence.Sql.{find_row, update_rows}
use attention_sink.Persistence.Sql.Laws.{find_row-append, find_row-absent}
use attention_sink.Persistence.Database.{Database}
use attention_sink.Persistence.Store.Runs.{find_run, is_run}
use attention_sink.Persistence.Store.Locks.{
  get_cycle_lock, acquire_cycle_lock, put_lock, seconds, is_free,
}
use attention_sink.Persistence.Store.Checks.{is_held_by, commit_checks}
use attention_sink.Persistence.Store.Cycles.{advance, commit_cycle}
use attention_sink.Persistence.Commit.{committed_database}
use attention_sink.Persistence.Commit.Atomic.{
  Ends, committed, refused, clashed, commit_cycle-Ends, reload-committed, commit-refused,
}

abbrev relock : CycleLock → CycleLock → CycleLock
relock lock held = record held {
  cycle = lock.cycle;
  token = lock.token;
  invocation_id = lock.invocation_id;
  acquired_at = lock.acquired_at;
  expires_at = lock.expires_at;
}

relocked :
    (lock : CycleLock) (locks : List CycleLock)
    → any (λ held. held.run_id == lock.run_id) locks ≡ true
    → find_row
        (λ held. held.run_id == lock.run_id)
        (update_rows (λ held. held.run_id == lock.run_id) (relock lock) locks)
      ≡ some lock
relocked lock [] h = cc
relocked lock (held ∷ locks) h =
    ground (arith, string_eq.eqb_iff held.run_id lock.run_id, relocked lock locks)

abbrev pub new_lock : ℕ → String → ℕ → String → String → ℕ → CycleLock
new_lock now run_id cycle token invocation_id ttl = record {
  run_id = run_id;
  cycle = cycle;
  token = token;
  invocation_id = invocation_id;
  acquired_at = now;
  expires_at = now + seconds ttl;
}

module _ {S : Type 0} where
  -- The lock that a put leaves is the one that was put.
  pub put_lock-reads :
      (lock : CycleLock) (db : Database S)
      → get_cycle_lock lock.run_id (put_lock lock db) ≡ some lock
  unfolding put_lock
  put_lock-reads lock db =
      elim (Bool-cases (any (λ held. held.run_id == lock.run_id) db.cycle_locks)) [
        | inl there ↦ rw there (relocked lock db.cycle_locks there)
        | inr new ↦ rw new (
            find_row-append (λ held. held.run_id == lock.run_id) db.cycle_locks (lock ∷ [])
            ∙ rw
                (
                  find_row-absent (λ held. held.run_id == lock.run_id) db.cycle_locks new,
                  ==_refl lock.run_id,
                )
                refl)
      ]

  -- An acquisition that returns has put its lock.
  acquire-eq-ok :
      (now : ℕ) (run_id : String) (cycle : ℕ) (token invocation_id : String) (ttl : ℕ)
      (db after : Database S) (lock : CycleLock)
      → acquire_cycle_lock now run_id cycle token invocation_id ttl db ≡ (ok lock, after)
      → after ≡ put_lock (new_lock now run_id cycle token invocation_id ttl) db
  unfolding acquire_cycle_lock
  acquire-eq-ok now run_id cycle token invocation_id ttl db after lock h = ground arith

  -- While a lease runs, nobody else takes the run.
  pub acquire-refused :
      (later : ℕ) (run_id : String) (lock : CycleLock) (db : Database S) (cycle : ℕ)
      (token invocation_id : String) (ttl : ℕ)
      → get_cycle_lock run_id db ≡ some lock
      → later < lock.expires_at
      → 0 < ttl
      → acquire_cycle_lock later run_id cycle token invocation_id ttl db ≡ (raise lock_not_held, db)
  unfolding acquire_cycle_lock
  acquire-refused later run_id lock db cycle token invocation_id ttl held running some_time =
      ground (arith, held)

  -- A lock that nobody holds is acquired.
  pub acquire-free :
      (now : ℕ) (run_id : String) (cycle : ℕ) (token invocation_id : String) (ttl : ℕ)
      (db : Database S)
      → is_free now (get_cycle_lock run_id db) ≡ true
      → 0 < ttl
      → any (is_run run_id) db.runs ≡ true
      → acquire_cycle_lock now run_id cycle token invocation_id ttl db ≡ (
        ok (new_lock now run_id cycle token invocation_id ttl),
        put_lock (new_lock now run_id cycle token invocation_id ttl) db,
      )
  unfolding acquire_cycle_lock
  acquire-free now run_id cycle token invocation_id ttl db free some_time known =
      ground (arith, free, known)

module _ {S : Type 0} ⦃host : Host⦄ where
  commit-unheld :
      (now : ℕ) (run_id : String) (cycle : ℕ) (token content_hash : String) (version : ℕ)
      (db : Database S)
      → is_held_by token (get_cycle_lock run_id db) ≡ false
      → ((e : Error) × (commit_cycle now run_id cycle token content_hash version db
            ≡ (raise e, db)))
  commit-unheld now run_id cycle token content_hash version db unheld =
      by_end (commit_cycle-Ends now run_id cycle token content_hash version db)
    where
      by_end :
          {out : Result (RunRecord S) × Database S}
          → Ends now run_id cycle token content_hash version db out
          → (e : Error) × (out ≡ (raise e, db))
      by_end (committed run row c fit h) = cc (c.held, unheld)
      by_end (refused e checks h) = (e, h)
      by_end (clashed run row c clash h) = (integrity_error, h)

  -- The lock that is held is another's.
  unheld_by :
      (stale token run_id : String) (after : Database S) {lock : CycleLock}
      → get_cycle_lock run_id after ≡ some lock
      → lock.token ≡ token
      → token ≢ stale
      → is_held_by stale (get_cycle_lock run_id after) ≡ false
  unheld_by stale token run_id after {lock} h same apart =
      rw h (ground (arith, string_eq.eqb_iff lock.token stale))

  -- If an invocation acquires a run's lock, then on the store that it leaves every commit of that run
  -- under another token raises and changes nothing.
  pub takeover-refused :
      (now : ℕ) (run_id : String) (cycle : ℕ) (token invocation_id : String) (ttl : ℕ)
      (db after : Database S) (lock : CycleLock) (stale : String) (later k : ℕ)
      (content_hash : String) (version : ℕ)
      → acquire_cycle_lock now run_id cycle token invocation_id ttl db ≡ (ok lock, after)
      → token ≢ stale
      → (e : Error) × (commit_cycle later run_id k stale content_hash version after
          ≡ (raise e, after))
  takeover-refused now run_id cycle token invocation_id ttl db after lock stale later k content_hash
        version h apart =
      let put = acquire-eq-ok now run_id cycle token invocation_id ttl db after lock h in
      let read = put_lock-reads (new_lock now run_id cycle token invocation_id ttl) db in
      commit-unheld later run_id k stale content_hash version after
        (unheld_by stale token run_id after (ap (get_cycle_lock run_id) put ∙ read) refl apart)

  -- A run at another version refuses the commit.
  moved_on :
      (later : ℕ) (run_id : String) (k : ℕ) (again content_hash : String) (version : ℕ)
      (after : Database S) (run : RunRecord S)
      → find_run run_id after ≡ some run
      → version < run.version
      → commit_checks run_id k again content_hash version after ≡ raise concurrent_run_update
  unfolding commit_checks
  moved_on later run_id k again content_hash version after run h ahead = ground (arith, h)

  -- If a commit at some version returns, then on the store that it leaves every other commit of that run
  -- at this version raises `ConcurrentRunUpdate` and changes nothing, whatever its cycle, token and
  -- content.
  pub commit-once :
      (now later : ℕ) (run_id : String) (cycle : ℕ) (token content_hash : String) (version k : ℕ)
      (again other_hash : String) (db after : Database S) (run : RunRecord S)
      → commit_cycle now run_id cycle token content_hash version db ≡ (ok run, after)
      → commit_cycle later run_id k again other_hash version after
        ≡ (raise concurrent_run_update, after)
  commit-once now later run_id cycle token content_hash version k again other_hash db after run h =
      by_end (commit_cycle-Ends now run_id cycle token content_hash version db)
    where
      by_end :
          Ends now run_id cycle token content_hash version db
            (commit_cycle now run_id cycle token content_hash version db)
          → commit_cycle later run_id k again other_hash version after
            ≡ (raise concurrent_run_update, after)
      by_end (committed old row c fit e) =
          commit-refused later run_id k again other_hash version after concurrent_run_update (
            moved_on later run_id k again other_hash version after
              (advance now cycle row.payload old)
              (ap (λ (o : Result (RunRecord S) × Database S). find_run run_id o.1) (sym h ∙ e)
                ∙ reload-committed now run_id cycle token content_hash version db old row c)
              (omega (arith, c.at_version)))
      by_end (refused e checks r) = cc
      by_end (clashed old row c clash r) = cc

  -- What a commit that returns makes of a run that it has checked.
  pub commit-returned :
      (now : ℕ) (run_id : String) (cycle : ℕ) (token content_hash : String) (version : ℕ)
      (db after : Database S) (run out : RunRecord S)
      → find_run run_id db ≡ some run
      → commit_cycle now run_id cycle token content_hash version db ≡ (ok out, after)
      → (out.configuration ≡ run.configuration)
        × (out.current_cycle ≡ cycle)
        × (find_run run_id after ≡ some out)
  commit-returned now run_id cycle token content_hash version db after run out found h =
      by_end (commit_cycle-Ends now run_id cycle token content_hash version db)
    where
      by_end :
          Ends now run_id cycle token content_hash version db
            (commit_cycle now run_id cycle token content_hash version db)
          → (out.configuration ≡ run.configuration)
            × (out.current_cycle ≡ cycle)
            × (find_run run_id after ≡ some out)
      by_end (committed old row c fit e) =
          let same : old ≡ run = cc (c.found, found) in
          let both : ◌≡◌ {A = Result (RunRecord S) × Database S} (ok out, after)
              (
                ok (advance now cycle row.payload old),
                committed_database now run_id cycle token version row.payload db,
              ) =
            sym h ∙ e in
          let read = reload-committed now run_id cycle token content_hash version db old row c in
          let advanced : out ≡ advance now cycle row.payload old = cc both in
          (
            ap (λ (r : RunRecord S). r.configuration) advanced
                ∙ ap (λ (r : RunRecord S). r.configuration) same,
            ap (λ (r : RunRecord S). r.current_cycle) advanced,
            cc (both, read),
          )
      by_end (refused e checks r) = cc
      by_end (clashed old row c clash r) = cc
