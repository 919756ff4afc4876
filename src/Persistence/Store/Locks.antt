-- ===== src/Persistence/Store/Locks.antt =====
-- packages/persistence/attention_sink/persistence/sqlite.py: the lease on the right to advance a run. The token is
-- what `secrets.token_hex` drew.
use attention_sink.Prelude.{
  ℕ, ◌+◌, ◌*◌, String, Bool, true, not, ◌&&◌, Option, none, some, ◌==◌, string_eq, filter,
}
use attention_sink.Domain.Errors.{lock_not_held}
use attention_sink.Pilot.Records.{CycleLock, lock_check, is_expired}
use attention_sink.Persistence.Sql.{
  Action, pure, modify, lift, ensure, ◌>>◌, transaction, find_row, upsert_row,
}
use attention_sink.Persistence.Database.{Database}
use attention_sink.Persistence.Store.Runs.{references_run}

abbrev pub default_lock_ttl_seconds : ℕ
default_lock_ttl_seconds = 300

-- A time is in microseconds.
abbrev pub seconds : ℕ → ℕ
seconds n = n * 1000000

-- The lock that stands in the way is none, or has run out.
abbrev pub is_free : ℕ → Option CycleLock → Bool
is_free now none = true
is_free now (some held) = is_expired held now

module _ {S : Type 0} where
  abbrev pub get_cycle_lock : String → Database S → Option CycleLock
  get_cycle_lock run_id db = find_row (λ lock. lock.run_id == run_id) db.cycle_locks

  unfoldable pub put_lock : CycleLock → Database S → Database S
  put_lock lock db = record db {
    cycle_locks =
        upsert_row (λ held. held.run_id == lock.run_id)
          (λ held. record held {
            cycle = lock.cycle;
            token = lock.token;
            invocation_id = lock.invocation_id;
            acquired_at = lock.acquired_at;
            expires_at = lock.expires_at;
          })
          lock db.cycle_locks;
  }

  unfoldable pub acquire_cycle_lock :
      ℕ → String → ℕ → String → String → ℕ → Action (Database S) CycleLock
  unfolding transaction lock_check put_lock
  acquire_cycle_lock now run_id cycle token invocation_id ttl_seconds =
      let lock : CycleLock = record {
        run_id = run_id;
        cycle = cycle;
        token = token;
        invocation_id = invocation_id;
        acquired_at = now;
        expires_at = now + seconds ttl_seconds;
      } in
      do
        lift (lock_check lock)
        transaction (do
          ensure (λ db. is_free now (get_cycle_lock run_id db)) lock_not_held
          references_run run_id
          modify (put_lock lock))
        pure lock

  abbrev pub drop_lock : String → String → Database S → Database S
  drop_lock run_id token db = record db {
    cycle_locks =
        filter (λ lock. not (lock.run_id == run_id && lock.token == token)) db.cycle_locks;
  }

  unfoldable pub release_cycle_lock : String → String → Action (Database S) (Unit {0})
  unfolding transaction
  release_cycle_lock run_id token = transaction (modify (drop_lock run_id token))
