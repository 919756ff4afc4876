-- ===== src/Persistence/Commit/Done.antt =====
-- packages/persistence/attention_sink/persistence/sqlite.py: what is read behind a commit that returned.
use attention_sink.Prelude.{
  ℕ, String, ◌≡◌, refl, ap, ◌∙◌, true, false, ◌&&◌, List, [], ◌∷◌, map, ◌==◌, nat_eq, string_eq,
  some, Option, arith, ==_refl, All, contains, distinct,
}
use attention_sink.Domain.Runtime.{Host}
use attention_sink.Domain.State.{MemoryState, hash_of_state}
use attention_sink.Persistence.Sql.{find_row}
use attention_sink.Persistence.Sql.Laws.{option_map, upsert_row-other, upsert_row-reads}
use attention_sink.Persistence.Database.{Database, StateRow}
use attention_sink.Persistence.Store.Cycles.{is_state_of}
use attention_sink.Persistence.Commit.{state_row, put_row, put_rows}

module _ {S : Type 0} where
  -- The state that is read of an arm.
  abbrev pub state_at : String → String → Database S → Option (MemoryState S)
  state_at run_id arm_id db =
      option_map (λ (r : StateRow S). r.payload)
        (find_row (is_state_of run_id arm_id) db.arm_current_states)

module _ {S : Type 0} ⦃host : Host⦄ where
  -- What is found under an arm behind one write of a state.
  put_row-reads :
      (run_id : String) (cycle : ℕ) (arm_id : String) (state : MemoryState S)
      (rows : List (StateRow S))
      → option_map
          (λ (r : StateRow S). r.payload)
          (find_row (is_state_of run_id arm_id) (put_row run_id cycle (arm_id, state) rows))
        ≡ some state
  put_row-reads run_id cycle arm_id state rows =
      upsert_row-reads (is_state_of run_id arm_id)
        (λ row. record row { cycle = cycle; state_hash = hash_of_state state; payload = state })
        (state_row run_id cycle (arm_id, state)) (λ r. r.payload) state rows (λ r. refl) (λ r. refl)
        (rw (==_refl run_id, ==_refl arm_id) refl) refl

  put_row-other :
      (run_id : String) (cycle : ℕ) (arm_id : String) (state : MemoryState S) (id other : String)
      (rows : List (StateRow S))
      → (run_id == id && arm_id == other) ≡ false
      → find_row (is_state_of id other) (put_row run_id cycle (arm_id, state) rows)
        ≡ find_row (is_state_of id other) rows
  put_row-other run_id cycle arm_id state id other rows apart =
      upsert_row-other (is_state_of run_id arm_id)
        (λ row. record row { cycle = cycle; state_hash = hash_of_state state; payload = state })
        (state_row run_id cycle (arm_id, state)) (is_state_of id other) rows (λ r. refl)
        (λ r named. ground (
          arith,
          string_eq.eqb_iff r.run_id run_id,
          string_eq.eqb_iff r.run_id id,
          string_eq.eqb_iff run_id id,
          string_eq.eqb_iff r.arm_id arm_id,
          string_eq.eqb_iff r.arm_id other,
          string_eq.eqb_iff arm_id other,
        ))
        apart

  pub put_rows-other :
      (run_id : String) (cycle : ℕ) (ss : List (String × MemoryState S)) (id other : String)
      (rows : List (StateRow S))
      → (run_id == id && contains (map (λ s. s.0) ss) other) ≡ false
      → find_row (is_state_of id other) (put_rows run_id cycle ss rows)
        ≡ find_row (is_state_of id other) rows
  put_rows-other run_id cycle [] id other rows apart = refl
  put_rows-other run_id cycle ((arm_id, state) ∷ ss) id other rows apart =
      put_rows-other run_id cycle ss id other (put_row run_id cycle (arm_id, state) rows)
        (ground arith)
      ∙ put_row-other run_id cycle arm_id state id other rows (ground arith)

  -- Each arm's state is the one that was written for it.
  pub put_rows-reads :
      (run_id : String) (cycle : ℕ) (ss : List (String × MemoryState S)) (rows : List (StateRow S))
      → distinct (map (λ s. s.0) ss) ≡ true
      → All
          (λ s.
            option_map
              (λ (r : StateRow S). r.payload)
              (find_row (is_state_of run_id s.0) (put_rows run_id cycle ss rows))
            ≡ some s.1)
          ss
  put_rows-reads run_id cycle [] rows d = tt
  put_rows-reads run_id cycle ((arm_id, state) ∷ ss) rows d = (
    ap (option_map (λ (r : StateRow S). r.payload)) (
          put_rows-other run_id cycle ss run_id arm_id (put_row run_id cycle (arm_id, state) rows)
            (ground arith))
        ∙ put_row-reads run_id cycle arm_id state rows,
    put_rows-reads run_id cycle ss (put_row run_id cycle (arm_id, state) rows) (ground arith),
  )
