-- ===== src/Persistence/History/Moved.antt =====
-- packages/persistence/attention_sink/persistence/sqlite.py: the operations that begin, advance and end a history.
use attention_sink.Prelude.{
  ℕ, String, ◌≡◌, refl, sym, ap, ◌∙◌, true, false, [], ◌∷◌, ◌++◌, any, ◌==◌, ◌!=◌, nat_eq, ==_refl,
  string_eq, some, none, Option, arith, Bool-cases, inl, inr,
}
use mathlib.Core.Path.{subst}
use attention_sink.Pilot.Records.{RunRecord}
use attention_sink.Persistence.Sql.{find_row}
use attention_sink.Persistence.Sql.Laws.{
  option_map, or_else, find_row-append, find_row-absent, find_row-filter, find_row-filter-none,
}
use attention_sink.Persistence.Database.{Database, SnapshotRow}
use attention_sink.Persistence.Store.Runs.{is_run, find_run, create_run, delete_run, cascade}
use attention_sink.Persistence.Store.Cycles.{is_snapshot_of}
use attention_sink.Persistence.History.{reached, recorded, Moves, stays, begins, ends}
use attention_sink.Persistence.History.Steady.{Steady}

named_other :
    (id run_id gone : String)
    → (run_id == gone) ≡ false
    → (id == run_id) ≡ true
    → (id != gone) ≡ true
named_other id run_id gone other named =
    ground
      (arith, string_eq.eqb_iff id run_id, string_eq.eqb_iff id gone, string_eq.eqb_iff run_id gone)

named_gone : (id gone : String) → (id == gone) ≡ true → (id != gone) ≡ false
named_gone id gone named = ground arith

is_snapshot_of-run :
    {S : Type 0} (run_id arm_id : String) (cycle : ℕ) (row : SnapshotRow S)
    → is_snapshot_of run_id arm_id cycle row ≡ true
    → (row.run_id == run_id) ≡ true
is_snapshot_of-run run_id arm_id cycle row h = ground arith

module _ {S : Type 0} where
  pub Steady-Moves :
      (run_id : String) (before after : Database S)
      → Steady before after
      → Moves run_id before after
  Steady-Moves run_id before after s =
      stays (s.0 run_id) (λ cycle arm_id. ap (find_row (is_snapshot_of run_id arm_id cycle)) s.1)

  -- A database, and the same one again.
  pub same-Moves :
      (run_id : String) (before after : Database S) → after ≡ before → Moves run_id before after
  same-Moves run_id before after e =
      stays (ap (reached run_id) e) (λ cycle arm_id. ap (λ db. recorded run_id db cycle arm_id) e)

  create_run-taken :
      (run : RunRecord S) (db : Database S)
      → any (is_run run.run_id) db.runs ≡ true
      → (create_run run db).1 ≡ db
  unfolding create_run
  create_run-taken run db h = rw h refl

  create_run-new :
      (run : RunRecord S) (db : Database S)
      → any (is_run run.run_id) db.runs ≡ false
      → (create_run run db).1 ≡ record db { runs = db.runs ++ run ∷ [] }
  unfolding create_run
  create_run-new run db h = rw h refl

  appended :
      (run : RunRecord S) (db : Database S) (run_id : String)
      → reached run_id (record db { runs = db.runs ++ run ∷ [] })
        ≡ option_map
            (λ (r : RunRecord S). r.current_cycle)
            (or_else (find_run run_id db) (find_row (is_run run_id) (run ∷ [])))
  appended run db run_id =
      ap (option_map (λ (r : RunRecord S). r.current_cycle))
        (find_row-append (is_run run_id) db.runs (run ∷ []))

  created-own :
      (run : RunRecord S) (db : Database S)
      → run.current_cycle ≡ 0
      → any (is_run run.run_id) db.runs ≡ false
      → Moves run.run_id db (record db { runs = db.runs ++ run ∷ [] })
  created-own run db start free =
      let absent = find_row-absent (is_run run.run_id) db.runs free in
      begins (rw absent refl)
        (appended run db run.run_id ∙ rw (absent, ==_refl run.run_id) (ap some start))
        (λ cycle arm_id. refl)

  unmoved :
      (run : RunRecord S) (found : Option (RunRecord S)) (run_id : String)
      → (run.run_id == run_id) ≡ false
      → option_map
          (λ (r : RunRecord S). r.current_cycle)
          (or_else found (find_row (is_run run_id) (run ∷ [])))
        ≡ option_map (λ (r : RunRecord S). r.current_cycle) found
  unmoved run none run_id other = rw other refl
  unmoved run (some r) run_id other = refl

  created-Moves :
      (run : RunRecord S) (db : Database S) (run_id : String)
      → run.current_cycle ≡ 0
      → any (is_run run.run_id) db.runs ≡ false
      → Moves run_id db (record db { runs = db.runs ++ run ∷ [] })
  created-Moves run db run_id start free = elim (Bool-cases (run.run_id == run_id)) [
    | inl same ↦
        subst (λ id. Moves id db (record db { runs = db.runs ++ run ∷ [] }))
          ((string_eq.eqb_iff run.run_id run_id).0 same) (created-own run db start free)
    | inr other ↦
        stays (appended run db run_id ∙ unmoved run (find_run run_id db) run_id other)
          (λ cycle arm_id. refl)
  ]

  pub create_run-Moves :
      (run : RunRecord S) (db : Database S) (run_id : String)
      → run.current_cycle ≡ 0
      → Moves run_id db (create_run run db).1
  create_run-Moves run db run_id start = elim (Bool-cases (any (is_run run.run_id) db.runs)) [
    | inl taken ↦ same-Moves run_id db _ (create_run-taken run db taken)
    | inr free ↦ rw (create_run-new run db free) (created-Moves run db run_id start free)
  ]

  delete_run-missing :
      (run_id : String) (db : Database S)
      → find_run run_id db ≡ none
      → (delete_run run_id db).1 ≡ db
  unfolding delete_run
  delete_run-missing run_id db h = rw h refl

  delete_run-found :
      (run_id : String) (db : Database S) (run : RunRecord S)
      → find_run run_id db ≡ some run
      → (delete_run run_id db).1 ≡ cascade run_id db
  unfolding delete_run
  delete_run-found run_id db run h = rw h refl

  cascade-own : (gone : String) (db : Database S) → Moves gone db (cascade gone db)
  cascade-own gone db =
      ends
        (ap (option_map (λ (r : RunRecord S). r.current_cycle)) (
          find_row-filter-none (is_run gone) (λ r. r.run_id != gone) db.runs
            (λ r. named_gone r.run_id gone)))
        (λ cycle arm_id.
          find_row-filter-none (is_snapshot_of gone arm_id cycle) (λ r. r.run_id != gone)
            db.cycle_snapshots
            (λ r h. named_gone r.run_id gone (is_snapshot_of-run gone arm_id cycle r h)))

  cascade-other :
      (gone : String) (db : Database S) (run_id : String)
      → (run_id == gone) ≡ false
      → Moves run_id db (cascade gone db)
  cascade-other gone db run_id other =
      stays
        (ap (option_map (λ (r : RunRecord S). r.current_cycle)) (
          find_row-filter (is_run run_id) (λ r. r.run_id != gone) db.runs
            (λ r. named_other r.run_id run_id gone other)))
        (λ cycle arm_id.
          find_row-filter (is_snapshot_of run_id arm_id cycle) (λ r. r.run_id != gone)
            db.cycle_snapshots
            (λ r h.
              named_other r.run_id run_id gone other (is_snapshot_of-run run_id arm_id cycle r h)))

  cascade-Moves :
      (gone : String) (db : Database S) (run_id : String) → Moves run_id db (cascade gone db)
  cascade-Moves gone db run_id = elim (Bool-cases (run_id == gone)) [
    | inl same ↦
        subst (λ id. Moves id db (cascade gone db)) (sym ((string_eq.eqb_iff run_id gone).0 same))
          (cascade-own gone db)
    | inr other ↦ cascade-other gone db run_id other
  ]

  delete_run-by :
      (gone : String) (db : Database S) (run_id : String) (found : Option (RunRecord S))
      → find_run gone db ≡ found
      → Moves run_id db (delete_run gone db).1
  delete_run-by gone db run_id none h = same-Moves run_id db _ (delete_run-missing gone db h)
  delete_run-by gone db run_id (some run) h =
      rw (delete_run-found gone db run h) (cascade-Moves gone db run_id)

  pub delete_run-Moves :
      (gone : String) (db : Database S) (run_id : String) → Moves run_id db (delete_run gone db).1
  delete_run-Moves gone db run_id = delete_run-by gone db run_id (find_run gone db) refl
