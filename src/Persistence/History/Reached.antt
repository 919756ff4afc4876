-- ===== src/Persistence/History/Reached.antt =====
-- packages/persistence/attention_sink/persistence/sqlite.py: what holds of every history that the operations can make.
use attention_sink.Prelude.{ℕ, String, ◌≡◌, refl, ◌∙◌, some, none, ◌⊎◌, inl, inr}
use attention_sink.Domain.Runtime.{Host}
use attention_sink.Pilot.Snapshots.{Dump}
use attention_sink.Pilot.Records.{PreparedCycle, StoredInterview}
use attention_sink.Persistence.Database.{Database, SnapshotRow, empty_database}
use attention_sink.Persistence.History.{
  IsStaged, Moves, stays, begins, advances, ends, Gapless, recorded, reached,
}
use attention_sink.Persistence.History.Kept.{Moves-Gapless}
use attention_sink.Persistence.History.Steps.{Step, Step-IsStaged, Step-Moves, Reach, here, next}

module _ {S : Type 0} where
  empty-Gapless : (run_id : String) → Gapless run_id (empty_database {S = S})
  empty-Gapless run_id = record {
    nothing = λ h cycle arm_id. refl;
    bounded = λ n h. cc;
    present = λ n h. cc;
  }

  -- A move keeps a snapshot as it is, or ends the history.
  Moves-keeps :
      (run_id : String) (before after : Database S) (cycle : ℕ) (arm_id : String)
      (row : SnapshotRow S)
      → Moves run_id before after
      → recorded run_id before cycle arm_id ≡ some row
      → (recorded run_id after cycle arm_id ≡ some row) ⊎ (reached run_id after ≡ none)
  Moves-keeps run_id before after cycle arm_id row (stays head same) h = inl (same cycle arm_id ∙ h)
  Moves-keeps run_id before after cycle arm_id row (begins head new same) h =
      inl (same cycle arm_id ∙ h)
  Moves-keeps run_id before after cycle arm_id row (advances n head new same kept arm first r) h =
      inl (kept cycle arm_id row h)
  Moves-keeps run_id before after cycle arm_id row (ends head gone) h = inr head

module _ {S : Type 0} ⦃host : Host⦄ ⦃dump : Dump (PreparedCycle S)⦄
    ⦃interviews : Dump StoredInterview⦄ where
  pub Reach-IsStaged : {db : Database S} → Reach empty_database db → IsStaged db
  Reach-IsStaged here = tt
  Reach-IsStaged (next r step) = Step-IsStaged step (Reach-IsStaged r)

  pub Reach-Gapless :
      (run_id : String) {db : Database S} → Reach empty_database db → Gapless run_id db
  Reach-Gapless run_id here = empty-Gapless run_id
  Reach-Gapless run_id (next {mid} {after} r step) =
      Moves-Gapless run_id mid after (Reach-Gapless run_id r)
        (Step-Moves run_id (Reach-IsStaged r) step)

  pub recorded-permanent :
      (run_id : String) (cycle : ℕ) (arm_id : String) (row : SnapshotRow S)
      {before after : Database S}
      → Reach empty_database before
      → Step before after
      → recorded run_id before cycle arm_id ≡ some row
      → (recorded run_id after cycle arm_id ≡ some row) ⊎ (reached run_id after ≡ none)
  recorded-permanent run_id cycle arm_id row {before} {after} r step h =
      Moves-keeps run_id before after cycle arm_id row (Step-Moves run_id (Reach-IsStaged r) step) h
