-- ===== src/Persistence/History/Kept.antt =====
-- packages/persistence/attention_sink/persistence/sqlite.py: every move leaves a history without gaps.
use attention_sink.Prelude.{
  ℕ, ◌+◌, ◌≤◌, String, ◌≡◌, ◌≢◌, ◌∙◌, sym, some, nat_beq, nat_beq_iff, Bool-cases, inl, inr, arith,
}
use attention_sink.Persistence.Database.{Database, SnapshotRow}
use attention_sink.Persistence.History.{
  reached, recorded, Moves, stays, begins, advances, ends, Gapless,
}

some_inj : {m n : ℕ} → some m ≡ some n → m ≡ n
some_inj h = cc

module _ {S : Type 0} (run_id : String) (before after : Database S)
    (g : Gapless run_id before) where
  -- Behind an advance, a recorded cycle is the new one or was recorded before.
  advanced-bounded :
      (n : ℕ)
      → reached run_id before ≡ some n
      → ((cycle : ℕ) (arm_id : String)
          → cycle ≢ n + 1
          → recorded run_id after cycle arm_id ≡ recorded run_id before cycle arm_id)
      → (cycle : ℕ) (arm_id : String) (row : SnapshotRow S)
      → recorded run_id after cycle arm_id ≡ some row
      → (1 ≤ cycle) × (cycle ≤ n + 1)
  advanced-bounded n head same cycle arm_id row r = elim (Bool-cases (nat_beq cycle (n + 1))) [
    | inl new ↦ ground arith
    | inr old ↦
        let apart : cycle ≢ n + 1 = ground arith in
        let (low, high) = g.bounded n head cycle arm_id row (sym (same cycle arm_id apart) ∙ r) in
        (low, omega arith)
  ]

  advanced-present :
      (n : ℕ)
      → reached run_id before ≡ some n
      → ((cycle : ℕ) (arm_id : String) (row : SnapshotRow S)
          → recorded run_id before cycle arm_id ≡ some row
          → recorded run_id after cycle arm_id ≡ some row)
      → (arm_id : String) (row : SnapshotRow S) → recorded run_id after (n + 1) arm_id ≡ some row
      → (cycle : ℕ) → 1 ≤ cycle
      → cycle ≤ n + 1
      → (a : String) × (found : SnapshotRow S) × (recorded run_id after cycle a ≡ some found)
  advanced-present n head kept arm_id row r cycle low high =
      elim (Bool-cases (nat_beq cycle (n + 1))) [
        | inl new ↦ (arm_id, row, rw ((nat_beq_iff cycle (n + 1)).0 new) r)
        | inr old ↦
            let (a, found, f) = g.present n head cycle low (ground arith) in
            (a, found, kept cycle a found f)
      ]

  pub Moves-Gapless : Moves run_id before after → Gapless run_id after
  Moves-Gapless (stays head same) = record {
    nothing = λ h cycle arm_id. same cycle arm_id ∙ g.nothing (sym head ∙ h) cycle arm_id;
    bounded = λ n h cycle arm_id row r.
        g.bounded n (sym head ∙ h) cycle arm_id row (sym (same cycle arm_id) ∙ r);
    present = λ n h cycle low high.
        let (arm_id, row, r) = g.present n (sym head ∙ h) cycle low high in
        (arm_id, row, same cycle arm_id ∙ r);
  }
  Moves-Gapless (begins head new same) = record {
    nothing = λ h. cc;
    bounded = λ n h cycle arm_id row r. cc (g.nothing head cycle arm_id, same cycle arm_id);
    present = λ n h cycle low high. absurd (ground arith);
  }
  Moves-Gapless (advances n head new same kept arm row r) = record {
    nothing = λ h. cc;
    bounded = λ m h cycle arm_id found f.
        rw (some_inj (sym h ∙ new)) (advanced-bounded n head same cycle arm_id found f);
    present = λ m h cycle low high.
        advanced-present n head kept arm row r cycle low (rw (← some_inj (sym h ∙ new)) high);
  }
  Moves-Gapless (ends head none_left) = record {
    nothing = λ h. none_left;
    bounded = λ n h. cc;
    present = λ n h. cc;
  }
