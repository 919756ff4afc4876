-- ===== src/Pilot/Engine/Seeds.antt =====
-- packages/pilot/attention_sink/pilot/engine.py: how a run starts, with the same seed memories in every arm.
use attention_sink.Prelude.{String, false, none, some, List, [], ◌∷◌, leb, sum_by}
use attention_sink.Domain.Enums.{ArmId, seed}
use attention_sink.Domain.Errors.{Result, ok, unsatisfiable_budget, require, ◌>>=◌, ◌>>◌, traverse}
use attention_sink.Domain.Runtime.{Host, Float}
use attention_sink.Domain.State.{MemoryState, mint, admit}
use attention_sink.Pilot.Engine.State.{PilotEngine, SeedMemorySpec, count_or}

module _ {S : Type 0} ⦃host : Host⦄ ⦃float : Float S⦄ where
  unfoldable pub admit_seeds : MemoryState S → List SeedMemorySpec → Result (MemoryState S)
  admit_seeds state [] = ok state
  admit_seeds state (s ∷ ss) = do
    minted ← mint state s.text (count_or 1 s.provisional_token_count) seed 0 none [] false
    admitted ← admit state (minted ∷ [])
    admit_seeds admitted ss

  -- `_install_seeds`
  unfoldable pub install_seeds : String → ArmId → List SeedMemorySpec → Result (MemoryState S)
  unfolding admit_seeds
  install_seeds run_id arm_id = admit_seeds (record {
    run_id = run_id;
    arm_id = arm_id;
    memories = [];
    lineage_edges = [];
    next_creation_sequence = 0;
  })

  -- The states of every configured arm, if the seeds fit the budget.
  unfoldable pub seeded_states : PilotEngine S → Result (List (ArmId × MemoryState S))
  unfolding install_seeds
  seeded_states engine = do
    let run_id = engine.configuration.run_id
    require
        (leb (sum_by (λ s. count_or 0 s.provisional_token_count) engine.seeds)
          engine.configuration.memory_budget_tokens)
        (unsatisfiable_budget
          (record { run_id = some run_id; arm_id = none; cycle = none; policy_version = none }))
    traverse (λ arm_id. install_seeds run_id arm_id engine.seeds >>= λ state. ok (arm_id, state))
        engine.configuration.arms
