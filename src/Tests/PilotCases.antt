-- ===== src/Tests/PilotCases.antt =====
-- The theorems on spending and on the engine at a run of one arm.
use attention_sink.Prelude.{
  ℕ, ◌≡◌, ◌≤◌, ◌+◌, refl, arith, String, Option, some, none, List, [], ◌∷◌, false, length,
}
use attention_sink.Domain.Enums.{arm_fifo, arm_summary}
use attention_sink.Domain.Errors.{ok, raise, budget_exceeded}
use attention_sink.Gateway.Observability.{writer, summarizer}
use attention_sink.Pilot.Spending.{
  ModelCallBudget, fresh_budget, open_cycle, allowance_of, run_total, charge, spend, record_call,
  usage_of, merge_usage, cycle_calls,
}
use attention_sink.Pilot.Spending.Reach.{
  Reach, here, next, opened, spent, recorded, WithinLimits, fresh-WithinLimits, run-ceiling,
}
use attention_sink.Pilot.Spending.Granted.{Claimed, spend-Claimed, spend_times, open_cycle-grants}
use attention_sink.Pilot.Engine.Claims.{Split, validate_claims, validate_claims-Split}
use attention_sink.Pilot.Engine.Rebalancing.{rebalance_arm_memory}
use attention_sink.Pilot.Engine.Rebalancing.Spending.{rebalance_arm_memory-ends}
use attention_sink.Pilot.Engine.State.{PilotEngine}
use attention_sink.Pilot.Engine.Checkpoints.{run_checkpoint}
use attention_sink.Pilot.Engine.Checkpoints.Measured.{Measured, run_checkpoint-Measured}
use attention_sink.Pilot.Engine.Cycle.{run_cycle}
use attention_sink.Pilot.Engine.Cycle.Together.{Together, run_cycle-Together}
use attention_sink.Tests.Fixtures.{host, whole, three, context}
use attention_sink.Tests.PilotFixtures.{snapshot_text, limits, no_usage, metadata, models, pilot}

abbrev start : ModelCallBudget
start = fresh_budget limits "run-1" 0

abbrev in_cycle_one : ModelCallBudget
in_cycle_one = open_cycle 1 false start

abbrev after_writer : ModelCallBudget
after_writer = record_call metadata (charge writer (some "arm_fifo") in_cycle_one)

writer_granted :
    spend writer (some "arm_fifo") in_cycle_one ≡ ok (charge writer (some "arm_fifo") in_cycle_one)
unfolding spend charge run_total allowance_of open_cycle fresh_budget
writer_granted = refl

one_call : Reach start after_writer
one_call =
    next (next (next here (opened 1 false)) (spent writer (some "arm_fifo") writer_granted))
      (recorded metadata)

fresh-WithinLimits_example : WithinLimits limits 0 after_writer
fresh-WithinLimits_example = fresh-WithinLimits limits "run-1" 0 after_writer one_call

nothing_spent : cycle_calls no_usage ≤ 100
unfolding cycle_calls
nothing_spent = omega arith

spent_nothing : cycle_calls no_usage ≡ 0
unfolding cycle_calls
spent_nothing = refl

abbrev from_store : ModelCallBudget
from_store = fresh_budget limits "run-1" (cycle_calls no_usage)

stored_granted :
    spend writer (some "arm_fifo") from_store ≡ ok (charge writer (some "arm_fifo") from_store)
unfolding spend charge run_total allowance_of fresh_budget cycle_calls
stored_granted = refl

run-ceiling_example :
    cycle_calls (merge_usage no_usage (usage_of (charge writer (some "arm_fifo") from_store))) ≤ 100
run-ceiling_example =
    run-ceiling limits "run-1" no_usage (charge writer (some "arm_fifo") from_store) nothing_spent
      (next here (spent writer (some "arm_fifo") stored_granted))

spend-Claimed_example : Claimed writer in_cycle_one (spend writer (some "arm_fifo") in_cycle_one)
spend-Claimed_example = spend-Claimed writer (some "arm_fifo") in_cycle_one

abbrev two : List (Option String)
two = some "arm_fifo" ∷ some "arm_lru" ∷ []

two_arms : length two ≡ allowance_of limits false summarizer
unfolding allowance_of
two_arms = refl

room_for_two : run_total start + length two ≤ 100
unfolding run_total fresh_budget
room_for_two = omega arith

open_cycle-grants_example :
    (c : ModelCallBudget) × (spend_times summarizer two (open_cycle 1 false start) ≡ ok c)
    × (spend summarizer none c ≡ raise budget_exceeded)
unfolding fresh_budget
open_cycle-grants_example =
    open_cycle-grants summarizer 1 false start two none two_arms room_for_two

-- The second memory is cited twice, and one that is not there.
abbrev cited : List String
cited = "mem_arm_fifo_000001" ∷ "mem_arm_fifo_000001" ∷ "mem_arm_fifo_000009" ∷ []

validate_claims-Split_example :
    Split (three arm_fifo) [] cited (validate_claims (three arm_fifo) cited)
validate_claims-Split_example = validate_claims-Split (three arm_fifo) cited

rebalance_arm_memory-ends_example : ¬ (
    (rebalance_arm_memory models arm_summary (three arm_summary) (context arm_summary 2) pilot).0
    ≡ ok none)
rebalance_arm_memory-ends_example =
    rebalance_arm_memory-ends models arm_summary (three arm_summary) (context arm_summary 2) pilot

abbrev clock : ℕ → ℕ
clock calls = calls

run_cycle-Together_example : Together models clock 3 pilot (run_cycle models clock 3 pilot)
run_cycle-Together_example = run_cycle-Together models clock 3 pilot

abbrev at_ten : PilotEngine ℕ
at_ten = record pilot { current_cycle = 10 }

run_checkpoint-Measured_example :
    Measured (arm_fifo ∷ []) at_ten (run_checkpoint models clock 10 none at_ten)
run_checkpoint-Measured_example = run_checkpoint-Measured models clock 10 none at_ten
