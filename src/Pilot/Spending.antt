-- ===== src/Pilot/Spending.antt =====
-- packages/pilot/attention_sink/pilot/budget.py: what a cycle and a run may spend on models. Each method runs under
-- the budget's lock, so concurrent callers are a sequence of whole calls.
pub mod Reach
pub mod Granted
use attention_sink.Prelude.{
  ℕ, ◌+◌, ◌-◌, String, Bool, true, false, not, Option, none, some, List, [], ◌∷◌, ◌++◌, map, leb,
  string_eq, length, filter, if◌then◌else◌,
}
use attention_sink.Prelude.Counts.{counted, add_count, total_count}
use attention_sink.Prelude.Sorting.{sorted}
use attention_sink.Prelude.Text.{text_leb}
use attention_sink.Prelude.Dict.{Dict}
use attention_sink.Domain.Errors.{Result, ok, budget_exceeded, ◌>>=◌, ◌>>◌, require}
use attention_sink.Domain.Memory.{is_some}
use attention_sink.Gateway.Observability.{
  ModelRole, writer, summarizer, interviewer, evaluator, token_counter, role_value, role_eq,
  CallMetadata,
}

-- packages/pilot/attention_sink/pilot/protocol.py
pub record ModelCallLimits : Type 0 where
  pub writer_calls_per_cycle : ℕ
  pub summary_calls_per_cycle : ℕ
  pub token_count_calls_per_cycle : ℕ
  pub evaluator_calls_per_cycle : ℕ
  pub interview_calls_per_cycle : ℕ
  pub interview_calls_per_checkpoint : ℕ
  pub max_model_calls_per_run : ℕ

pub record CallLedgerEntry : Type 0 where
  pub run_id : String
  pub cycle : ℕ
  pub arm_id : Option String
  pub operation : String
  pub checkpoint : Bool

pub record ModelUsage : Type 0 where
  pub calls_by_role : Dict ℕ
  pub ledger : List CallLedgerEntry
  pub total_calls : ℕ
  pub failed_calls : ℕ
  pub simulated_calls : ℕ
  pub input_tokens : ℕ
  pub output_tokens : ℕ
  pub retries : ℕ

unfoldable pub cycle_calls : ModelUsage → ℕ
cycle_calls usage = length (filter (λ entry. is_some entry.arm_id) usage.ledger)

pub record ModelCallBudget : Type 0 where
  pub limits : ModelCallLimits
  pub run_id : String
  pub cycle : ℕ
  pub checkpoint : Bool
  pub previously_spent : ℕ
  pub ledger : List CallLedgerEntry
  pub cycle_counts : List (ModelRole × ℕ)
  pub run_counts : List (ModelRole × ℕ)
  pub failed : ℕ
  pub simulated : ℕ
  pub input_tokens : ℕ
  pub output_tokens : ℕ
  pub retries : ℕ

unfoldable pub fresh_budget : ModelCallLimits → String → ℕ → ModelCallBudget
fresh_budget limits run_id previously_spent = record {
  limits = limits;
  run_id = run_id;
  cycle = 0;
  checkpoint = false;
  previously_spent = previously_spent;
  ledger = [];
  cycle_counts = [];
  run_counts = [];
  failed = 0;
  simulated = 0;
  input_tokens = 0;
  output_tokens = 0;
  retries = 0;
}

unfoldable pub open_cycle : ℕ → Bool → ModelCallBudget → ModelCallBudget
open_cycle cycle checkpoint b = record b {
  cycle = cycle;
  checkpoint = checkpoint;
  cycle_counts = [];
}

unfoldable pub allowance_of : ModelCallLimits → Bool → ModelRole → ℕ
allowance_of limits checkpoint interviewer =
    if checkpoint then limits.interview_calls_per_checkpoint else limits.interview_calls_per_cycle
allowance_of limits checkpoint writer = limits.writer_calls_per_cycle
allowance_of limits checkpoint summarizer = limits.summary_calls_per_cycle
allowance_of limits checkpoint evaluator = limits.evaluator_calls_per_cycle
allowance_of limits checkpoint token_counter = limits.token_count_calls_per_cycle
allowance_of limits checkpoint other = 0

abbrev pub allowance : ModelCallBudget → ModelRole → ℕ
allowance b = allowance_of b.limits b.checkpoint

-- `max(allowance - spent, 0)`, which subtraction on ℕ is.
unfoldable pub remaining : ModelCallBudget → ModelRole → ℕ
remaining b role = allowance b role - counted b.cycle_counts role

-- `previously_spent + sum(_run_calls.values())`
unfoldable pub run_total : ModelCallBudget → ℕ
run_total b = b.previously_spent + total_count b.run_counts

-- What a granted call leaves behind.
unfoldable pub charge : ModelRole → Option String → ModelCallBudget → ModelCallBudget
charge role arm_id b = record b {
  cycle_counts = add_count role 1 b.cycle_counts;
  run_counts = add_count role 1 b.run_counts;
  ledger =
      b.ledger
      ++ record {
        run_id = b.run_id;
        cycle = b.cycle;
        arm_id = arm_id;
        operation = role_value role;
        checkpoint = b.checkpoint;
      }
        ∷ [];
}

unfoldable pub spend : ModelRole → Option String → ModelCallBudget → Result ModelCallBudget
spend role arm_id b = do
  require (not (leb (allowance b role) (counted b.cycle_counts role))) budget_exceeded
  require (not (leb b.limits.max_model_calls_per_run (run_total b))) budget_exceeded
  ok (charge role arm_id b)

-- `tokens or 0`
abbrev pub or_zero : Option ℕ → ℕ
or_zero none = 0
or_zero (some n) = n

unfoldable pub record_call : CallMetadata → ModelCallBudget → ModelCallBudget
record_call metadata b = record b {
  simulated = b.simulated + (if metadata.simulated then 1 else 0);
  failed = b.failed + (if is_some metadata.error_code then 1 else 0);
  input_tokens = b.input_tokens + or_zero metadata.input_tokens;
  output_tokens = b.output_tokens + or_zero metadata.output_tokens;
  retries = b.retries + metadata.retry_count;
}

-- The property `usage`
unfoldable pub usage_of : ModelCallBudget → ModelUsage
usage_of b = record {
  calls_by_role =
      map (λ (role, count). (role_value role, count))
        (sorted (λ (r, m) (s, n). text_leb (role_value r) (role_value s)) b.run_counts);
  ledger = b.ledger;
  total_calls = total_count b.run_counts;
  failed_calls = b.failed;
  simulated_calls = b.simulated;
  input_tokens = b.input_tokens;
  output_tokens = b.output_tokens;
  retries = b.retries;
}

-- `roles[role] = roles.get(role, 0) + count`, in the order of the addition
unfoldable pub merge_roles : Dict ℕ → Dict ℕ → Dict ℕ
merge_roles roles [] = roles
merge_roles roles ((role, count) ∷ more) = merge_roles (add_count role count roles) more

-- `_merge_usage` of the store, and `_merged_usage` of the service with the usage of its budget.
unfoldable pub merge_usage : ModelUsage → ModelUsage → ModelUsage
merge_usage previous addition = record {
  calls_by_role = merge_roles previous.calls_by_role addition.calls_by_role;
  ledger = previous.ledger ++ addition.ledger;
  total_calls = previous.total_calls + addition.total_calls;
  failed_calls = previous.failed_calls + addition.failed_calls;
  simulated_calls = previous.simulated_calls + addition.simulated_calls;
  input_tokens = previous.input_tokens + addition.input_tokens;
  output_tokens = previous.output_tokens + addition.output_tokens;
  retries = previous.retries + addition.retries;
}
